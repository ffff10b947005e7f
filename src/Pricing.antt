-- ===== src/Pricing.antt =====
-- services/quotes.py and the amounts of services/stripe_service.py. Every finite decimal of a quote
-- is a whole number of parts, of which `one` make 1: a power of ten that suits all decimals of the
-- quote, so that sums and products are the exact ones of Python's `Decimal` (they stay below its 28
-- digits for the sizes that `lines_from_dicts` lets through).
pub mod Rounding
pub mod Lines
pub mod Totals
pub mod Split
