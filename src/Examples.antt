-- ===== src/Examples.antt =====
-- A small shop on which the results are applied, and tests that run the code on it.
mod Samples
mod Toys
mod Transitions
mod Amounts
mod Aftermath
mod People
mod Letters
mod Staff
mod Newcomers
mod Administration
mod Gates
mod Files
mod Wishes
