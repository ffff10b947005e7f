-- ===== src/Models/Lookups.antt =====
-- The rows by their primary keys, as `db.get` and the joins find them.
use Prim.Native.Nat.{ℕ}
use mathlib.Core.Option.{Option}
use les_traiteurs_engages_v.Base.{◌==◌, find}
use les_traiteurs_engages_v.Models.Accounts.{User}
use les_traiteurs_engages_v.Models.Requests.{QuoteRequest, Quote}
use les_traiteurs_engages_v.Models.Billing.{Order}
use les_traiteurs_engages_v.Models.Schema.{Database}

abbrev pub user_by : ℕ → Database → Option User
user_by id db = find (λ u. u.id == id) db.users

abbrev pub order_by : ℕ → Database → Option Order
order_by id db = find (λ o. o.id == id) db.orders

abbrev pub quote_by : ℕ → Database → Option Quote
quote_by id db = find (λ q. q.id == id) db.quotes

abbrev pub request_by : ℕ → Database → Option QuoteRequest
request_by id db = find (λ r. r.id == id) db.requests
