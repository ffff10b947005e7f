-- ===== src/Workflow/Delivering/Effects.antt =====
-- What `mark_delivered` leaves behind.
use les_traiteurs_engages_v.Base.{
  Ensures, arith, fetch-Ensures, find, find-holds, inl, inr, modify-Ensures, refl, return-Ensures,
  some, true, update_first, ℕ, ◌≡◌, ◌⊎◌,
}
use les_traiteurs_engages_v.Models.{Caterer, Database, Order, OrderStatus}
use les_traiteurs_engages_v.Notifications.{notify_users}
use les_traiteurs_engages_v.Workflow.Delivering.{
  deliver, is_deliverable, is_order_of, mark_delivered,
}
use les_traiteurs_engages_v.Workflow.Errors.{WorkflowError, attribute_error}

module _ (order_id : ℕ) (caterer : Caterer) (db : Database) where
  -- The order goes from `confirmed` to `delivered`, its quote belongs to the caterer, and the quotes,
  -- the requests and the rows of the solicited caterers stay as they were.
  pub record Delivered (order : Order) (db' : Database) : Type 0 where
    pub before : Order
    pub found : find (is_deliverable order_id caterer.id db) db.orders ≡ some before
    pub own : is_order_of caterer.id db before ≡ true
    pub was_confirmed : before.status ≡ OrderStatus.confirmed
    pub delivered : order ≡ deliver before
    pub orders : db'.orders ≡ update_first (is_deliverable order_id caterer.id db) deliver db.orders
    pub quotes : db'.quotes ≡ db.quotes
    pub requests : db'.requests ≡ db.requests
    pub qrcs : db'.qrcs ≡ db.qrcs

  -- A call that fails writes nothing, but where a row that a foreign key promises is missing.
  abbrev Undelivered : WorkflowError → Database → Type 0
  Undelivered e db' = (db' ≡ db) ⊎ (e ≡ attribute_error)

  -- A call of `mark_delivered` that raises `OrderNotFound` changes nothing. One that succeeds takes
  -- one `confirmed` order, whose quote is the caterer's, to `delivered`; the quotes, the requests
  -- and the rows of the solicited caterers stay as they were.
  pub mark_delivered_delivers : Ensures Undelivered Delivered (mark_delivered order_id caterer db)
  unfolding mark_delivered notify_users
  mark_delivered_delivers =
      fetch-Ensures Undelivered Delivered _ _ _ _ (λ _. inl refl)
        λ before found. modify-Ensures Undelivered Delivered _ _ _ (
          fetch-Ensures Undelivered Delivered _ _ _ _ (λ _. inr refl)
            λ qr _. modify-Ensures Undelivered Delivered _ _ _ (
              return-Ensures Undelivered Delivered _ _ (
                let test =
                  find-holds (is_deliverable order_id caterer.id db) db.orders before found in
                record {
                  before = before;
                  found = found;
                  own = ground (arith, test);
                  was_confirmed = ground (arith, test);
                  delivered = refl;
                  orders = refl;
                  quotes = refl;
                  requests = refl;
                  qrcs = refl;
                })))
