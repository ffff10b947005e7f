-- ===== src/Invoicing/Customer.antt =====
-- The customer that Stripe has made for the client of an order, and the session of a call that raises.
use les_traiteurs_engages_v.Base.{
  text_or_none, return-Ensures, ◌⊎◌, sym, return, inr, inl, Ensures, Option, String, ap,
  fetch-Ensures, find, modify-Ensures, none, refl, some, update_first, ◌+◌, ◌==◌, ◌∙◌, ◌≡◌,
}
use les_traiteurs_engages_v.Invoicing.{
  BillingError, get_or_create_customer, create_customer, Billing,
}
use les_traiteurs_engages_v.Models.{Database, Order, User}

-- The customer's identifier may be noted on the order's client, and nothing else is written.
pub record Noted (order : Order) (before after : Database) : Type 0 where
  pub only_users : after ≡ record before { users = after.users }
  pub customer :
      (after.users ≡ before.users)
      ⊎ ((client : User) × (find (λ u. u.id == order.client_admin_id) before.users ≡ some client)
          × ((customer_id : String) × (after.users
                ≡ update_first
                    (λ u. u.id == client.id)
                    (λ u. record u { stripe_customer_id = some customer_id })
                    before.users)))

-- What a call that raises has in its session: the customer may be noted, and the attempt counted.
pub record Unbilled (order : Order) (before after : Database) : Type 0 where
  pub only_customer_and_order : after ≡ record before { users = after.users; orders = after.orders }
  pub customer :
      (after.users ≡ before.users)
      ⊎ ((client : User) × (find (λ u. u.id == order.client_admin_id) before.users ≡ some client)
          × ((customer_id : String) × (after.users
                ≡ update_first
                    (λ u. u.id == client.id)
                    (λ u. record u { stripe_customer_id = some customer_id })
                    before.users)))
  pub attempt :
      (after.orders ≡ before.orders)
      ⊎ (after.orders
          ≡ update_first
              (λ o. o.id == order.id)
              (λ o. record o { invoice_attempt = o.invoice_attempt + 1 })
              before.orders)

pub Noted-refl : (order : Order) (db : Database) → Noted order db db
Noted-refl order db = record { only_users = refl; customer = inl refl }

pub Noted-Unbilled :
    {order : Order} {before after : Database}
    → Noted order before after
    → Unbilled order before after
Noted-Unbilled {before = before} {after = after} n = record {
  only_customer_and_order =
      n.only_users
      ∙ ap (λ os. record before { users = after.users; orders = os })
          (sym (ap (λ d. d.orders) n.only_users));
  customer = n.customer;
  attempt = inl (ap (λ d. d.orders) n.only_users);
}

pub get_or_create_customer-Noted :
    (order : Order) (client : User) (created : Option String) (db : Database)
    → find (λ u. u.id == order.client_admin_id) db.users ≡ some client
    → Ensures
        (λ e s. Unbilled order db s)
        (λ id s. Noted order db s)
        (get_or_create_customer client created db)
unfolding get_or_create_customer create_customer
get_or_create_customer-Noted order client created db found =
    by_id (text_or_none client.stripe_customer_id)
  where
    Bad : BillingError → Database → Type 0
    Bad e s = Unbilled order db s

    Good : String → Database → Type 0
    Good id s = Noted order db s

    by_id :
        (o : Option String)
        → Ensures Bad Good (
            elim o as (λ _. Billing String) [
              | some customer_id ↦ return customer_id
              | none ↦ create_customer client created
            ]
              db)
    by_id (some id) = return-Ensures Bad Good id db (Noted-refl order db)
    by_id none =
        fetch-Ensures Bad Good _ _ _ _ (λ _. Noted-Unbilled (Noted-refl order db))
          λ id made. modify-Ensures Bad Good _ _ _ (
            return-Ensures Bad Good _ _
              (record { only_users = refl; customer = inr (client, found, (id, refl)) }))
