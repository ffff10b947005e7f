-- ===== src/Scoping/Kitchen.antt =====
-- What a caterer sees.
use les_traiteurs_engages_v.Base.{
  Bool, IsKeyed, Option, arith, false, find-holds, none, refl, some, true, ℕ, ◌&&◌, ◌==◌, ◌≡◌, ◌≢◌,
}
use les_traiteurs_engages_v.Models.{Database, Order, Quote, QuoteRequestCaterer, quote_by}
use les_traiteurs_engages_v.Scoping.{
  get_caterer_order, get_caterer_qrc, get_caterer_quote, is_order_of_caterer,
}
use les_traiteurs_engages_v.Scoping.Rows.{find-hidden, find-second}

key_differs : (a b c : ℕ) → a ≢ b → (c == a) ≡ true → (c == b) ≡ false
key_differs a b c differs h = ground (arith, differs, h)

order_differs :
    (a b : ℕ) (o : Order) (db : Database)
    → a ≢ b
    → is_order_of_caterer a db o ≡ true
    → is_order_of_caterer b db o ≡ false
order_differs a b o db differs h = through (quote_by o.quote_id db) h
  where
    through :
        (f : Option Quote)
        → elim f [ none ↦ false | some q ↦ q.caterer_id == a ] ≡ true
        → elim f [ none ↦ false | some q ↦ q.caterer_id == b ] ≡ false
    through none e = refl
    through (some q) e = key_differs a b q.caterer_id differs e

-- Where primary keys are distinct, a quote or an order that one caterer is given under an identifier
-- is not found by another caterer; and a row of a solicitation that a caterer is given is the
-- caterer's own, on the request asked for.
caterer_rows_apart :
    (a b id request_id : ℕ) (db : Database)
    → IsKeyed (λ (q : Quote). q.id) db.quotes
    → IsKeyed (λ (o : Order). o.id) db.orders
    → a ≢ b
    → ((q : Quote)
        → get_caterer_quote request_id id a db ≡ some q
        → (other : ℕ) → get_caterer_quote other id b db ≡ none)
      × ((o : Order) → get_caterer_order id a db ≡ some o → get_caterer_order id b db ≡ none)
      × ((c : QuoteRequestCaterer)
          → get_caterer_qrc request_id a db ≡ some c
          → (c.caterer_id ≡ a) × (c.quote_request_id ≡ request_id))
unfolding get_caterer_quote get_caterer_order get_caterer_qrc
caterer_rows_apart a b id request_id db quotes orders differs = (
  λ q h other.
      find-hidden (λ (x : Quote). x.id) (λ x. x.caterer_id == a && x.quote_request_id == request_id)
        (λ x. x.caterer_id == b && x.quote_request_id == other) id db.quotes q quotes h
        (apart q.caterer_id (q.quote_request_id == request_id) (q.quote_request_id == other) (
          find-second (λ (x : Quote). x.id)
            (λ x. x.caterer_id == a && x.quote_request_id == request_id) id db.quotes q h)),
  λ o h.
      find-hidden (λ (x : Order). x.id) (is_order_of_caterer a db) (is_order_of_caterer b db) id
        db.orders o orders h
        (order_differs a b o db differs
          (find-second (λ (x : Order). x.id) (is_order_of_caterer a db) id db.orders o h)),
  λ c h. own c (
      find-holds
        (λ (x : QuoteRequestCaterer). x.quote_request_id == request_id && x.caterer_id == a) db.qrcs
        c h),
)
  where
    apart : (c : ℕ) (s t : Bool) → ((c == a) && s) ≡ true → ((c == b) && t) ≡ false
    apart c s t e = ground (arith, differs, e)

    own :
        (c : QuoteRequestCaterer)
        → (c.quote_request_id == request_id && c.caterer_id == a) ≡ true
        → (c.caterer_id ≡ a) × (c.quote_request_id ≡ request_id)
    own c e = ground (arith, e)
