-- ===== src/Scoping/Client.antt =====
-- What the users of a company see.
use les_traiteurs_engages_v.Base.{
  Bool, IsKeyed, Option, Option-cases, arith, false, inl, inr, is_id, none, refl, some, subst, sym,
  true, ℕ, ◌≡◌, ◌≢◌,
}
use les_traiteurs_engages_v.Models.{
  CompanyEmployee, CompanyService, Database, Order, Quote, QuoteRequest, User, is_client_user,
  quote_by, request_by,
}
use les_traiteurs_engages_v.Scoping.{
  get_company_employee, get_company_order, get_company_request, get_company_service, is_in_scope,
  is_order_in_scope,
}
use les_traiteurs_engages_v.Scoping.Rows.{find-hidden, find-second, find-with}

-- The primary keys of the tables that the queries of a company go through.
abbrev pub CompanyKeys : Database → Type 0
CompanyKeys db =
    IsKeyed (λ (r : QuoteRequest). r.id) db.requests
    × IsKeyed (λ (o : Order). o.id) db.orders
    × IsKeyed (λ (s : CompanyService). s.id) db.services
    × IsKeyed (λ (e : CompanyEmployee). e.id) db.employees

-- A row of one company is not one of another.
other_company :
    (mine yours : Option ℕ) (a b c : ℕ)
    → mine ≡ some a
    → yours ≡ some b
    → a ≢ b
    → is_id mine c ≡ true
    → is_id yours c ≡ false
other_company mine yours a b c m y differs h = ground (arith, m, y, differs, h)

scope_differs :
    (u v : User) (r : QuoteRequest) (a b : ℕ)
    → u.company_id ≡ some a
    → v.company_id ≡ some b
    → a ≢ b
    → is_in_scope u r ≡ true
    → is_in_scope v r ≡ false
scope_differs u v r a b m y differs h =
    let mine = other_company u.company_id v.company_id a b r.company_id m y differs in
    ground (arith, h, mine)

order_scope_differs :
    (u v : User) (o : Order) (db : Database)
    → ((r : QuoteRequest) → is_in_scope u r ≡ true → is_in_scope v r ≡ false)
    → is_order_in_scope u db o ≡ true
    → is_order_in_scope v db o ≡ false
order_scope_differs u v o db differs h = through (quote_by o.quote_id db) h
  where
    behind :
        (f : Option QuoteRequest)
        → elim f [ none ↦ false | some r ↦ is_in_scope u r ] ≡ true
        → elim f [ none ↦ false | some r ↦ is_in_scope v r ] ≡ false
    behind none e = refl
    behind (some r) e = differs r e

    through :
        (f : Option Quote)
        → elim f [
          | none ↦ false
          | some q ↦ elim (request_by q.quote_request_id db) [
            | none ↦ false
            | some r ↦ is_in_scope u r
          ]
        ]
          ≡ true
        → elim f [
          | none ↦ false
          | some q ↦ elim (request_by q.quote_request_id db) [
            | none ↦ false
            | some r ↦ is_in_scope v r
          ]
        ]
          ≡ false
    through none e = refl
    through (some q) e = behind (request_by q.quote_request_id db) e

-- Where primary keys are distinct, a request, an order, a service or an employee that a user of one
-- company is given under an identifier is not found by a user of another company.
pub company_rows_apart :
    (u v : User) (a b id : ℕ) (db : Database)
    → CompanyKeys db
    → u.company_id ≡ some a
    → v.company_id ≡ some b
    → a ≢ b
    → ((r : QuoteRequest)
        → get_company_request id u db ≡ some r
        → get_company_request id v db ≡ none)
      × ((o : Order) → get_company_order id u db ≡ some o → get_company_order id v db ≡ none)
      × ((s : CompanyService)
          → get_company_service id u.company_id db ≡ some s
          → get_company_service id v.company_id db ≡ none)
      × ((e : CompanyEmployee)
          → get_company_employee id u.company_id db ≡ some e
          → get_company_employee id v.company_id db ≡ none)
unfolding get_company_request get_company_order get_company_service get_company_employee
company_rows_apart u v a b id db keys m y differs =
    let elsewhere = other_company u.company_id v.company_id a b in
    (
      λ r h.
          find-hidden (λ (x : QuoteRequest). x.id) (is_in_scope u) (is_in_scope v) id db.requests r
            keys.0 h
            (scope_differs u v r a b m y differs
              (find-second (λ (x : QuoteRequest). x.id) (is_in_scope u) id db.requests r h)),
      λ o h.
          find-hidden (λ (x : Order). x.id) (is_order_in_scope u db) (is_order_in_scope v db) id
            db.orders o keys.1 h
            (order_scope_differs u v o db (λ r. scope_differs u v r a b m y differs)
              (find-second (λ (x : Order). x.id) (is_order_in_scope u db) id db.orders o h)),
      λ s h.
          find-hidden (λ (x : CompanyService). x.id) (λ x. is_id u.company_id x.company_id)
            (λ x. is_id v.company_id x.company_id) id db.services s keys.2 h
            (elsewhere s.company_id m y differs (
              find-second (λ (x : CompanyService). x.id) (λ x. is_id u.company_id x.company_id) id
                db.services s h)),
      λ e h.
          find-hidden (λ (x : CompanyEmployee). x.id) (λ x. is_id u.company_id x.company_id)
            (λ x. is_id v.company_id x.company_id) id db.employees e keys.3 h
            (elsewhere e.company_id m y differs (
              find-second (λ (x : CompanyEmployee). x.id) (λ x. is_id u.company_id x.company_id) id
                db.employees e h)),
    )

-- The rows behind an order that a user sees.
record Visible (user : User) (order : Order) (db : Database) : Type 0 where
  pub quote : Quote
  pub request : QuoteRequest
  pub quote_found : quote_by order.quote_id db ≡ some quote
  pub request_found : request_by quote.quote_request_id db ≡ some request
  pub request_seen : get_company_request quote.quote_request_id user db ≡ some request
  pub is_own : is_client_user user.role ≡ true → is_id request.user_id user.id ≡ true

scope-own :
    (user : User) (r : QuoteRequest)
    → is_in_scope user r ≡ true
    → is_client_user user.role ≡ true
    → is_id r.user_id user.id ≡ true
scope-own user r h role = ground (arith, h, role)

-- An order that a user is given comes from a request that the user is given as well; if the user is
-- a `client_user`, it is a request of the user's own.
get_company_order-request :
    (order_id : ℕ) (user : User) (order : Order) (db : Database)
    → get_company_order order_id user db ≡ some order
    → Visible user order db
unfolding get_company_order get_company_request
get_company_order-request order_id user order db h =
    elim (Option-cases (quote_by order.quote_id db)) [
      | inl missing ↦ cc (seen, subst (λ f. scope_of f ≡ false) (sym missing) refl)
      | inr (q, found) ↦ elim (Option-cases (request_by q.quote_request_id db)) [
        | inl missing ↦ cc (
          seen,
          subst (λ f. scope_of f ≡ false) (sym found)
              (subst (λ f. request_scope f ≡ false) (sym missing) refl),
        )
        | inr (r, there) ↦
            let in_scope =
              subst (λ f. request_scope f ≡ true) there
                (subst (λ f. scope_of f ≡ true) found seen) in
            record {
              quote = q;
              request = r;
              quote_found = found;
              request_found = there;
              request_seen =
                  find-with (λ (x : QuoteRequest). x.id) (is_in_scope user) q.quote_request_id
                    db.requests r there in_scope;
              is_own = scope-own user r in_scope;
            }
      ]
    ]
  where
    request_scope : Option QuoteRequest → Bool
    request_scope f = elim f [ none ↦ false | some r ↦ is_in_scope user r ]

    scope_of : Option Quote → Bool
    scope_of f = elim f [ none ↦ false | some q ↦ request_scope (request_by q.quote_request_id db) ]

    seen : scope_of (quote_by order.quote_id db) ≡ true
    seen = find-second (λ (x : Order). x.id) (is_order_in_scope user db) order_id db.orders order h
