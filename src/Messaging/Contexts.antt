-- ===== src/Messaging/Contexts.antt =====
-- The context of an order reaches as far as that of the request behind it.
use les_traiteurs_engages_v.Base.{
  Bool, Bool-cases, List, Mem, Option, [], ap, arith, exists, fun_ext, if◌then◌else◌, inl, inr,
  is_id, none, not, refl, select, some, subst, sym, true, ℕ, ◌++◌, ◌==◌, ◌∙◌, ◌∷◌, ◌≡◌,
}
use les_traiteurs_engages_v.Messaging.{
  Parties, all_recipients, allowed_recipients_for, company_side, ids_where, parties_of, solicited,
  user_in_company,
}
use les_traiteurs_engages_v.Models.{
  Database, Order, Quote, QuoteRequest, User, order_by, quote_by, request_by,
}
use les_traiteurs_engages_v.Notifications.{is_one_of}
use les_traiteurs_engages_v.Scoping.{is_same_id}

has-Mem : (ids : List ℕ) (x : ℕ) → Mem x ids → exists (λ i. true) ids ≡ true
unfolding exists
has-Mem [] x m = elim m [ ]
has-Mem (i ∷ ids) x m = refl

-- An identifier that is in a list already adds nothing to the tests on the list.
is_one_of-again :
    (o : Option ℕ) (k : ℕ) (ids : List ℕ) → Mem k ids → is_one_of o (k ∷ ids) ≡ is_one_of o ids
unfolding exists
is_one_of-again o k ids m = elim (Bool-cases (is_id o k)) [
  | inr other ↦ rw other refl
  | inl same ↦ rw same (sym (exists-Mem (λ e. is_id o e) ids k m same))
]
  where
    exists-Mem : (t : ℕ → Bool) (xs : List ℕ) (a : ℕ) → Mem a xs → t a ≡ true → exists t xs ≡ true
    exists-Mem t [] a n h = elim n [ ]
    exists-Mem t (x ∷ xs) a (Mem.head e) h = ground (arith, subst (λ z. t z ≡ true) e h)
    exists-Mem t (x ∷ xs) a (Mem.tail n) h = ground (arith, exists-Mem t xs a n h)

-- The parties with one caterer more, who is among them already.
again : Parties → ℕ → Parties
again p k = record { company_id = p.company_id; caterer_ids = k ∷ p.caterer_ids }

all_recipients-again :
    (user : User) (p : Parties) (k : ℕ) (db : Database)
    → Mem k p.caterer_ids
    → all_recipients user (again p k) db ≡ all_recipients user p db
unfolding again exists
all_recipients-again user p k db m =
    ap
      (λ some_caterer.
        if user_in_company user p
        then (if some_caterer
            then ids_where (λ u. is_one_of u.caterer_id (k ∷ p.caterer_ids)) db
            else [])
          ++ company_side p db
        else if is_one_of user.caterer_id (k ∷ p.caterer_ids)
        then company_side p db ++ ids_where (λ u. is_same_id u.caterer_id user.caterer_id) db
        else [])
      (sym (has-Mem p.caterer_ids k m))
    ∙ ap
        (λ t.
          if user_in_company user p
          then (if exists (λ c. true) p.caterer_ids then ids_where (λ u. t u.caterer_id) db else [])
            ++ company_side p db
          else if t user.caterer_id
          then company_side p db ++ ids_where (λ u. is_same_id u.caterer_id user.caterer_id) db
          else [])
        (fun_ext (λ o. is_one_of-again o k p.caterer_ids m))

-- The recipients allowed in the context of an order are those of the request behind it, every caterer
-- solicited on the request included, and not only the caterer to whom the order went, who is
-- solicited too.
order_context_widens :
    (user : User) (order_id : ℕ) (given : Option ℕ) (order : Order) (quote : Quote)
    (qr : QuoteRequest) (db : Database)
    → order_by order_id db ≡ some order
    → quote_by order.quote_id db ≡ some quote
    → request_by quote.quote_request_id db ≡ some qr
    → Mem quote.caterer_id (solicited quote.quote_request_id db)
    → allowed_recipients_for user (some order_id) given db
      ≡ allowed_recipients_for user none (some quote.quote_request_id) db
unfolding allowed_recipients_for again parties_of
order_context_widens user order_id given order quote qr db o q r m =
    ap allowed (from_order o q r)
    ∙ ap (select (λ i. not (i == user.id)))
        (all_recipients-again user of_request quote.caterer_id db m)
    ∙ ap allowed (sym (from_request r))
  where
    of_request : Parties
    of_request = record {
      company_id = some qr.company_id;
      caterer_ids = solicited quote.quote_request_id db;
    }

    allowed : Option Parties → List ℕ
    allowed f = elim f [
      | none ↦ []
      | some p ↦ select (λ i. not (i == user.id)) (all_recipients user p db)
    ]

    from_request :
        request_by quote.quote_request_id db ≡ some qr
        → parties_of none (some quote.quote_request_id) db ≡ some of_request
    from_request h = ground (arith, h)

    from_order :
        order_by order_id db ≡ some order
        → quote_by order.quote_id db ≡ some quote
        → request_by quote.quote_request_id db ≡ some qr
        → parties_of (some order_id) given db ≡ some (again of_request quote.caterer_id)
    from_order a b e = ground (arith, a, b, e)
