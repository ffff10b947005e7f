-- ===== src/Demands/Routed.antt =====
-- Where a demand that the wizard posts ends up.
use text.Mathlib.Text.{◌==◌ as str_eq}
use les_traiteurs_engages_v.Base.{
  exists, find, is_id, is_empty, text_or, strip, ◌&&◌, ◌==◌, ◌∙◌, Bool, Bool-cases, Ensures, Option,
  String, [], arith, false, fetch-Ensures, gets-Ensures, inl, inr, modify-Ensures, none,
  raise_if-Ensures, refl, return-Ensures, some, true, ℕ, ◌++◌, ◌+◌, ◌∷◌, ◌≡◌,
}
use les_traiteurs_engages_v.Demands.{
  own_service_id, DemandError, RequestForm, add_request, apply_form, clean_token, demand_status,
  existing_submission, insert_demand, is_pending_review, is_token_taken, new_request,
  qualify_notice, requests_new_post, resolve_target_caterer, route_demand, selected_qrc,
  validate_meal_type,
}
use les_traiteurs_engages_v.Demands.Targets.{meal_of_target, resolved_target, target_named}
use les_traiteurs_engages_v.Demands.Owned.{own_service_id-own}
use les_traiteurs_engages_v.Models.{Caterer, Database, QuoteRequest, QuoteRequestStatus, User}
use les_traiteurs_engages_v.Notifications.{
  is_text, caterer_user_ids, notes_from, notify_users, super_admin_user_ids,
}
use les_traiteurs_engages_v.Workflow.Approval.{received_notice}

-- What follows the insertion of the row `qr` at the state `db`, with the target that the form names
-- and the mode that it asks for.
abbrev Route : Option Caterer → Bool → Database → QuoteRequest → Database → Type 0
Route (some c) compare db qr db' =
    (qr.status ≡ QuoteRequestStatus.sent_to_caterers)
    × (qr.is_compare_mode ≡ false)
    × ((k : ℕ) × (db'.qrcs ≡ db.qrcs ++ selected_qrc k qr.id c.id ∷ []))
    × ((k : ℕ) × (db'.notifications
          ≡ db.notifications
            ++ notes_from db.uuid4 k [] (caterer_user_ids (some c.id) db) (received_notice qr)))
Route none true db qr db' =
    (qr.status ≡ QuoteRequestStatus.pending_review)
    × (qr.is_compare_mode ≡ true)
    × (db'.qrcs ≡ db.qrcs)
    × ((k : ℕ) × (db'.notifications
          ≡ db.notifications
            ++ notes_from db.uuid4 k [] (super_admin_user_ids db) (qualify_notice qr)))
Route none false db qr db' =
    (qr.status ≡ QuoteRequestStatus.sent_to_caterers)
    × (qr.is_compare_mode ≡ false)
    × (db'.qrcs ≡ db.qrcs)
    × (db'.notifications ≡ db.notifications)

module _ (lower : String → String) (parse_uuid : String → Option ℕ) (user : User)
    (form : RequestForm) (db : Database) where
  abbrev pub target : Option Caterer
  target = resolve_target_caterer lower parse_uuid form.target_caterer_id db

  abbrev pub token : Option String
  token = clean_token lower parse_uuid form.form_token

  abbrev pub inserted : ℕ → QuoteRequest
  inserted company = new_request lower parse_uuid user form company target db

  -- A post that creates a request: nobody of the company has sent the token and no request has it; the
  -- fields are valid and the meal is one that the target offers; one row is appended, of the company
  -- and the user, and it is routed.
  pub record Routed (id : ℕ) (db' : Database) : Type 0 where
    pub company : ℕ
    pub of_company : user.company_id ≡ some company
    pub fresh : existing_submission token user.company_id db ≡ none
    pub free : is_token_taken token db ≡ false
    pub valid : form.fields_valid ≡ true
    pub offered : validate_meal_type target form.meal_type ≡ true
    pub requests : db'.requests ≡ db.requests ++ inserted company ∷ []
    pub owner :
        ((inserted company).company_id ≡ company) × ((inserted company).user_id ≡ some user.id)
    pub identified : (inserted company).id ≡ id
    pub tokened : (inserted company).submission_token ≡ token
    pub offers_meal :
        (c : Caterer) (meal : String)
        → target ≡ some c
        → form.meal_type ≡ some meal
        → is_empty meal ≡ false
        → exists (λ o. str_eq o meal) c.service_offerings ≡ true
    pub new_token :
        (t : String)
        → token ≡ some t
        → exists (λ r. is_text r.submission_token t) db.requests ≡ false
    pub resolved :
        (i : ℕ)
        → is_empty (strip (text_or form.target_caterer_id "")) ≡ false
        → parse_uuid (strip (text_or form.target_caterer_id "")) ≡ some i
        → target ≡ find (λ c. c.id == i && c.is_validated) db.caterers
    pub named :
        (c : Caterer)
        → target ≡ some c
        → parse_uuid (strip (text_or form.target_caterer_id "")) ≡ some c.id
    pub validated :
        (c : Caterer)
        → target ≡ some c
        → (find (λ d. d.id == c.id && d.is_validated) db.caterers ≡ some c)
          × (c.is_validated ≡ true)
    pub own_service :
        (k : ℕ)
        → (inserted company).company_service_id ≡ some k
        → exists (λ s. s.id == k && is_id user.company_id s.company_id) db.services ≡ true
    pub route : Route target form.is_compare_mode db (inserted company) db'

  routed_requests :
      (t : Option Caterer) (qr : QuoteRequest)
      → (route_demand t qr (add_request qr db)).requests ≡ db.requests ++ qr ∷ []
  unfolding route_demand notify_users
  routed_requests (some c) qr = refl
  routed_requests none qr = elim (Bool-cases (is_pending_review qr.status)) [
    | inl y ↦ rw y refl
    | inr n ↦ rw n refl
  ]

  route_demand-Route :
      (t : Option Caterer) (b : Bool) (qr : QuoteRequest)
      → qr.status ≡ demand_status t b
      → qr.is_compare_mode ≡ elim t [ some c ↦ false | none ↦ b ]
      → Route t b db qr (route_demand t qr (add_request qr db))
  unfolding route_demand notify_users caterer_user_ids super_admin_user_ids
  route_demand-Route (some c) b qr s m = (s, m, (_, refl), (_, refl))
  route_demand-Route none true qr s m = (s, m, rw s refl, (db.drawn + 1, rw s refl))
  route_demand-Route none false qr s m = (s, m, rw s refl, rw s refl)

  inserted_mode :
      (company : ℕ) (t : Option Caterer)
      → (new_request lower parse_uuid user form company t db).is_compare_mode
        ≡ elim t [ some c ↦ false | none ↦ form.is_compare_mode ]
  unfolding new_request
  inserted_mode company (some c) = refl
  inserted_mode company none = refl

  new_request_columns :
      (company : ℕ)
      → ((inserted company).company_id ≡ company)
        × ((inserted company).user_id ≡ some user.id)
        × ((inserted company).id ≡ db.uuid4 db.drawn)
        × ((inserted company).submission_token ≡ token)
        × ((inserted company).status ≡ demand_status target form.is_compare_mode)
        × (own_service_id lower parse_uuid user form.company_service_id db
            ≡ (inserted company).company_service_id)
  unfolding new_request apply_form
  new_request_columns company = (refl, refl, refl, refl, refl, refl)

  -- A post of the wizard that does not create a request changes nothing. One that does is the first
  -- with its token, has valid fields and a meal that its target offers, and appends one request of the
  -- user and the user's company, whose service, if it has one, is one of that company. The target, if
  -- there is one, is the caterer of the table that the form names, and it is validated: the request is
  -- sent to that caterer alone, who gets a waiting row and whose users are told. Without a target but
  -- in compare mode it awaits review, and the administrators are told; else it is marked as sent to
  -- caterers although no caterer has a row and nobody is told.
  pub requests_new_post-Routed :
      Ensures (λ e d. d ≡ db) Routed (requests_new_post lower parse_uuid user form db)
  unfolding requests_new_post insert_demand
  requests_new_post-Routed =
      let Bad = λ (e : DemandError) (d : Database). d ≡ db in
      gets-Ensures Bad Routed _ _ _ (
        raise_if-Ensures Bad Routed _ _ _ _ (λ _. refl)
          λ unsent. gets-Ensures Bad Routed _ _ _ (
            raise_if-Ensures Bad Routed _ _ _ _ (λ _. refl)
              λ ok_form. gets-Ensures Bad Routed _ _ _ (
                gets-Ensures Bad Routed _ _ _ (
                  raise_if-Ensures Bad Routed _ _ _ _ (λ _. refl)
                    λ free.
                      fetch-Ensures Bad Routed _ _ _ _ (λ _. refl)
                        λ company own. gets-Ensures Bad Routed _ _ _ (
                          modify-Ensures Bad Routed _ _ _ (
                            modify-Ensures Bad Routed _ _ _ (
                              return-Ensures Bad Routed _ _ (
                                let (c1, c2, c3, c4, c5, c6) = new_request_columns company in
                                record {
                                  company = company;
                                  of_company = own;
                                  fresh = ground (arith, unsent);
                                  free = free;
                                  valid = ground (arith, ok_form);
                                  offered = ground (arith, ok_form);
                                  requests = routed_requests target (inserted company);
                                  owner = (c1, c2);
                                  identified = refl;
                                  tokened = c4;
                                  offers_meal = λ c meal.
                                      meal_of_target target form.meal_type c meal
                                        (ground (arith, ok_form));
                                  new_token = λ t e. rw e at free;
                                  resolved = resolved_target lower parse_uuid form db;
                                  named = λ c e. (target_named lower parse_uuid form db c e).0;
                                  validated = λ c e.
                                      let (n, f, v) = target_named lower parse_uuid form db c e in
                                      (f, v);
                                  own_service = λ k e.
                                      own_service_id-own user db lower parse_uuid
                                        form.company_service_id k (c6 ∙ e);
                                  route =
                                      route_demand-Route target form.is_compare_mode
                                        (inserted company) c5 (inserted_mode company target);
                                }))))))))
