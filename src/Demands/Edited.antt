-- ===== src/Demands/Edited.antt =====
-- What the edit of a request leaves behind.
use text.Mathlib.Text.{◌==◌ as str_eq}
use mathlib.Core.Option.{get_or}
use les_traiteurs_engages_v.Base.{
  ◌||◌, Bool, find, is_id, sym, some_inj, Bool-cases, Ensures, List, Option, String, [], ap, arith,
  exists, fetch-Ensures, find-update_first, gets-Ensures, inl, inr, modify_last-Ensures,
  raise_if-Ensures, refl, some, true, update_first, ℕ, ◌&&◌, ◌==◌, ◌∙◌, ◌∷◌, ◌≡◌, ◌⊎◌,
}
use les_traiteurs_engages_v.Demands.{
  RequestForm, apply_form, is_alcoholic, or_null, own_service_id, selected_drinks,
}
use les_traiteurs_engages_v.Demands.Editing.{
  EditError, edited, edited_status, is_editable, request_edit_post,
}
use les_traiteurs_engages_v.Demands.Owned.{own_service_id-own}
use les_traiteurs_engages_v.Models.{
  Database, QuoteRequest, QuoteRequestStatus, User, is_client_user,
}
use les_traiteurs_engages_v.Scoping.{get_company_request, is_in_scope}

-- The one row that is written is the one that is found.
update_first-found :
    {A : Type 0} (t : A → Bool) (f : A → A) (xs : List A) (a : A)
    → find t xs ≡ some a
    → update_first t f xs ≡ update_first t (λ x. f a) xs
unfolding find update_first
update_first-found t f [] a e = cc
update_first-found t f (x ∷ xs) a e = elim (Bool-cases (t x)) [
  | inl y ↦ let same : x ≡ a = some_inj (rw y at e) in rw (y, same) refl
  | inr n ↦ rw n (ap (◌∷◌ x) (update_first-found t f xs a (rw n at e)))
]

module _ (lower : String → String) (parse_uuid : String → Option ℕ) (user : User) (request_id : ℕ)
    (form : RequestForm) (db : Database) where
  abbrev pub service : Option ℕ
  service = own_service_id lower parse_uuid user form.company_service_id db

  -- One request that the user may see, a draft or one that awaits review, gets the form's values; who
  -- it is of, its token and its number stay; and one that awaits review goes on awaiting it.
  pub record Edited (db' : Database) : Type 0 where
    pub before : QuoteRequest
    pub after : QuoteRequest
    pub found : get_company_request request_id user db ≡ some before
    pub editable :
        (before.status ≡ QuoteRequestStatus.draft)
        ⊎ (before.status ≡ QuoteRequestStatus.pending_review)
    pub reread : get_company_request request_id user db' ≡ some after
    pub still_pending :
        before.status ≡ QuoteRequestStatus.pending_review
        → after.status ≡ QuoteRequestStatus.pending_review
    pub same_identity :
        (after.id ≡ before.id)
        × (after.company_id ≡ before.company_id)
        × (after.user_id ≡ before.user_id)
        × (after.submission_token ≡ before.submission_token)
    pub own_service :
        (k : ℕ)
        → after.company_service_id ≡ some k
        → exists (λ s. s.id == k && is_id user.company_id s.company_id) db.services ≡ true
    pub flagged :
        after.drinks_alcohol
        ≡ exists
            (λ d. str_eq d "drinks_bieres" || str_eq d "drinks_vins" || str_eq d "drinks_champagne")
            (get_or after.drinks [])
    pub one_row : db' ≡ record db {
      requests =
          update_first (λ r. r.id == request_id && is_in_scope user r) (λ r. after) db.requests;
    }

  flagged_drinks :
      (r : QuoteRequest)
      → (edited lower parse_uuid form service r).drinks_alcohol
        ≡ exists
            (λ d. str_eq d "drinks_bieres" || str_eq d "drinks_vins" || str_eq d "drinks_champagne")
            (get_or (edited lower parse_uuid form service r).drinks [])
  unfolding edited apply_form is_alcoholic
  flagged_drinks r = null_free (selected_drinks lower parse_uuid form)
    where
      null_free :
          (slugs : List String)
          → exists is_alcoholic slugs
            ≡ exists is_alcoholic (get_or (or_null lower parse_uuid slugs) [])
      null_free [] = refl
      null_free (s ∷ ss) = refl

  edited_columns :
      (r : QuoteRequest)
      → let r' = edited lower parse_uuid form service r in
        ((r'.id ≡ r.id)
          × (r'.company_id ≡ r.company_id)
          × (r'.user_id ≡ r.user_id)
          × (r'.submission_token ≡ r.submission_token))
        × (r'.company_service_id ≡ service)
        × (r'.status ≡ edited_status r.status form.is_compare_mode)
  unfolding edited apply_form
  edited_columns r = ((refl, refl, refl, refl), refl, refl)

  editable_status :
      (s : QuoteRequestStatus)
      → is_editable s ≡ true
      → (s ≡ QuoteRequestStatus.draft) ⊎ (s ≡ QuoteRequestStatus.pending_review)
  editable_status QuoteRequestStatus.draft h = inl refl
  editable_status QuoteRequestStatus.pending_review h = inr refl
  editable_status QuoteRequestStatus.approved h = cc
  editable_status QuoteRequestStatus.sent_to_caterers h = cc
  editable_status QuoteRequestStatus.completed h = cc
  editable_status QuoteRequestStatus.cancelled h = cc
  editable_status QuoteRequestStatus.quotes_refused h = cc

  same_scope :
      (r : QuoteRequest)
      → (edited lower parse_uuid form service r).id == request_id
          && is_in_scope user (edited lower parse_uuid form service r)
        ≡ r.id == request_id && is_in_scope user r
  unfolding edited apply_form
  same_scope r = elim (Bool-cases (is_client_user user.role)) [
    | inl y ↦ rw y refl
    | inr n ↦ rw n refl
  ]

  reread_edited :
      (r : QuoteRequest)
      → get_company_request request_id user db ≡ some r
      → get_company_request request_id user (record db {
        requests =
            update_first
              (λ r. r.id == request_id && is_in_scope user r)
              (edited lower parse_uuid form service)
              db.requests;
      })
        ≡ some (edited lower parse_uuid form service r)
  unfolding get_company_request
  reread_edited r found =
      find-update_first (λ r. r.id == request_id && is_in_scope user r)
        (edited lower parse_uuid form service) db.requests r (λ x e. same_scope x ∙ e) found

  one_row_edited :
      (r : QuoteRequest)
      → get_company_request request_id user db ≡ some r
      → record db {
        requests =
            update_first
              (λ r. r.id == request_id && is_in_scope user r)
              (edited lower parse_uuid form service)
              db.requests;
      }
        ≡ record db {
          requests =
              update_first
                (λ r. r.id == request_id && is_in_scope user r)
                (λ x. edited lower parse_uuid form service r)
                db.requests;
        }
  unfolding get_company_request
  one_row_edited r found =
      ap (λ rs. record db { requests = rs })
        (update_first-found (λ r. r.id == request_id && is_in_scope user r)
          (edited lower parse_uuid form service) db.requests r found)

  -- An edit that is refused changes nothing. One that succeeds is of a request that the user may see
  -- and that is a draft or awaits review; it writes that row alone, the rest of the database staying
  -- as it was: the service is none or one that the table has for the user's company, the flag on
  -- alcohol says whether beer, wine or champagne is on the list of drinks, and the number, the company,
  -- the user and the token stay. A request that awaits review goes on awaiting it.
  pub request_edit_post-Edited :
      Ensures
        (λ e d. d ≡ db)
        (λ u. Edited)
        (request_edit_post lower parse_uuid user request_id form db)
  unfolding request_edit_post
  request_edit_post-Edited =
      let Bad = λ (e : EditError) (d : Database). d ≡ db in
      let Good = λ (u : Unit {0}) (d : Database). Edited d in
      fetch-Ensures Bad Good _ _ _ _ (λ _. refl)
        λ r found.
          raise_if-Ensures Bad Good _ _ _ _ (λ _. refl)
            λ editable.
              raise_if-Ensures Bad Good _ _ _ _ (λ _. refl)
                λ valid. gets-Ensures Bad Good _ _ _ (
                  modify_last-Ensures Bad Good _ _ (
                    let (same, own, status) = edited_columns r in
                    record {
                      before = r;
                      after = edited lower parse_uuid form service r;
                      found = found;
                      editable = editable_status r.status (ground arith);
                      reread = reread_edited r found;
                      still_pending =
                          λ e. status ∙ ap (λ s. edited_status s form.is_compare_mode) e;
                      same_identity = same;
                      own_service = λ k e.
                          own_service_id-own user db lower parse_uuid form.company_service_id k
                            (sym own ∙ e);
                      flagged = flagged_drinks r;
                      one_row = one_row_edited r found;
                    }))
