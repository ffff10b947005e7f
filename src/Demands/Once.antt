-- ===== src/Demands/Once.antt =====
-- A token makes one request.
use les_traiteurs_engages_v.Base.{
  ==_refl, Ensures, List, Option, String, [], ap, arith, find, find-append_none, gets-then, is_some,
  none, ok, raise, raise_if-true, some, str_eq_refl, subst, sym, ℕ, ◌++◌, ◌∙◌, ◌∷◌, ◌≡◌,
}
use les_traiteurs_engages_v.Demands.{
  RequestForm, already_sent, clean_token, existing_submission, invalid_form, is_submission,
  requests_new_post,
}
use les_traiteurs_engages_v.Demands.Routed.{Routed, inserted, requests_new_post-Routed}
use les_traiteurs_engages_v.Models.{Database, QuoteRequest, User}

module _ (lower : String → String) (parse_uuid : String → Option ℕ) where
  -- The row that a token has made is found by it.
  created_found :
      (token : String) (user : Option ℕ) (company : ℕ) (rs : List QuoteRequest) (qr : QuoteRequest)
      → user ≡ some company
      → find (is_submission token user) rs ≡ none
      → qr.submission_token ≡ some token
      → qr.company_id ≡ company
      → find (is_submission token user) (rs ++ qr ∷ []) ≡ some qr
  unfolding find
  created_found token user company rs qr own none_yet tokened owner =
      find-append_none (is_submission token user) rs (qr ∷ []) none_yet
      ∙ ground (arith, own, tokened, owner, str_eq_refl token, ==_refl company)

  refused_again :
      (user : User) (form : RequestForm) (db : Database) (qr : QuoteRequest)
      → existing_submission (clean_token lower parse_uuid form.form_token) user.company_id db
        ≡ some qr
      → requests_new_post lower parse_uuid user form db ≡ (raise (already_sent qr.id), db)
  unfolding requests_new_post
  refused_again user form db qr h = gets-then _ _ db (
      raise_if-true _ _ _ db (ap is_some h)
      ∙ ap
          (λ (o : Option QuoteRequest).
            (raise (elim o [ none ↦ invalid_form | some r ↦ already_sent r.id ]), db))
          h)

  -- Once a post with a token has created a request, any post of the same company with that token,
  -- whatever else is in it, is answered by the redirect to that request and changes nothing.
  pub requests_new_post_once :
      (user other : User) (form again : RequestForm) (db db' : Database) (id : ℕ) (token : String)
      → requests_new_post lower parse_uuid user form db ≡ (ok id, db')
      → clean_token lower parse_uuid form.form_token ≡ some token
      → other.company_id ≡ user.company_id
      → clean_token lower parse_uuid again.form_token ≡ some token
      → requests_new_post lower parse_uuid other again db' ≡ (raise (already_sent id), db')
  requests_new_post_once user other form again db db' id token posted first same second =
      let made : Routed lower parse_uuid user form db id db' =
        subst (Ensures (λ e d. d ≡ db) (Routed lower parse_uuid user form db)) posted
          (requests_new_post-Routed lower parse_uuid user form db) in
      let qr = inserted lower parse_uuid user form db made.company in
      let there : existing_submission (some token) user.company_id db' ≡ some qr =
        rw made.requests (
          created_found token user.company_id made.company db.requests qr made.of_company
            (subst (λ t. existing_submission t user.company_id db ≡ none) first made.fresh)
            (made.tokened ∙ first) made.owner.0) in
      refused_again other again db' qr (
        subst
          (λ c. existing_submission (clean_token lower parse_uuid again.form_token) c db' ≡ some qr)
          (sym same)
          (subst (λ t. existing_submission t user.company_id db' ≡ some qr) (sym second) there))
      ∙ ap (λ i. (raise (already_sent i), db')) made.identified
