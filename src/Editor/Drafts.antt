-- ===== src/Editor/Drafts.antt =====
-- What the editor does to the quotes of a caterer.
use les_traiteurs_engages_v.Base.{
  ==_iff, Ensures, List, Result, String, [], arith, count, false, fetch-Ensures, find, find-holds,
  gets-Ensures, inl, inr, is_some, modify-Ensures, none, ok, raise, raise_if-Ensures, refl,
  return-Ensures, some, subst, sym, true, ℕ, ◌==◌, ◌∷◌, ◌≡◌, ◌≤◌,
}
use les_traiteurs_engages_v.Editor.{
  EditorButton, EditorReply, QuoteForm, after_submission, answered, create_draft, draft_and_pdf,
  existing_draft, insert_quote, is_draft_of, is_own_quote, new_quote, quote_create, quote_send,
  quote_update, request_reject, revise, revise_quote, update_draft,
}
use les_traiteurs_engages_v.Editor.Kept.{Kept, Kept-refl, Kept-trans, append-Kept, update-Kept}
use les_traiteurs_engages_v.Editor.Posts.{
  EditorAction, create, decline, edit, edits, send_draft, update,
}
use les_traiteurs_engages_v.Models.{
  Caterer, Database, Quote, QuoteRequest, QuoteStatus, is_draft, request_by,
}
use les_traiteurs_engages_v.Notifications.Frame.{OnlyNotifies-SameRows}
use les_traiteurs_engages_v.Pricing.Lines.{Line}
use les_traiteurs_engages_v.Scoping.{get_caterer_quote}
use les_traiteurs_engages_v.Workflow.Errors.{
  WorkflowError, quote_not_found, quote_request_closed, quote_request_not_open,
}
use les_traiteurs_engages_v.Workflow.Submission.{
  is_submittable, submit_quote, transmit_quote, transmitted_on,
}
use les_traiteurs_engages_v.Workflow.Submission.Bounds.{heal_rest}
use les_traiteurs_engages_v.Workflow.Submission.Branches.{
  Refused, Transmitted, submit_quote-Ensures,
}

submitted_draft :
    (request_id quote_id caterer_id : ℕ) (o : Quote) (qs : List Quote)
    → find (is_submittable request_id quote_id caterer_id) qs ≡ some o
    → is_draft o.status ≡ true
submitted_draft request_id quote_id caterer_id o qs h =
    let holds = find-holds (is_submittable request_id quote_id caterer_id) qs o h in ground arith

module _ (one : ℕ) (round : ℕ → ℕ → ℕ) (year_of : ℕ → ℕ) (now year : ℕ) (caterer : Caterer) where
  abbrev Keeps : Database → Database → Type 0
  Keeps db d = Kept db.quotes d.quotes

  sent_draft :
      (qr_id quote_id : ℕ) (db d : Database) (q : Quote)
      → Transmitted now qr_id quote_id caterer db q d
      → Keeps db d
  unfolding transmit_quote
  sent_draft qr_id quote_id db d q (_, _, _, (o, found, _), _, frame) =
      rw
        (OnlyNotifies-SameRows
          (transmit_quote now qr_id quote_id caterer.id (transmitted_on qr_id db) db) d
          frame).quotes
        (update-Kept (is_submittable qr_id quote_id caterer.id)
          (λ q. record q { status = QuoteStatus.sent }) (λ q. refl) o db.quotes found
          (submitted_draft qr_id quote_id caterer.id o db.quotes found) (λ r c q h. ground arith))

  unsent_draft :
      (qr_id quote_id : ℕ) (db d : Database) (e : WorkflowError)
      → Refused now qr_id quote_id caterer db e d
      → Keeps db d
  unsent_draft qr_id quote_id db d e (inl same) = rw same (Kept-refl db.quotes)
  unsent_draft qr_id quote_id db d e (inr (_, _, healed)) =
      rw (healed, (heal_rest qr_id caterer.id (transmitted_on qr_id db) db).0) (Kept-refl db.quotes)

  answer-Keeps :
      (qr_id quote_id : ℕ) (db : Database) (r : Result WorkflowError Quote × Database)
      → Ensures
          (Refused now qr_id quote_id caterer db)
          (Transmitted now qr_id quote_id caterer db)
          r
      → Keeps db (after_submission one round year_of now year caterer db r).1
  answer-Keeps qr_id quote_id db (ok q, d) h = sent_draft qr_id quote_id db d q h
  answer-Keeps qr_id quote_id db (raise quote_request_closed, d) h =
      unsent_draft qr_id quote_id db d _ h
  answer-Keeps qr_id quote_id db (raise quote_request_not_open, d) h =
      unsent_draft qr_id quote_id db d _ h
  answer-Keeps qr_id quote_id db (raise quote_not_found, d) h = Kept-refl db.quotes
  answer-Keeps qr_id quote_id db (raise _, d) h = Kept-refl db.quotes

  send-Keeps :
      (qr_id quote_id : ℕ) (db : Database)
      → Keeps db (quote_send one round year_of now year caterer qr_id quote_id db).1
  unfolding quote_send
  send-Keeps qr_id quote_id db =
      answer-Keeps qr_id quote_id db (submit_quote now qr_id quote_id caterer db)
        (submit_quote-Ensures now qr_id quote_id caterer db)

  save-Keeps :
      (button : EditorButton) (qr_id : ℕ) (db : Database) (r : Result EditorReply ℕ × Database)
      → Ensures (λ e d. Unit {0}) (λ id. Keeps db) r
      → Keeps db (answered one round year_of now year caterer button qr_id db r).1
  save-Keeps button qr_id db (raise reply, d) h = Kept-refl db.quotes
  save-Keeps EditorButton.send qr_id db (ok id, d) h =
      Kept-trans db.quotes d.quotes _ h (send-Keeps qr_id id d)
  save-Keeps draft_and_pdf qr_id db (ok id, d) h = h
  save-Keeps EditorButton.draft qr_id db (ok id, d) h = h

  inserted-Keeps :
      (qr_id id : ℕ) (qr : QuoteRequest) (reference : String) (form : QuoteForm) (lines : List Line)
      (db : Database)
      → request_by qr_id db ≡ some qr
      → is_some (existing_draft qr_id caterer.id db) ≡ false
      → Keeps db (
          insert_quote one round
            (new_quote one round now reference caterer qr form lines id)
            lines
            db)
  unfolding insert_quote new_quote
  inserted-Keeps qr_id id qr reference form lines db found free =
      let same : qr.id ≡ qr_id =
        (==_iff _ _).0 (find-holds (λ r. r.id == qr_id) db.requests qr found) in
      append-Kept _ db.quotes (
        subst (λ i. find (is_draft_of i caterer.id) db.quotes ≡ none) (sym same)
          (ground (arith, free)))

  create-Keeps :
      (qr_id : ℕ) (form : QuoteForm) (db : Database)
      → Ensures
          (λ e d. Unit {0})
          (λ id. Keeps db)
          (create_draft one round year_of now year caterer qr_id form db)
  unfolding create_draft
  create-Keeps qr_id form db =
      let Bad = λ (e : EditorReply) (d : Database). Unit {0} in
      let Good = λ (id : ℕ) (d : Database). Keeps db d in
      fetch-Ensures Bad Good _ _ _ _ (λ _. tt)
        λ qrc _.
          fetch-Ensures Bad Good _ _ _ _ (λ _. tt)
            λ qr found. gets-Ensures Bad Good _ _ _ (
              raise_if-Ensures Bad Good _ _ _ _ (λ _. tt)
                λ free.
                  raise_if-Ensures Bad Good _ _ _ _ (λ _. tt)
                    λ valid.
                      fetch-Ensures Bad Good _ _ _ _ (λ _. tt)
                        λ lines _. gets-Ensures Bad Good _ _ _ (
                          gets-Ensures Bad Good _ _ _ (
                            raise_if-Ensures Bad Good _ _ _ _ (λ _. tt)
                              λ new. gets-Ensures Bad Good _ _ _ (
                                modify-Ensures Bad Good _ _ _ (
                                  return-Ensures Bad Good _ _
                                    (inserted-Keeps qr_id _ qr _ form lines db found free))))))

  revised-Keeps :
      (qr_id quote_id : ℕ) (qr : QuoteRequest) (quote : Quote) (form : QuoteForm)
      (lines : List Line) (db : Database)
      → get_caterer_quote qr_id quote_id caterer.id db ≡ some quote
      → is_draft quote.status ≡ true
      → Keeps db (revise_quote one round year_of now year caterer qr_id quote_id qr form lines db)
  unfolding revise_quote revise get_caterer_quote
  revised-Keeps qr_id quote_id qr quote form lines db found draft =
      update-Kept (is_own_quote one round year_of now year caterer qr_id quote_id)
        (revise one round year_of now year caterer qr form lines) (λ q. refl) quote db.quotes found
        draft (λ r c q h. h)

  update-Keeps :
      (qr_id quote_id : ℕ) (form : QuoteForm) (db : Database)
      → Ensures
          (λ e d. Unit {0})
          (λ id. Keeps db)
          (update_draft one round year_of now year caterer qr_id quote_id form db)
  unfolding update_draft
  update-Keeps qr_id quote_id form db =
      let Bad = λ (e : EditorReply) (d : Database). Unit {0} in
      let Good = λ (id : ℕ) (d : Database). Keeps db d in
      fetch-Ensures Bad Good _ _ _ _ (λ _. tt)
        λ quote found.
          raise_if-Ensures Bad Good _ _ _ _ (λ _. tt)
            λ draft.
              fetch-Ensures Bad Good _ _ _ _ (λ _. tt)
                λ qr _.
                  fetch-Ensures Bad Good _ _ _ _ (λ _. tt)
                    λ qrc _.
                      raise_if-Ensures Bad Good _ _ _ _ (λ _. tt)
                        λ valid.
                          fetch-Ensures Bad Good _ _ _ _ (λ _. tt)
                            λ lines _. modify-Ensures Bad Good _ _ _ (
                              return-Ensures Bad Good _ _ (
                                revised-Keeps qr_id quote_id qr quote form lines db found
                                  (ground arith)))

  reject_quotes :
      (qr_id : ℕ) (db : Database)
      → (request_reject one round year_of now year caterer qr_id db).1.quotes ≡ db.quotes
  unfolding request_reject
  reject_quotes qr_id db = ground arith

  reject-Keeps :
      (qr_id : ℕ) (db : Database)
      → Keeps db (request_reject one round year_of now year caterer qr_id db).1
  reject-Keeps qr_id db = rw (reject_quotes qr_id db) (Kept-refl db.quotes)

module _ (one : ℕ) (round : ℕ → ℕ → ℕ) (year_of : ℕ → ℕ) where
  edit-Kept :
      (a : EditorAction) (db : Database) → Kept db.quotes (edit one round year_of a db).1.quotes
  unfolding edit quote_create quote_update
  edit-Kept (create now year caterer qr_id form) db =
      save-Keeps one round year_of now year caterer form.action qr_id db _
        (create-Keeps one round year_of now year caterer qr_id form db)
  edit-Kept (update now year caterer qr_id quote_id form) db =
      save-Keeps one round year_of now year caterer form.action qr_id db _
        (update-Keeps one round year_of now year caterer qr_id quote_id form db)
  edit-Kept (send_draft now year caterer qr_id quote_id) db =
      send-Keeps one round year_of now year caterer qr_id quote_id db
  edit-Kept (decline now year caterer qr_id) db =
      reject-Keeps one round year_of now year caterer qr_id db

  edits-Kept :
      (posts : List EditorAction) (db : Database)
      → Kept db.quotes (edits one round year_of posts db).quotes
  unfolding edits
  edits-Kept [] db = Kept-refl db.quotes
  edits-Kept (a ∷ rest) db =
      let next = (edit one round year_of a db).1 in
      Kept-trans db.quotes next.quotes _ (edit-Kept a db) (edits-Kept rest next)

  -- A quote that is no draft any more is as it was after any sequence of posts of the editor, by
  -- whatever caterers: it is neither revised, nor sent again, nor hidden behind another row.
  pub edits_freeze :
      (posts : List EditorAction) (db : Database) (id : ℕ) (q : Quote)
      → find (λ q. q.id == id) db.quotes ≡ some q
      → is_draft q.status ≡ false
      → find (λ q. q.id == id) (edits one round year_of posts db).quotes ≡ some q
  edits_freeze posts db id q found sent = (edits-Kept posts db).frozen id q found sent

  -- Where a caterer has at most one draft on a request, this is still so after any sequence of posts of
  -- the editor, by whatever caterers.
  pub edits_one_draft :
      (posts : List EditorAction) (db : Database) (request_id caterer_id : ℕ)
      → count (is_draft_of request_id caterer_id) db.quotes ≤ 1
      → count (is_draft_of request_id caterer_id) (edits one round year_of posts db).quotes ≤ 1
  edits_one_draft posts db request_id caterer_id h =
      (edits-Kept posts db).one_draft request_id caterer_id h
