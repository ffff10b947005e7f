-- ===== src/Workflow/Submission/Branches.antt =====
-- Every way in which `submit_quote` can end.
use les_traiteurs_engages_v.Base.{
  Ensures, Option, arith, false, fetch-Ensures, find, gets-Ensures, inl, inr, leb, modify-Ensures,
  raise_if-Ensures, refl, return-Ensures, some, ℕ, ◌<◌, ◌==◌, ◌≡◌, ◌≢◌, ◌≤◌, ◌⊎◌,
}
use les_traiteurs_engages_v.Models.{
  Caterer, Database, QrcStatus, Quote, QuoteRequest, QuoteRequestCaterer, QuoteRequestStatus,
  QuoteStatus,
}
use les_traiteurs_engages_v.Notifications.{Notice}
use les_traiteurs_engages_v.Notifications.Frame.{OnlyNotifies}
use les_traiteurs_engages_v.Workflow.Errors.{WorkflowError, quote_request_closed}
use les_traiteurs_engages_v.Workflow.Refusal.{notify_requester, notify_requester-OnlyNotifies}
use les_traiteurs_engages_v.Workflow.Submission.{
  heal, is_qrc_of, is_submittable, received_quote_notice, send, submit_quote, transmit_quote,
  transmitted_on,
}

module _ (now request_id quote_id : ℕ) (caterer : Caterer) (db : Database) where
  abbrev pub Refused : WorkflowError → Database → Type 0
  Refused e db' =
      (db' ≡ db)
      ⊎ ((e ≡ quote_request_closed)
          × (3 ≤ transmitted_on request_id db)
          × (db' ≡ heal request_id caterer.id (transmitted_on request_id db) db))

  abbrev pub Transmitted : Quote → Database → Type 0
  Transmitted q db' =
      (transmitted_on request_id db < 3)
      × (q.status ≡ QuoteStatus.sent)
      × ((r : QuoteRequest) × (find (λ r. r.id == request_id) db.requests ≡ some r)
          × (r.status ≡ QuoteRequestStatus.sent_to_caterers))
      × ((o : Quote) × (find (is_submittable request_id quote_id caterer.id) db.quotes ≡ some o)
          × (q ≡ send o))
      × ((c : QuoteRequestCaterer) × (find (is_qrc_of request_id caterer.id) db.qrcs ≡ some c)
          × (c.status ≢ QrcStatus.closed))
      × OnlyNotifies
          (transmit_quote now request_id quote_id caterer.id (transmitted_on request_id db) db) db'

  -- Where there is room, the healing step does nothing, and a notification is all that follows.
  notified_in_room :
      (t : ℕ) (u : Option ℕ) (n : Notice)
      → leb 3 t ≡ false
      → OnlyNotifies (transmit_quote now request_id quote_id caterer.id t db) (
          notify_requester u n
            (transmit_quote now request_id quote_id caterer.id t (heal request_id caterer.id t db)))
  unfolding heal
  notified_in_room t u n h =
      rw (h)
        (notify_requester-OnlyNotifies u n (transmit_quote now request_id quote_id caterer.id t db))

  -- The ways in which `submit_quote` ends, by the writes of `heal` and of `transmit_quote`.
  pub submit_quote-Ensures :
      Ensures Refused Transmitted (submit_quote now request_id quote_id caterer db)
  unfolding submit_quote
  submit_quote-Ensures =
      fetch-Ensures Refused Transmitted _ _ _ _ (λ _. inl refl)
        λ qr has_request.
          raise_if-Ensures Refused Transmitted _ _ _ _ (λ _. inl refl)
            λ is_open.
              fetch-Ensures Refused Transmitted _ _ _ _ (λ _. inl refl)
                λ quote has_quote.
                  fetch-Ensures Refused Transmitted _ _ _ _ (λ _. inl refl)
                    λ qrc has_qrc.
                      raise_if-Ensures Refused Transmitted _ _ _ _ (λ _. inl refl)
                        λ not_closed. gets-Ensures Refused Transmitted _ _ _ (
                          modify-Ensures Refused Transmitted _ _ _ (
                            raise_if-Ensures Refused Transmitted _ _ _ _
                              (λ full. inr (refl, ground arith, refl))
                              λ room. modify-Ensures Refused Transmitted _ _ _ (
                                modify-Ensures Refused Transmitted _ _ _ (
                                  return-Ensures Refused Transmitted _ _ (
                                    ground arith,
                                    refl,
                                    (qr, has_request, ground arith),
                                    (quote, has_quote, refl),
                                    (qrc, has_qrc, ground arith),
                                    notified_in_room _ qr.user_id
                                        (received_quote_notice caterer quote) room,
                                  )))))
