-- ===== src/Workflow/Submission/Outcomes.antt =====
-- What a submission writes, written out.
use les_traiteurs_engages_v.Base.{
  Ensures, Ensures-map, ap, arith, count, find, inl, inr, leb, not, refl, sym, some, true,
  update_first, update_where, ℕ, ◌&&◌, ◌+◌, ◌<◌, ◌==◌, ◌∙◌, ◌≡◌, ◌≢◌, ◌≤◌, ◌⊎◌, List, Bool,
}
use les_traiteurs_engages_v.Models.{
  Caterer, Database, QrcStatus, Quote, QuoteRequest, QuoteRequestCaterer, QuoteRequestStatus,
  QuoteStatus, is_draft, is_selected, is_transmitted,
}
use les_traiteurs_engages_v.Notifications.Frame.{OnlyNotifies-SameRows}
use les_traiteurs_engages_v.Workflow.Errors.{WorkflowError, quote_request_closed}
use les_traiteurs_engages_v.Workflow.Submission.{
  close_remaining, heal, submit_quote, transmit_quote, transmitted_on,
}
use les_traiteurs_engages_v.Workflow.Submission.Branches.{Transmitted, submit_quote-Ensures}

module _ (now request_id quote_id : ℕ) (caterer : Caterer) (db : Database) where
  -- The rows of the request whose caterer has had a quote transmitted.
  abbrev pub answers : ℕ
  answers = count (λ c. c.quote_request_id == request_id && is_transmitted c.status) db.qrcs

  -- The caterer's row on the request, and the rows that wait for the others.
  abbrev pub is_own_row : QuoteRequestCaterer → Bool
  is_own_row c = c.quote_request_id == request_id && c.caterer_id == caterer.id

  abbrev pub is_waiting_row : QuoteRequestCaterer → Bool
  is_waiting_row c =
      c.quote_request_id == request_id && is_selected c.status && not (c.caterer_id == caterer.id)

  abbrev pub is_own_draft : Quote → Bool
  is_own_draft q =
      q.id == quote_id
      && q.caterer_id == caterer.id
      && q.quote_request_id == request_id
      && is_draft q.status

  -- The rows once the caterer's own is transmitted, with its rank.
  abbrev pub marked : List QuoteRequestCaterer
  marked =
      update_first is_own_row
        (λ c. record c {
          responded_at = some now;
          status = QrcStatus.transmitted_to_client;
          response_rank = some (answers + 1);
        })
        db.qrcs

  -- Nothing is written, or the caterer's own row is closed because three have answered.
  abbrev pub NotSent : WorkflowError → Database → Type 0
  NotSent e db' =
      (db' ≡ db)
      ⊎ ((e ≡ quote_request_closed)
          × (3 ≤ answers)
          × (db' ≡ record db {
            qrcs = update_first is_own_row (λ c. record c { status = QrcStatus.closed }) db.qrcs;
          }))

  -- The draft that is sent, and all that is written but notifications.
  pub record IsSent (q : Quote) (db' : Database) : Type 0 where
    pub room : answers < 3
    pub request : QuoteRequest
    pub has_request : find (λ r. r.id == request_id) db.requests ≡ some request
    pub is_open : request.status ≡ QuoteRequestStatus.sent_to_caterers
    pub draft : Quote
    pub has_draft : find is_own_draft db.quotes ≡ some draft
    pub row : QuoteRequestCaterer
    pub has_row : find is_own_row db.qrcs ≡ some row
    pub row_not_closed : row.status ≢ QrcStatus.closed
    pub result : q ≡ record draft { status = QuoteStatus.sent }
    pub quotes :
        db'.quotes
        ≡ update_first is_own_draft (λ q. record q { status = QuoteStatus.sent }) db.quotes
    pub before_third : answers + 1 ≢ 3 → db'.qrcs ≡ marked
    pub third :
        answers + 1 ≡ 3
        → db'.qrcs
          ≡ update_where is_waiting_row (λ c. record c { status = QrcStatus.closed }) marked
    pub rest : db' ≡ record db {
      quotes = db'.quotes;
      qrcs = db'.qrcs;
      notifications = db'.notifications;
      drawn = db'.drawn;
    }

  healed :
      3 ≤ answers
      → heal request_id caterer.id (transmitted_on request_id db) db ≡ record db {
        qrcs = update_first is_own_row (λ c. record c { status = QrcStatus.closed }) db.qrcs;
      }
  unfolding heal
  healed full = let y : leb 3 answers ≡ true = ground arith in rw y refl

  sent :
      (q : Quote) (db' : Database)
      → Transmitted now request_id quote_id caterer db q db'
      → IsSent q db'
  unfolding transmit_quote close_remaining
  sent q db'
        (room, is_sent, (r, has_r, is_open), (o, has_o, result), (c, has_c, not_closed), written) =
      let transmitted = transmit_quote now request_id quote_id caterer.id answers db in
      let same = OnlyNotifies-SameRows transmitted db' written in
      record {
        room = room;
        request = r;
        has_request = has_r;
        is_open = is_open;
        draft = o;
        has_draft = has_o;
        row = c;
        has_row = has_c;
        row_not_closed = not_closed;
        result = result;
        quotes = same.quotes;
        before_third = λ ne. same.qrcs ∙ ground arith;
        third = λ e. same.qrcs ∙ ground arith;
        rest =
            written
            ∙ ap
                (λ qs. record db {
                  quotes = qs;
                  qrcs = transmitted.qrcs;
                  notifications = db'.notifications;
                  drawn = db'.drawn;
                })
                (sym same.quotes)
            ∙ ap
                (λ cs. record db {
                  quotes = db'.quotes;
                  qrcs = cs;
                  notifications = db'.notifications;
                  drawn = db'.drawn;
                })
                (sym same.qrcs);
      }

  -- A submission that is refused writes nothing, unless three caterers' rows are transmitted on the
  -- request already: then it closes the caterer's own row and writes nothing else. One that succeeds
  -- found the request open to quotes, fewer than three rows transmitted, the caterer's row not closed
  -- and a draft of the caterer on the request. It marks this quote as sent and the caterer's row as
  -- transmitted, at the time and with the next rank; if that is the third, it closes the rows that
  -- wait for the other caterers, and it touches no row besides; beyond this it only notifies.
  pub submit_quote_outcomes :
      Ensures NotSent IsSent (submit_quote now request_id quote_id caterer db)
  submit_quote_outcomes =
      Ensures-map (submit_quote now request_id quote_id caterer db)
        (λ e d r. elim r [
          | inl same ↦ inl same
          | inr (closed, full, h) ↦ inr (closed, full, h ∙ healed full)
        ])
        sent (submit_quote-Ensures now request_id quote_id caterer db)
