-- ===== src/Workflow/Refusal/Effects.antt =====
-- What `refuse_quote` and `reject_quote_request` leave behind.
use les_traiteurs_engages_v.Base.{
  Bool-cases, inl, inr, ◌⊎◌, Ensures, Option, String, arith, count, fetch-Ensures, find,
  find-update_first, modify-Ensures, modify_last-Ensures, refl, some, update_first, ℕ, ◌==◌, ◌≡◌,
  ◌≢◌,
}
use les_traiteurs_engages_v.Models.{Database, Quote, QuoteRequest, QuoteRequestStatus, User}
use les_traiteurs_engages_v.Notifications.{caterer_user_ids, notify_users}
use les_traiteurs_engages_v.Notifications.Frame.{OnlyNotifies-SameRows}
use les_traiteurs_engages_v.Workflow.Errors.{
  is_open_quote, is_own_request, is_quote_of, with_status,
}
use les_traiteurs_engages_v.Workflow.Refusal.{
  cancel, close_if_all_refused, notify_requester, notify_requester-OnlyNotifies, refuse,
  refuse_quote, refused_notice, reject_quote_request, rejected_notice,
}

module _ (request_id quote_id : ℕ) (user : User) (reason : Option String) (db : Database) where
  -- The quote is refused with the reason; the request is turned to `quotes_refused` if no quote of it
  -- is `sent` any more, and left alone otherwise; orders and solicited caterers stay as they were.
  pub record Turned (db' : Database) : Type 0 where
    pub quote : Quote
    pub found : find (is_quote_of request_id quote_id) db.quotes ≡ some quote
    pub refused : find (is_quote_of request_id quote_id) db'.quotes ≡ some (refuse reason quote)
    pub quotes :
        db'.quotes ≡ update_first (is_quote_of request_id quote_id) (refuse reason) db.quotes
    pub orders : db'.orders ≡ db.orders
    pub qrcs : db'.qrcs ≡ db.qrcs
    pub request : QuoteRequest
    pub owned : find (is_own_request request_id user) db.requests ≡ some request
    pub closes :
        count (is_open_quote request_id) db'.quotes ≡ 0
        → find (is_own_request request_id user) db'.requests
          ≡ some (with_status QuoteRequestStatus.quotes_refused request)
    pub rows :
        (db'.requests ≡ db.requests)
        ⊎ (db'.requests
            ≡ update_first
                (is_own_request request_id user)
                (with_status QuoteRequestStatus.quotes_refused)
                db.requests)
    pub stays : count (is_open_quote request_id) db'.quotes ≢ 0 → db'.requests ≡ db.requests

  -- The state in which the remaining quotes are counted.
  abbrev after_refusal : Quote → Database
  after_refusal quote =
      let db' = record db {
        quotes = update_first (is_quote_of request_id quote_id) (refuse reason) db.quotes;
      } in
      notify_users (caterer_user_ids (some quote.caterer_id) db') (refused_notice request_id reason)
        db'

  turned :
      (qr : QuoteRequest) (quote : Quote)
      → find (is_own_request request_id user) db.requests ≡ some qr
      → find (is_quote_of request_id quote_id) db.quotes ≡ some quote
      → Turned (close_if_all_refused request_id user (after_refusal quote))
  unfolding close_if_all_refused notify_users
  turned qr quote has_request has_quote =
      let found =
        find-update_first (is_quote_of request_id quote_id) (refuse reason) db.quotes quote
          (λ q e. e) has_quote in
      let closed =
        find-update_first (is_own_request request_id user)
          (with_status QuoteRequestStatus.quotes_refused) db.requests qr (λ r e. e) has_request in
      record {
        quote = quote;
        found = has_quote;
        refused = ground (arith, found);
        quotes = ground arith;
        orders = ground arith;
        qrcs = ground arith;
        request = qr;
        owned = has_request;
        closes = λ h. ground (arith, closed);
        stays = λ h. ground arith;
        rows =
            elim (Bool-cases (count (is_open_quote request_id) (after_refusal quote).quotes == 0)) [
              | inl y ↦ inr (rw y refl)
              | inr n ↦ inl (rw n refl)
            ];
      }

  -- A call of `refuse_quote` that is refused itself changes nothing. One that succeeds refuses the
  -- quote with the reason, and turns the request to `quotes_refused` exactly if none of its quotes
  -- is `sent` afterwards; orders and the rows of the solicited caterers stay as they were.
  pub refuse_quote_turns :
      Ensures (λ e db'. db' ≡ db) (λ u. Turned) (refuse_quote request_id quote_id user reason db)
  unfolding refuse_quote
  refuse_quote_turns =
      fetch-Ensures (λ e db'. db' ≡ db) (λ u. Turned) _ _ _ _ (λ _. refl)
        λ qr has_request.
          fetch-Ensures (λ e db'. db' ≡ db) (λ u. Turned) _ _ _ _ (λ _. refl)
            λ quote has_quote.
              modify-Ensures (λ e db'. db' ≡ db) (λ u. Turned) _ _ _
                (modify-Ensures (λ e db'. db' ≡ db) (λ u. Turned) _ _ _
                  (modify_last-Ensures (λ e db'. db' ≡ db) (λ u. Turned) _ _
                    (turned qr quote has_request has_quote)))

module _ (request_id : ℕ) (reason : Option String) (db : Database) where
  -- The request is cancelled with the reason as its message, whatever its status was; quotes, orders
  -- and the rows of the solicited caterers stay as they were.
  pub record Cancelled (db' : Database) : Type 0 where
    pub request : QuoteRequest
    pub found : find (λ r. r.id == request_id) db.requests ≡ some request
    pub audit_logs : db'.audit_logs ≡ db.audit_logs
    pub requests : db'.requests ≡ update_first (λ r. r.id == request_id) (cancel reason) db.requests
    pub cancelled : find (λ r. r.id == request_id) db'.requests ≡ some (cancel reason request)
    pub quotes : db'.quotes ≡ db.quotes
    pub orders : db'.orders ≡ db.orders
    pub qrcs : db'.qrcs ≡ db.qrcs

  abbrev after_cancel : Database
  after_cancel = record db {
    requests = update_first (λ r. r.id == request_id) (cancel reason) db.requests;
  }

  cancelled :
      (qr : QuoteRequest)
      → find (λ r. r.id == request_id) db.requests ≡ some qr
      → Cancelled (notify_requester qr.user_id (rejected_notice qr.id reason) after_cancel)
  cancelled qr found =
      let n = rejected_notice qr.id reason in
      let same =
        OnlyNotifies-SameRows after_cancel (notify_requester qr.user_id n after_cancel)
          (notify_requester-OnlyNotifies qr.user_id n after_cancel) in
      record {
        request = qr;
        found = found;
        cancelled = rw same.requests (
            find-update_first (λ r. r.id == request_id) (cancel reason) db.requests qr (λ r e. e)
              found);
        requests = same.requests;
        quotes = same.quotes;
        orders = same.orders;
        qrcs = same.qrcs;
        audit_logs = same.audit_logs;
      }

  -- A call of `reject_quote_request` on a request that is not there changes nothing. Any other
  -- succeeds and cancels the request with the reason as its message, whatever its status was; quotes,
  -- orders and the rows of the solicited caterers stay as they were.
  pub reject_quote_request_cancels :
      Ensures (λ e db'. db' ≡ db) (λ u. Cancelled) (reject_quote_request request_id reason db)
  unfolding reject_quote_request
  reject_quote_request_cancels =
      fetch-Ensures (λ e db'. db' ≡ db) (λ u. Cancelled) _ _ _ _ (λ _. refl)
        λ qr found.
          modify-Ensures (λ e db'. db' ≡ db) (λ u. Cancelled) _ _ _
            (modify_last-Ensures (λ e db'. db' ≡ db) (λ u. Cancelled) _ _ (cancelled qr found))
