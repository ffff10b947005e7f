-- ===== src/Workflow/Approval/Effects.antt =====
-- What `approve_quote_request` leaves behind.
use les_traiteurs_engages_v.Base.{
  inl, inr, ◌⊎◌, ==_iff, All, Ensures, List, [], ap, fetch-Ensures, find, find-holds,
  find-update_first, gets-Ensures, is_id, length, map, modify-Ensures, none, refl, return-Ensures,
  select, some, subst, suc, sym, update_first, ℕ, ◌++◌, ◌+◌, ◌==◌, ◌∙◌, ◌∷◌, ◌≡◌, ◌≢◌,
}
use les_traiteurs_engages_v.Models.{
  Caterer, Database, QrcStatus, QuoteRequest, QuoteRequestCaterer, QuoteRequestStatus, User,
}
use les_traiteurs_engages_v.Notifications.{Notice, notify_users, user_ids}
use les_traiteurs_engages_v.Notifications.Frame.{
  OnlyNotifies, OnlyNotifies-SameRows, OnlyNotifies-trans, notify_users-OnlyNotifies,
}
use les_traiteurs_engages_v.Workflow.Approval.{
  announce, approve_quote_request, approved_notice, notify_targets, qrcs_for, received_notice,
  targets_of, users_of_targets,
}
use les_traiteurs_engages_v.Workflow.Errors.{WorkflowError, with_status}
use les_traiteurs_engages_v.Workflow.Refusal.{notify_requester, notify_requester-OnlyNotifies}

notify_targets-OnlyNotifies :
    (us : List User) (n : Notice) (cs : List Caterer) (db : Database)
    → OnlyNotifies db (notify_targets us n cs db)
unfolding notify_targets
notify_targets-OnlyNotifies us n [] db = refl
notify_targets-OnlyNotifies us n (c ∷ cs) db =
    let told = notify_users (user_ids (select (λ u. is_id u.caterer_id c.id) us)) n db in
    OnlyNotifies-trans db told (notify_targets us n cs told)
      (notify_users-OnlyNotifies (user_ids (select (λ u. is_id u.caterer_id c.id) us)) n db)
      (notify_targets-OnlyNotifies us n cs told)

-- The request as `announce` leaves it, before anyone is told.
abbrev opened : QuoteRequest → List Caterer → Database → Database
opened qr [] db = db
opened qr (c ∷ cs) db = record db {
  requests =
      update_first (λ r. r.id == qr.id) (with_status QuoteRequestStatus.sent_to_caterers)
        db.requests;
}

announce-OnlyNotifies :
    (qr : QuoteRequest) (cs : List Caterer) (db : Database)
    → OnlyNotifies (opened qr cs db) (announce qr cs db)
unfolding announce
announce-OnlyNotifies qr [] db = refl
announce-OnlyNotifies qr (c ∷ cs) db =
    let d = opened qr (c ∷ cs) db in
    let told = notify_targets (users_of_targets (c ∷ cs) db) (received_notice qr) (c ∷ cs) d in
    let n = approved_notice qr (length (c ∷ cs)) in
    OnlyNotifies-trans d told (notify_requester qr.user_id n told)
      (notify_targets-OnlyNotifies (users_of_targets (c ∷ cs) db) (received_notice qr) (c ∷ cs) d)
      (notify_requester-OnlyNotifies qr.user_id n told)

-- A row for the request that waits for an answer.
abbrev pub Solicits : ℕ → QuoteRequestCaterer → Type 0
Solicits request_id c =
    (c.quote_request_id ≡ request_id) × (c.status ≡ QrcStatus.selected) × (c.response_rank ≡ none)

qrcs_for-Solicits :
    (uuid4 : ℕ → ℕ) (k request_id : ℕ) (cs : List Caterer)
    → All (Solicits request_id) (qrcs_for uuid4 k request_id cs)
unfolding qrcs_for
qrcs_for-Solicits uuid4 k request_id [] = tt
qrcs_for-Solicits uuid4 k request_id (c ∷ cs) =
    ((refl, refl, refl), qrcs_for-Solicits uuid4 (suc k) request_id cs)

map-qrcs_for :
    (uuid4 : ℕ → ℕ) (k request_id : ℕ) (cs : List Caterer)
    → map (λ c. c.caterer_id) (qrcs_for uuid4 k request_id cs) ≡ map (λ c. c.id) cs
unfolding qrcs_for
map-qrcs_for uuid4 k request_id [] = refl
map-qrcs_for uuid4 k request_id (c ∷ cs) = ap (◌∷◌ c.id) (map-qrcs_for uuid4 (suc k) request_id cs)

module _ (request_id : ℕ) (db : Database) where
  -- One waiting row for each validated caterer, in the catalogue's order, is appended to the rows;
  -- the request is open to quotes if there is such a caterer, and stays as it was otherwise.
  pub record FannedOut (new : List QuoteRequestCaterer) (db' : Database) : Type 0 where
    pub qrcs : db'.qrcs ≡ db.qrcs ++ new
    pub waiting : All (Solicits request_id) new
    pub everyone :
        map (λ c. c.caterer_id) new ≡ map (λ c. c.id) (select (λ c. c.is_validated) db.caterers)
    pub request : QuoteRequest
    pub found : find (λ r. r.id == request_id) db.requests ≡ some request
    pub opens :
        select (λ c. c.is_validated) db.caterers ≢ []
        → find (λ r. r.id == request_id) db'.requests
          ≡ some (with_status QuoteRequestStatus.sent_to_caterers request)
    pub rows :
        (db'.requests ≡ db.requests)
        ⊎ (db'.requests
            ≡ update_first
                (λ r. r.id == request_id)
                (with_status QuoteRequestStatus.sent_to_caterers)
                db.requests)
    pub nobody :
        select (λ c. c.is_validated) db.caterers ≡ []
        → (db'.requests ≡ db.requests) × (db'.notifications ≡ db.notifications)
    pub quotes : db'.quotes ≡ db.quotes
    pub orders : db'.orders ≡ db.orders
    pub audit_logs : db'.audit_logs ≡ db.audit_logs

  abbrev solicited_all : QuoteRequest → Database
  solicited_all qr = record db {
    qrcs = db.qrcs ++ qrcs_for db.uuid4 db.drawn qr.id (targets_of db);
    drawn = db.drawn + length (qrcs_for db.uuid4 db.drawn qr.id (targets_of db));
  }

  opens_request :
      (qr : QuoteRequest) (cs : List Caterer)
      → find (λ r. r.id == request_id) db.requests ≡ some qr
      → cs ≢ []
      → find (λ r. r.id == request_id) (opened qr cs (solicited_all qr)).requests
        ≡ some (with_status QuoteRequestStatus.sent_to_caterers qr)
  opens_request qr [] h e = absurd (e refl)
  opens_request qr (c ∷ cs) h e =
      let same : qr.id ≡ request_id =
        (==_iff _ _).0 (find-holds (λ r. r.id == request_id) db.requests qr h) in
      let f = with_status QuoteRequestStatus.sent_to_caterers in
      subst
        (λ i.
          find (λ r. r.id == request_id) (update_first (λ r. r.id == i) f db.requests)
          ≡ some (f qr))
        (sym same) (find-update_first (λ r. r.id == request_id) f db.requests qr (λ r e. e) h)

  untold :
      (qr : QuoteRequest) (cs : List Caterer)
      → cs ≡ []
      → announce qr cs (solicited_all qr) ≡ solicited_all qr
  unfolding announce
  untold qr cs h = rw h

  opened_rest :
      (qr : QuoteRequest) (cs : List Caterer) (d : Database)
      → ((opened qr cs d).qrcs ≡ d.qrcs)
        × ((opened qr cs d).quotes ≡ d.quotes)
        × ((opened qr cs d).orders ≡ d.orders)
        × ((opened qr cs d).audit_logs ≡ d.audit_logs)
  opened_rest qr [] d = (refl, refl, refl, refl)
  opened_rest qr (c ∷ cs) d = (refl, refl, refl, refl)

  -- The requests are as they were, or the one of the identifier is open to quotes.
  abbrev Opened : List QuoteRequest → ℕ → Type 0
  Opened rs i =
      (rs ≡ db.requests)
      ⊎ (rs
          ≡ update_first (λ r. r.id == i) (with_status QuoteRequestStatus.sent_to_caterers)
              db.requests)

  opened_rows :
      (qr : QuoteRequest) (cs : List Caterer) (rs : List QuoteRequest)
      → rs ≡ (opened qr cs (solicited_all qr)).requests
      → Opened rs qr.id
  opened_rows qr [] rs e = inl e
  opened_rows qr (c ∷ cs) rs e = inr e

  fanned_out :
      (qr : QuoteRequest)
      → find (λ r. r.id == request_id) db.requests ≡ some qr
      → FannedOut
          (qrcs_for db.uuid4 db.drawn qr.id (targets_of db))
          (announce qr (targets_of db) (solicited_all qr))
  fanned_out qr h =
      let same : qr.id ≡ request_id =
        (==_iff _ _).0 (find-holds (λ r. r.id == request_id) db.requests qr h) in
      let rows =
        OnlyNotifies-SameRows (opened qr (targets_of db) (solicited_all qr))
          (announce qr (targets_of db) (solicited_all qr))
          (announce-OnlyNotifies qr (targets_of db) (solicited_all qr)) in
      let (r1, r2, r3, r4) = opened_rest qr (targets_of db) (solicited_all qr) in
      record {
        qrcs = rows.qrcs ∙ r1;
        waiting =
            subst (λ i. All (Solicits i) (qrcs_for db.uuid4 db.drawn qr.id (targets_of db))) same
              (qrcs_for-Solicits db.uuid4 db.drawn qr.id (targets_of db));
        everyone = map-qrcs_for db.uuid4 db.drawn qr.id (targets_of db);
        request = qr;
        found = h;
        opens = λ e. rw rows.requests (opens_request qr (targets_of db) h e);
        rows =
            subst (Opened (announce qr (targets_of db) (solicited_all qr)).requests) same
              (opened_rows qr (targets_of db) _ rows.requests);
        nobody = λ e. (
          ap (λ d. d.requests) (untold qr (targets_of db) e),
          ap (λ d. d.notifications) (untold qr (targets_of db) e),
        );
        quotes = rows.quotes ∙ r2;
        orders = rows.orders ∙ r3;
        audit_logs = rows.audit_logs ∙ r4;
      }

  -- A call of `approve_quote_request` on a request that is not there changes nothing. Any other
  -- succeeds: it appends one waiting row for each validated caterer, in the catalogue's order, opens
  -- the request to quotes if there is such a caterer and leaves requests and notifications alone
  -- if there is none; quotes and orders stay as they were.
  pub approve_quote_request_fans_out :
      Ensures
        (λ e db'. (db' ≡ db) × (find (λ r. r.id == request_id) db.requests ≡ none))
        FannedOut
        (approve_quote_request request_id db)
  unfolding approve_quote_request
  approve_quote_request_fans_out =
      let Missing = λ (e : WorkflowError) (db' : Database).
        (db' ≡ db) × (find (λ r. r.id == request_id) db.requests ≡ none) in
      fetch-Ensures Missing FannedOut _ _ _ _ (λ missing. (refl, missing))
        λ qr found. gets-Ensures Missing FannedOut _ _ _ (
          gets-Ensures Missing FannedOut _ _ _ (
            modify-Ensures Missing FannedOut _ _ _ (
              modify-Ensures Missing FannedOut _ _ _
                (return-Ensures Missing FannedOut _ _ (fanned_out qr found)))))
