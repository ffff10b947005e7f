-- ===== src/Workflow/Approval.antt =====
-- services/workflow.py: `approve_quote_request`.
pub mod Effects
use les_traiteurs_engages_v.Base.{
  ◌>>◌, ◌>>=◌, List, Option, String, [], fetch, find, gets, if◌then◌else◌, is_id, length, map,
  modify, none, return, select, some, str, suc, text_or, update_first, ℕ, ◌&&◌, ◌+++◌, ◌++◌, ◌+◌,
  ◌==◌, ◌∷◌,
}
use les_traiteurs_engages_v.Models.{
  Caterer, Database, QrcStatus, QuoteRequest, QuoteRequestCaterer, QuoteRequestStatus, User,
}
use les_traiteurs_engages_v.Notifications.{Notice, is_one_of, notify_users, user_ids}
use les_traiteurs_engages_v.Workflow.Errors.{Session, request_not_found, with_status}
use les_traiteurs_engages_v.Workflow.Refusal.{notify_requester}

-- One row for each caterer of the catalogue; the k-th takes the k-th identifier that is drawn.
unfoldable pub qrcs_for : (ℕ → ℕ) → ℕ → ℕ → List Caterer → List QuoteRequestCaterer
qrcs_for uuid4 k request_id [] = []
qrcs_for uuid4 k request_id (c ∷ cs) =
    record {
      id = uuid4 k;
      quote_request_id = request_id;
      caterer_id = c.id;
      status = QrcStatus.selected;
      responded_at = none;
      response_rank = none;
    }
    ∷ qrcs_for uuid4 (suc k) request_id cs

abbrev targets_of : Database → List Caterer
targets_of db = select (λ c. c.is_validated) db.caterers

-- `guest_count or '?'`.
abbrev pub guests_or_mark : Option ℕ → String
guests_or_mark none = "?"
guests_or_mark (some n) = if n == 0 then "?" else str n

abbrev pub received_notice : QuoteRequest → Notice
received_notice qr = record {
  type = "quote_request_received";
  title = "Nouvelle demande de devis";
  body =
      "Une demande pour "
      +++ (guests_or_mark qr.guest_count
          +++ (" convives ("
              +++ (text_or qr.event_city "lieu non renseigné" +++ ") vous a été transmise.")));
  related_entity_type = some "quote_request";
  related_entity_id = some qr.id;
}

abbrev approved_notice : QuoteRequest → ℕ → Notice
approved_notice qr targets = record {
  type = "quote_request_approved";
  title = "Votre demande a été transmise";
  body = "Votre demande a été envoyée à " +++ (str targets +++ " traiteur(s).");
  related_entity_type = some "quote_request";
  related_entity_id = some qr.id;
}

-- The query that fetches the active users of all targets at once.
abbrev users_of_targets : List Caterer → Database → List User
users_of_targets targets db =
    select (λ u. is_one_of u.caterer_id (map (λ c. c.id) targets) && u.is_active) db.users

-- The loop over the targets; `users` are those of all targets, grouped by caterer at each use.
unfoldable pub notify_targets : List User → Notice → List Caterer → Database → Database
notify_targets users n [] db = db
notify_targets users n (c ∷ cs) db =
    notify_targets users n cs
      (notify_users (user_ids (select (λ u. is_id u.caterer_id c.id) users)) n db)

-- With an empty catalogue the request stays as it is and nobody is told.
unfoldable pub announce : QuoteRequest → List Caterer → Database → Database
announce qr [] db = db
announce qr (c ∷ cs) db = notify_requester qr.user_id (approved_notice qr (length (c ∷ cs))) (
    notify_targets (users_of_targets (c ∷ cs) db) (received_notice qr) (c ∷ cs) (record db {
      requests =
          update_first (λ r. r.id == qr.id) (with_status QuoteRequestStatus.sent_to_caterers)
            db.requests;
    }))

unfoldable pub approve_quote_request : ℕ → Session (List QuoteRequestCaterer)
approve_quote_request request_id = do
  qr ← fetch (λ db. find (λ r. r.id == request_id) db.requests) request_not_found
  targets ← gets targets_of
  qrcs ← gets (λ db. qrcs_for db.uuid4 db.drawn qr.id targets)
  modify λ db. record db { qrcs = db.qrcs ++ qrcs; drawn = db.drawn + length qrcs }
  modify (announce qr targets)
  return qrcs
