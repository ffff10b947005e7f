-- ===== src/Workflow/Refusal.antt =====
-- services/workflow.py: `refuse_quote` and `reject_quote_request`.
pub mod Effects
use les_traiteurs_engages_v.Base.{
  ◌>>◌, ◌>>=◌, Option, String, count, fetch, find, if◌then◌else◌, modify, none, refl, some, text_or,
  text_or_none, update_first, ℕ, ◌==◌,
}
use les_traiteurs_engages_v.Models.{
  Database, Quote, QuoteRequest, QuoteRequestStatus, QuoteStatus, User,
}
use les_traiteurs_engages_v.Notifications.{Notice, caterer_user_ids, notify, notify_users}
use les_traiteurs_engages_v.Notifications.Frame.{OnlyNotifies, notify-OnlyNotifies}
use les_traiteurs_engages_v.Workflow.Errors.{
  Session, is_open_quote, is_own_request, is_quote_of, quote_not_found, request_not_found,
  with_reason, with_status,
}

abbrev pub refuse : Option String → Quote → Quote
refuse reason q = record q { status = QuoteStatus.refused; refusal_reason = text_or_none reason }

abbrev refused_notice : ℕ → Option String → Notice
refused_notice request_id reason = record {
  type = "quote_refused";
  title = "Devis refusé";
  body = with_reason "Votre devis a été refusé." reason;
  related_entity_type = some "quote_request";
  related_entity_id = some request_id;
}

-- The request is turned to `quotes_refused` once none of its quotes is `sent`.
unfoldable pub close_if_all_refused : ℕ → User → Database → Database
close_if_all_refused request_id user db =
    if count (is_open_quote request_id) db.quotes == 0
    then record db {
      requests =
          update_first (is_own_request request_id user)
            (with_status QuoteRequestStatus.quotes_refused) db.requests;
    }
    else db

unfoldable pub refuse_quote : ℕ → ℕ → User → Option String → Session (Unit {0})
refuse_quote request_id quote_id user reason = do
  qr ← fetch (λ db. find (is_own_request request_id user) db.requests) request_not_found
  quote ← fetch (λ db. find (is_quote_of request_id quote_id) db.quotes) quote_not_found
  modify λ db. record db {
    quotes = update_first (is_quote_of request_id quote_id) (refuse reason) db.quotes;
  }
  modify λ db.
      notify_users (caterer_user_ids (some quote.caterer_id) db) (refused_notice request_id reason)
        db
  modify (close_if_all_refused request_id user)

abbrev pub cancel : Option String → QuoteRequest → QuoteRequest
cancel reason r = record r {
  status = QuoteRequestStatus.cancelled;
  message_to_caterer = some (text_or reason "");
}

abbrev rejected_notice : ℕ → Option String → Notice
rejected_notice request_id reason = record {
  type = "quote_request_rejected";
  title = "Demande refusée";
  body = with_reason "Votre demande de devis a été refusée par notre équipe." reason;
  related_entity_type = some "quote_request";
  related_entity_id = some request_id;
}

-- A notification to the requester, if the request has one.
abbrev pub notify_requester : Option ℕ → Notice → Database → Database
notify_requester none n db = db
notify_requester (some user_id) n db = notify user_id n db

unfoldable pub reject_quote_request : ℕ → Option String → Session (Unit {0})
reject_quote_request request_id reason = do
  qr ← fetch (λ db. find (λ r. r.id == request_id) db.requests) request_not_found
  modify λ db. record db {
    requests = update_first (λ r. r.id == request_id) (cancel reason) db.requests;
  }
  modify (notify_requester qr.user_id (rejected_notice qr.id reason))

pub notify_requester-OnlyNotifies :
    (u : Option ℕ) (n : Notice) (db : Database) → OnlyNotifies db (notify_requester u n db)
notify_requester-OnlyNotifies none n db = refl
notify_requester-OnlyNotifies (some u) n db = notify-OnlyNotifies u n db
