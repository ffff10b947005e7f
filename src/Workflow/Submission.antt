-- ===== src/Workflow/Submission.antt =====
-- services/workflow.py: `submit_quote`, with the rule of the three first responders.
pub mod Bounds
pub mod Branches
pub mod Outcomes
pub mod FirstThree
use les_traiteurs_engages_v.Base.{
  ◌>>◌, ◌>>=◌, Bool, List, count, fetch, find, gets, if◌then◌else◌, leb, modify, not, raise_if,
  return, some, update_first, update_where, ℕ, ◌&&◌, ◌+++◌, ◌+◌, ◌==◌,
}
use les_traiteurs_engages_v.Models.{
  Caterer, Database, QrcStatus, Quote, QuoteRequestCaterer, QuoteStatus, is_closed, is_draft,
  is_selected, is_sent_to_caterers, is_transmitted,
}
use les_traiteurs_engages_v.Notifications.{Notice}
use les_traiteurs_engages_v.Workflow.Acceptance.{close_qrc}
use les_traiteurs_engages_v.Workflow.Errors.{
  Session, quote_not_found, quote_request_closed, quote_request_not_open,
}
use les_traiteurs_engages_v.Workflow.Refusal.{notify_requester}

abbrev pub is_submittable : ℕ → ℕ → ℕ → Quote → Bool
is_submittable request_id quote_id caterer_id q =
    q.id == quote_id
    && q.caterer_id == caterer_id
    && q.quote_request_id == request_id
    && is_draft q.status

abbrev pub is_qrc_of : ℕ → ℕ → QuoteRequestCaterer → Bool
is_qrc_of request_id caterer_id c = c.quote_request_id == request_id && c.caterer_id == caterer_id

abbrev pub is_transmitted_on : ℕ → QuoteRequestCaterer → Bool
is_transmitted_on request_id c = c.quote_request_id == request_id && is_transmitted c.status

-- How many caterers have had a quote transmitted to the client.
abbrev pub transmitted_on : ℕ → Database → ℕ
transmitted_on request_id db = count (is_transmitted_on request_id) db.qrcs

abbrev pub send : Quote → Quote
send q = record q { status = QuoteStatus.sent }

abbrev transmit : ℕ → ℕ → QuoteRequestCaterer → QuoteRequestCaterer
transmit now rank c = record c {
  responded_at = some now;
  status = QrcStatus.transmitted_to_client;
  response_rank = some rank;
}

abbrev is_shut_out : ℕ → ℕ → QuoteRequestCaterer → Bool
is_shut_out request_id caterer_id c =
    c.quote_request_id == request_id && is_selected c.status && not (c.caterer_id == caterer_id)

-- The third answer closes the rows of those who have not answered.
unfoldable pub close_remaining : ℕ → ℕ → ℕ → List QuoteRequestCaterer → List QuoteRequestCaterer
close_remaining request_id caterer_id rank cs =
    if rank == 3 then update_where (is_shut_out request_id caterer_id) close_qrc cs else cs

-- The writes that follow the guards, up to the notification.
unfoldable pub transmit_quote : ℕ → ℕ → ℕ → ℕ → ℕ → Database → Database
transmit_quote now request_id quote_id caterer_id transmitted db = record db {
  quotes = update_first (is_submittable request_id quote_id caterer_id) send db.quotes;
  qrcs =
      close_remaining request_id caterer_id (transmitted + 1)
        (update_first (is_qrc_of request_id caterer_id) (transmit now (transmitted + 1)) db.qrcs);
}

abbrev received_quote_notice : Caterer → Quote → Notice
received_quote_notice caterer quote = record {
  type = "quote_received";
  title = "Nouveau devis reçu";
  body = caterer.name +++ " vient de vous envoyer un devis.";
  related_entity_type = some "quote";
  related_entity_id = some quote.id;
}

-- A row that should have been closed is closed, where three caterers' rows are transmitted already.
unfoldable pub heal : ℕ → ℕ → ℕ → Database → Database
heal request_id caterer_id transmitted db =
    if leb 3 transmitted
    then record db { qrcs = update_first (is_qrc_of request_id caterer_id) close_qrc db.qrcs }
    else db

-- `now` is `datetime.datetime.utcnow()`.
unfoldable pub submit_quote : ℕ → ℕ → ℕ → Caterer → Session Quote
submit_quote now request_id quote_id caterer = do
  qr ← fetch (λ db. find (λ r. r.id == request_id) db.requests) quote_not_found
  raise_if (not (is_sent_to_caterers qr.status)) quote_request_not_open
  quote ←
      fetch (λ db. find (is_submittable request_id quote_id caterer.id) db.quotes) quote_not_found
  qrc ← fetch (λ db. find (is_qrc_of request_id caterer.id) db.qrcs) quote_not_found
  raise_if (is_closed qrc.status) quote_request_closed
  transmitted ← gets (transmitted_on request_id)
  modify (heal request_id caterer.id transmitted)
  raise_if (leb 3 transmitted) quote_request_closed
  modify (transmit_quote now request_id quote_id caterer.id transmitted)
  modify (notify_requester qr.user_id (received_quote_notice caterer quote))
  return (send quote)
