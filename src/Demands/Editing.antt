-- ===== src/Demands/Editing.antt =====
-- blueprints/client/requests.py: the post that edits a request.
use les_traiteurs_engages_v.Base.{
  ◌>>◌, ◌>>=◌, Bool, Call, Option, String, false, fetch, gets, if◌then◌else◌, modify, not, raise_if,
  true, update_first, ℕ, ◌&&◌, ◌==◌,
}
use les_traiteurs_engages_v.Demands.{RequestForm, apply_form, own_service_id}
use les_traiteurs_engages_v.Models.{Database, QuoteRequest, QuoteRequestStatus, User}
use les_traiteurs_engages_v.Scoping.{get_company_request, is_in_scope}

-- The answers that are not the redirect to the request: `abort(404)`, the redirect with a message,
-- and the page with status 400.
pub data EditError : Type 0 where
  request_not_found not_editable invalid_edit : EditError

abbrev pub is_editable : QuoteRequestStatus → Bool
is_editable QuoteRequestStatus.draft = true
is_editable QuoteRequestStatus.pending_review = true
is_editable _ = false

-- A request that awaits qualification goes on awaiting it.
abbrev pub edited_status : QuoteRequestStatus → Bool → QuoteRequestStatus
edited_status QuoteRequestStatus.pending_review compare = QuoteRequestStatus.pending_review
edited_status _ compare =
    if compare then QuoteRequestStatus.pending_review else QuoteRequestStatus.sent_to_caterers

module _ (lower : String → String) (parse_uuid : String → Option ℕ) where
  unfoldable pub edited : RequestForm → Option ℕ → QuoteRequest → QuoteRequest
  edited form service r =
      record (apply_form lower parse_uuid form (record r { company_service_id = service })) {
        status = edited_status r.status form.is_compare_mode;
      }

  -- The offerings of a target play no part here: `target_offerings` is None.
  unfoldable pub request_edit_post : User → ℕ → RequestForm → Call Database EditError (Unit {0})
  request_edit_post user request_id form = do
    qr ← fetch (get_company_request request_id user) request_not_found
    raise_if (not (is_editable qr.status)) not_editable
    raise_if (not form.fields_valid) invalid_edit
    service ← gets (own_service_id lower parse_uuid user form.company_service_id)
    modify λ db. record db {
      requests =
          update_first (λ r. r.id == request_id && is_in_scope user r) (edited form service)
            db.requests;
    }
