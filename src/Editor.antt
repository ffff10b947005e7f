-- ===== src/Editor.antt =====
-- blueprints/caterer/requests.py: the caterer's quote editor, with `generate_quote_reference` of
-- services/quotes.py. What `json.loads` makes of the lines, the year of a timestamp and the rounding
-- that PostgreSQL does at a column are arguments.
pub mod Details
pub mod Posts
pub mod Drafts
pub mod Kept
use text.Mathlib.Text.{◌==◌ as str_eq}
use les_traiteurs_engages_v.Base.{
  ◌>>◌, ◌>>=◌, Bool, Call, List, Option, Result, String, [], count, exists, false, fetch, find,
  gets, if◌then◌else◌, is_some, length, ltb, map, modify, none, not, ok, raise, raise_if, return,
  select, some, str, str_or_none, text_or, update_first, ℕ, ◌&&◌, ◌+++◌, ◌++◌, ◌+◌, ◌-◌, ◌==◌, ◌∷◌,
}
use les_traiteurs_engages_v.Editor.Details.{Json, parse_line_dicts}
use les_traiteurs_engages_v.Models.{
  Caterer, Database, QrcStatus, Quote, QuoteLine, QuoteRequest, QuoteRequestCaterer, QuoteStatus,
  is_draft, request_by,
}
use les_traiteurs_engages_v.Pricing.Lines.{Line, LineError, lines_from_dicts}
use les_traiteurs_engages_v.Pricing.Totals.{QuoteTotals, calculate_quote_totals}
use les_traiteurs_engages_v.Scoping.{get_caterer_qrc, get_caterer_quote}
use les_traiteurs_engages_v.Workflow.Errors.{
  WorkflowError, quote_not_found, quote_request_closed, quote_request_not_open,
}
use les_traiteurs_engages_v.Workflow.Submission.{is_qrc_of, submit_quote}

-- The submit buttons.
pub data EditorButton : Type 0 where
  draft send draft_and_pdf : EditorButton

-- The posted fields; `details` is what `json.loads` makes of them.
pub record QuoteForm : Type 0 where
  pub fields_valid : Bool
  pub details : Option Json
  pub notes : Option String
  pub valid_until : Option ℕ
  pub action : EditorButton

pub data EditorReply : Type 0 where
  not_found page_400 server_error locked declined refused_after_send : EditorReply
  closed not_open : EditorReply
  to_draft saved to_pdf sent : ℕ → EditorReply

abbrev pub Editing : Type 0 → Type 0
Editing = Call Database EditorReply

abbrev pub is_draft_of : ℕ → ℕ → Quote → Bool
is_draft_of request_id caterer_id q =
    q.quote_request_id == request_id && q.caterer_id == caterer_id && is_draft q.status

abbrev existing_draft : ℕ → ℕ → Database → Option Quote
existing_draft request_id caterer_id db = find (is_draft_of request_id caterer_id) db.quotes

-- `f"{n:03d}"`.
abbrev pad3 : ℕ → String
pad3 n = if ltb n 10 then "00" +++ str n else if ltb n 100 then "0" +++ str n else str n

abbrev lines_or_none : Result LineError (List Line) → Option (List Line)
lines_or_none (ok lines) = some lines
lines_or_none (raise e) = none

-- `year_of` is `extract("year", ...)`.
unfoldable pub generate_quote_reference : (ℕ → ℕ) → ℕ → Caterer → Database → String
generate_quote_reference year_of year caterer db =
    "DEVIS-"
    +++ (str_or_none caterer.invoice_prefix
        +++ ("-"
            +++ (str year
                +++ ("-"
                    +++ pad3 (
                        count (λ q. q.caterer_id == caterer.id && year_of q.created_at == year)
                          db.quotes
                        + 1)))))

-- The unique constraint on the references, which only the commit would report.
abbrev is_reference_taken : String → Database → Bool
is_reference_taken reference db = exists (λ q. str_eq q.reference reference) db.quotes

module _ (one : ℕ) (round : ℕ → ℕ → ℕ) where
  -- A line at the scales of the columns.
  abbrev as_row : ℕ → Line → QuoteLine
  as_row quote_id l = record {
    quote_id = quote_id;
    position = l.position;
    section = l.section;
    description = l.description;
    quantity = round 1000 l.quantity;
    unit_price_ht = round 100 l.unit_price_ht;
    tva_rate = round 100 l.tva_rate;
  }

  abbrev is_line_of : ℕ → QuoteLine → Bool
  is_line_of quote_id l = l.quote_id == quote_id

  -- `quote.lines = lines`: the lines that the quote had are deleted.
  abbrev replace_lines : ℕ → List Line → List QuoteLine → List QuoteLine
  replace_lines quote_id lines rows =
      select (λ l. not (is_line_of quote_id l)) rows ++ map (as_row quote_id) lines

  -- The totals are of the posted objects; beyond the sections, which are not stored, they depend on the
  -- numbers alone, which the lines have kept.
  abbrev totals_for : Caterer → QuoteRequest → List Line → QuoteTotals
  totals_for caterer qr lines =
      calculate_quote_totals one lines qr.guest_count (some caterer.commission_rate)

  unfoldable pub new_quote : ℕ → String → Caterer → QuoteRequest → QuoteForm → List Line → ℕ → Quote
  new_quote now reference caterer qr form lines id = record {
    id = id;
    quote_request_id = qr.id;
    caterer_id = caterer.id;
    reference = reference;
    total_amount_ht = some (totals_for caterer qr lines).total_ht;
    amount_per_person = some (totals_for caterer qr lines).amount_per_person;
    notes = some (text_or form.notes "");
    valid_until = form.valid_until;
    status = QuoteStatus.draft;
    refusal_reason = none;
    created_at = now;
  }

  -- The identifiers of the lines are not kept, but drawn.
  unfoldable pub insert_quote : Quote → List Line → Database → Database
  insert_quote quote lines db = record db {
    quotes = db.quotes ++ quote ∷ [];
    quote_lines = db.quote_lines ++ map (as_row quote.id) lines;
    drawn = db.drawn + (length lines + 1);
  }

  module _ (year_of : ℕ → ℕ) (now year : ℕ) (caterer : Caterer) where
    -- `quote_create`, up to the commit of the draft.
    unfoldable pub create_draft : ℕ → QuoteForm → Editing ℕ
    create_draft qr_id form = do
      qrc ← fetch (get_caterer_qrc qr_id caterer.id) not_found
      qr ← fetch (request_by qr_id) server_error
      existing ← gets (existing_draft qr_id caterer.id)
      raise_if (is_some existing) (elim existing [ none ↦ not_found | some d ↦ to_draft d.id ])
      raise_if (not form.fields_valid) page_400
      lines ←
          fetch (λ db. lines_or_none (lines_from_dicts one (parse_line_dicts form.details) db).0)
            page_400
      reference ← gets (generate_quote_reference year_of year caterer)
      taken ← gets (is_reference_taken reference)
      raise_if taken server_error
      id ← gets (λ db. db.uuid4 db.drawn)
      modify (insert_quote (new_quote now reference caterer qr form lines id) lines)
      return id

    abbrev is_own_quote : ℕ → ℕ → Quote → Bool
    is_own_quote qr_id quote_id q =
        q.id == quote_id && (q.caterer_id == caterer.id && q.quote_request_id == qr_id)

    abbrev or_date : Option ℕ → Option ℕ → Option ℕ
    or_date (some d) old = some d
    or_date none old = old

    unfoldable pub revise : QuoteRequest → QuoteForm → List Line → Quote → Quote
    revise qr form lines q = record q {
      total_amount_ht = some (totals_for caterer qr lines).total_ht;
      amount_per_person = some (totals_for caterer qr lines).amount_per_person;
      notes = some (text_or form.notes "");
      valid_until = or_date form.valid_until q.valid_until;
    }

    unfoldable pub revise_quote : ℕ → ℕ → QuoteRequest → QuoteForm → List Line → Database → Database
    revise_quote qr_id quote_id qr form lines db = record db {
      quotes = update_first (is_own_quote qr_id quote_id) (revise qr form lines) db.quotes;
      quote_lines = replace_lines quote_id lines db.quote_lines;
      drawn = db.drawn + length lines;
    }

    -- `quote_update`, up to the commit.
    unfoldable pub update_draft : ℕ → ℕ → QuoteForm → Editing ℕ
    update_draft qr_id quote_id form = do
      quote ← fetch (get_caterer_quote qr_id quote_id caterer.id) not_found
      raise_if (not (is_draft quote.status)) locked
      qr ← fetch (request_by quote.quote_request_id) server_error
      qrc ← fetch (get_caterer_qrc qr_id caterer.id) not_found
      raise_if (not form.fields_valid) page_400
      lines ←
          fetch (λ db. lines_or_none (lines_from_dicts one (parse_line_dicts form.details) db).0)
            page_400
      modify (revise_quote qr_id quote_id qr form lines)
      return quote.id

    -- The answers to the exceptions of `submit_quote`, after two of which the session is committed.
    abbrev after_submission :
        Database → Result WorkflowError Quote × Database → EditorReply × Database
    after_submission before (ok q, d) = (sent q.id, d)
    after_submission before (raise quote_request_closed, d) = (closed, d)
    after_submission before (raise quote_request_not_open, d) = (not_open, d)
    after_submission before (raise quote_not_found, d) = (not_found, before)
    after_submission before (raise _, d) = (server_error, before)

    unfoldable pub quote_send : ℕ → ℕ → Database → EditorReply × Database
    quote_send qr_id quote_id db = after_submission db (submit_quote now qr_id quote_id caterer db)

    -- What the buttons add to the draft that is committed.
    abbrev after_save : EditorButton → ℕ → ℕ → Database → EditorReply × Database
    after_save EditorButton.send qr_id quote_id db = quote_send qr_id quote_id db
    after_save draft_and_pdf qr_id quote_id db = (to_pdf quote_id, db)
    after_save EditorButton.draft qr_id quote_id db = (saved quote_id, db)

    abbrev pub answered :
        EditorButton → ℕ → Database → Result EditorReply ℕ × Database → EditorReply × Database
    answered button qr_id before (raise reply, d) = (reply, before)
    answered button qr_id before (ok id, d) = after_save button qr_id id d

    unfoldable pub quote_create : ℕ → QuoteForm → Database → EditorReply × Database
    quote_create qr_id form db = answered form.action qr_id db (create_draft qr_id form db)

    unfoldable pub quote_update : ℕ → ℕ → QuoteForm → Database → EditorReply × Database
    quote_update qr_id quote_id form db =
        answered form.action qr_id db (update_draft qr_id quote_id form db)

    -- `request_reject`, on the first quote of the caterer's on the request.
    abbrev is_quote_by : ℕ → Quote → Bool
    is_quote_by qr_id q = q.quote_request_id == qr_id && q.caterer_id == caterer.id

    abbrev has_sent_quote : ℕ → Database → Bool
    has_sent_quote qr_id db = elim (find (is_quote_by qr_id) db.quotes) [
      | none ↦ false
      | some q ↦ not (is_draft q.status)
    ]

    abbrev reject_qrc : QuoteRequestCaterer → QuoteRequestCaterer
    reject_qrc c = record c { status = QrcStatus.rejected }

    unfoldable pub request_reject : ℕ → Database → EditorReply × Database
    request_reject qr_id db = elim (get_caterer_qrc qr_id caterer.id db) [
      | none ↦ (not_found, db)
      | some qrc ↦ if has_sent_quote qr_id db then (refused_after_send, db) else (
        declined,
        record db { qrcs = update_first (is_qrc_of qr_id caterer.id) reject_qrc db.qrcs },
      )
    ]
