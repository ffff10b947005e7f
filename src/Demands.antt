-- ===== src/Demands.antt =====
-- blueprints/client/requests.py and blueprints/client/_helpers.py: the post of the wizard.
-- `parse_uuid` is `uuid.UUID`, `lower` is `str.lower`, and what WTForms says of the fields of a form
-- is a field of it.
pub mod Owned
pub mod Targets
pub mod Routed
pub mod Once
pub mod Edited
pub mod Editing
use text.Mathlib.Text.{◌==◌ as str_eq}
use les_traiteurs_engages_v.Base.{
  ◌>>◌, ◌>>=◌, Bool, Call, List, Option, String, [], exists, false, fetch, find, gets,
  if◌then◌else◌, is_empty, is_id, is_some, modify, none, not, raise_if, return, select, some, strip,
  text_or, text_or_none, true, ℕ, ◌&&◌, ◌+++◌, ◌++◌, ◌+◌, ◌==◌, ◌||◌, ◌∷◌,
}
use les_traiteurs_engages_v.Models.{
  Caterer, Database, QrcStatus, QuoteRequest, QuoteRequestCaterer, QuoteRequestStatus, User,
}
use les_traiteurs_engages_v.Notifications.{
  Notice, caterer_user_ids, is_text, notify_users, super_admin_user_ids,
}
use les_traiteurs_engages_v.Workflow.Approval.{guests_or_mark, received_notice}

-- The posted form: what the validators of WTForms answer, the raw text of the token, of the target and
-- of the service, the values of the fields that are modelled, and the raw fields of the check boxes.
pub record RequestForm : Type 0 where
  pub fields_valid : Bool
  pub form_token : Option String
  pub target_caterer_id : Option String
  pub company_service_id : Option String
  pub meal_type : Option String
  pub event_date : Option ℕ
  pub guest_count : Option ℕ
  pub event_address : Option String
  pub event_city : Option String
  pub event_zip_code : Option String
  pub is_compare_mode : Bool
  pub message_to_caterer : Option String
  pub ticked : String → Option String

-- The answers that are not the redirect to the new request: the redirect to the one that the token
-- has made, the page with status 400, and the exception of the database.
pub data DemandError : Type 0 where
  already_sent : ℕ → DemandError
  invalid_form integrity_error : DemandError

abbrev Demanding : Type 0 → Type 0
Demanding = Call Database DemandError

-- DRINK_LABELS and ALCOHOLIC_DRINKS.
abbrev drink_labels : List String
drink_labels =
    "drinks_eau_plate" ∷ "drinks_eau_gazeuse" ∷ "drinks_soft" ∷ "drinks_bieres" ∷ "drinks_vins"
    ∷ "drinks_champagne" ∷ "drinks_boissons_chaudes" ∷ []

unfoldable pub is_alcoholic : String → Bool
is_alcoholic slug =
    str_eq slug "drinks_bieres" || str_eq slug "drinks_vins" || str_eq slug "drinks_champagne"

-- A caterer's offerings, as a set.
abbrev is_offered : List String → String → Bool
is_offered offerings slug = exists (λ o. str_eq o slug) offerings

-- `validate_meal_type`, with the offerings of the target if there is one.
abbrev validate_meal_type : Option Caterer → Option String → Bool
validate_meal_type none meal = true
validate_meal_type (some c) none = true
validate_meal_type (some c) (some meal) = is_empty meal || is_offered c.service_offerings meal

-- A request of the company with the token.
abbrev is_submission : String → Option ℕ → QuoteRequest → Bool
is_submission token company r = is_text r.submission_token token && is_id company r.company_id

-- `select(QuoteRequest).where(...)` on the token, which is skipped without one.
abbrev existing_submission : Option String → Option ℕ → Database → Option QuoteRequest
existing_submission none company db = none
existing_submission (some token) company db = find (is_submission token company) db.requests

-- The unique constraint on `submission_token`, which NULL never violates.
abbrev is_token_taken : Option String → Database → Bool
is_token_taken none db = false
is_token_taken (some token) db = exists (λ r. is_text r.submission_token token) db.requests

abbrev demand_status : Option Caterer → Bool → QuoteRequestStatus
demand_status (some c) compare = QuoteRequestStatus.sent_to_caterers
demand_status none compare =
    if compare then QuoteRequestStatus.pending_review else QuoteRequestStatus.sent_to_caterers

-- `is_compare`, which a target turns off.
abbrev demand_compares : Option Caterer → RequestForm → Bool
demand_compares (some c) form = false
demand_compares none form = form.is_compare_mode

abbrev qualify_notice : QuoteRequest → Notice
qualify_notice qr = record {
  type = "quote_request_to_qualify";
  title = "Nouvelle demande à qualifier";
  body =
      "Une demande de "
      +++ (guests_or_mark qr.guest_count
          +++ (" convives à "
              +++ (text_or qr.event_city "lieu non renseigné" +++ " attend qualification.")));
  related_entity_type = some "quote_request";
  related_entity_id = some qr.id;
}

abbrev selected_qrc : ℕ → ℕ → ℕ → QuoteRequestCaterer
selected_qrc id request_id caterer_id = record {
  id = id;
  quote_request_id = request_id;
  caterer_id = caterer_id;
  status = QrcStatus.selected;
  responded_at = none;
  response_rank = none;
}

abbrev is_pending_review : QuoteRequestStatus → Bool
is_pending_review QuoteRequestStatus.pending_review = true
is_pending_review _ = false

-- After the insertion: a target gets its row and its users are told; a demand to qualify is told to
-- the administrators.
unfoldable pub route_demand : Option Caterer → QuoteRequest → Database → Database
route_demand (some c) qr db =
    let db' = record db {
      qrcs = db.qrcs ++ selected_qrc (db.uuid4 db.drawn) qr.id c.id ∷ [];
      drawn = db.drawn + 1;
    } in
    notify_users (caterer_user_ids (some c.id) db') (received_notice qr) db'
route_demand none qr db =
    if is_pending_review qr.status
    then notify_users (super_admin_user_ids db) (qualify_notice qr) db
    else db

abbrev add_request : QuoteRequest → Database → Database
add_request qr db = record db { requests = db.requests ++ qr ∷ []; drawn = db.drawn + 1 }

-- `except IntegrityError`: the session is rolled back, and nothing has been written before.
abbrev on_clash : Option String → Option ℕ → Database → DemandError
on_clash token company db = elim (existing_submission token company db) [
  | none ↦ integrity_error
  | some qr ↦ already_sent qr.id
]

module _ (lower : String → String) (parse_uuid : String → Option ℕ) where
  -- `form_token`: stripped, and dropped if it is no UUID.
  abbrev clean_token : Option String → Option String
  clean_token raw =
      let token = strip (text_or raw "") in
      if is_empty token then none else elim (parse_uuid token) [ none ↦ none | some u ↦ some token ]

  unfoldable pub resolve_target_caterer : Option String → Database → Option Caterer
  resolve_target_caterer raw_id db =
      let raw = strip (text_or raw_id "") in
      if is_empty raw then none else elim (parse_uuid raw) [
        | none ↦ none
        | some cid ↦ find (λ c. c.id == cid && c.is_validated) db.caterers
      ]

  unfoldable pub own_service_id : User → Option String → Database → Option ℕ
  own_service_id user none db = none
  own_service_id user (some raw) db = if is_empty raw then none else elim (parse_uuid raw) [
    | none ↦ none
    | some candidate ↦
        elim (find (λ s. s.id == candidate && is_id user.company_id s.company_id) db.services) [
          | none ↦ none
          | some s ↦ some s.id
        ]
  ]

  -- `apply_drinks`.
  abbrev is_ticked : RequestForm → String → Bool
  is_ticked form slug =
      let v = lower (strip (text_or (form.ticked slug) "")) in
      str_eq v "1" || str_eq v "true" || str_eq v "on" || str_eq v "yes"

  unfoldable pub selected_drinks : RequestForm → List String
  selected_drinks form = select (is_ticked form) drink_labels

  abbrev or_null : List String → Option (List String)
  or_null [] = none
  or_null (s ∷ ss) = some (s ∷ ss)

  -- `apply_quote_request_form`, then `apply_drinks`.
  unfoldable pub apply_form : RequestForm → QuoteRequest → QuoteRequest
  apply_form form qr = record qr {
    meal_type = text_or_none form.meal_type;
    event_date = form.event_date;
    guest_count = form.guest_count;
    event_address = text_or_none form.event_address;
    event_city = text_or_none form.event_city;
    event_zip_code = text_or_none form.event_zip_code;
    is_compare_mode = form.is_compare_mode;
    message_to_caterer = text_or_none form.message_to_caterer;
    drinks = or_null (selected_drinks form);
    drinks_alcohol = exists is_alcoholic (selected_drinks form);
  }

  abbrev blank_request : ℕ → ℕ → ℕ → Option ℕ → QuoteRequestStatus → Option String → QuoteRequest
  blank_request id company user_id service status token = record {
    id = id;
    company_id = company;
    user_id = some user_id;
    company_service_id = service;
    status = status;
    submission_token = token;
    meal_type = none;
    event_date = none;
    guest_count = none;
    event_address = none;
    event_city = none;
    event_zip_code = none;
    drinks = none;
    drinks_alcohol = false;
    is_compare_mode = false;
    message_to_caterer = none;
  }

  -- The row that is inserted, its `is_compare_mode` set again after the form's.
  unfoldable pub new_request : User → RequestForm → ℕ → Option Caterer → Database → QuoteRequest
  new_request user form company target db =
      record (apply_form form (
        blank_request (db.uuid4 db.drawn) company user.id
          (own_service_id user form.company_service_id db)
          (demand_status target form.is_compare_mode) (clean_token form.form_token))) {
            is_compare_mode = demand_compares target form;
          }

  -- The insertion and what follows it.
  unfoldable pub insert_demand : User → RequestForm → Option Caterer → Demanding ℕ
  insert_demand user form target = do
    clash ← gets (on_clash (clean_token form.form_token) user.company_id)
    taken ← gets (is_token_taken (clean_token form.form_token))
    raise_if taken clash
    company ← fetch (λ db. user.company_id) clash
    qr ← gets (new_request user form company target)
    modify (add_request qr)
    modify (route_demand target qr)
    return qr.id

  unfoldable pub requests_new_post : User → RequestForm → Demanding ℕ
  requests_new_post user form = do
    sent ← gets (existing_submission (clean_token form.form_token) user.company_id)
    raise_if (is_some sent) (elim sent [ none ↦ invalid_form | some qr ↦ already_sent qr.id ])
    target ← gets (resolve_target_caterer form.target_caterer_id)
    raise_if (not (form.fields_valid && validate_meal_type target form.meal_type)) invalid_form
    insert_demand user form target
