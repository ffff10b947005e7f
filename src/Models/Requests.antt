-- ===== src/Models/Requests.antt =====
-- models.py: the demands for quotes, the caterers solicited on each, and the quotes. A request's
-- columns are those that the workflow reads or writes.
use Prim.Native.Nat.{ℕ}
use Prim.Native.String.{String}
use mathlib.Core.Option.{Option}
use les_traiteurs_engages_v.Base.{Bool, List}
use les_traiteurs_engages_v.Models.Enums.{QrcStatus, QuoteRequestStatus, QuoteStatus}

pub record QuoteRequest : Type 0 where
  pub id : ℕ
  pub company_id : ℕ
  pub user_id : Option ℕ
  pub company_service_id : Option ℕ
  pub status : QuoteRequestStatus
  pub submission_token : Option String
  pub meal_type : Option String
  pub event_date : Option ℕ
  pub guest_count : Option ℕ
  pub event_address : Option String
  pub event_city : Option String
  pub event_zip_code : Option String
  pub drinks : Option (List String)
  pub drinks_alcohol : Bool
  pub is_compare_mode : Bool
  pub message_to_caterer : Option String

pub record QuoteRequestCaterer : Type 0 where
  pub id : ℕ
  pub quote_request_id : ℕ
  pub caterer_id : ℕ
  pub status : QrcStatus
  pub responded_at : Option ℕ
  pub response_rank : Option ℕ

-- `total_amount_ht` and `amount_per_person` are in cents.
pub record Quote : Type 0 where
  pub id : ℕ
  pub quote_request_id : ℕ
  pub caterer_id : ℕ
  pub reference : String
  pub total_amount_ht : Option ℕ
  pub amount_per_person : Option ℕ
  pub notes : Option String
  pub valid_until : Option ℕ
  pub status : QuoteStatus
  pub refusal_reason : Option String
  pub created_at : ℕ

-- `quantity` is in thousandths, `unit_price_ht` in cents, `tva_rate` in hundredths of a percent:
-- the scales of the columns.
pub record QuoteLine : Type 0 where
  pub quote_id : ℕ
  pub position : ℕ
  pub section : String
  pub description : Option String
  pub quantity : ℕ
  pub unit_price_ht : ℕ
  pub tva_rate : ℕ
