-- ===== src/Models/Accounts.antt =====
-- models.py: companies, caterers and the people who sign in. An identifier (a UUID) is a number,
-- a date a day number and a timestamp a number of seconds. Columns that only pages display are
-- left out: they change no outcome of what is modelled.
use Prim.Native.Nat.{ℕ}
use Prim.Native.String.{String}
use mathlib.Core.Bool.{Bool}
use mathlib.Core.Option.{Option}
use les_traiteurs_engages_v.Base.{List}
use les_traiteurs_engages_v.Models.Enums.{MembershipStatus, UserRole}

pub record Company : Type 0 where
  pub id : ℕ
  pub name : String
  pub siret : String
  pub logo_url : Option String

-- `commission_rate` is in units of 0.0001; a NULL among the offerings reads as the empty list.
pub record Caterer : Type 0 where
  pub id : ℕ
  pub name : String
  pub siret : String
  pub structure_type : String
  pub is_validated : Bool
  pub service_offerings : List String
  pub commission_rate : ℕ
  pub logo_url : Option String
  pub stripe_account_id : Option String
  pub stripe_charges_enabled : Option Bool
  pub stripe_payouts_enabled : Option Bool
  pub invoice_prefix : Option String

-- The day of effect, and the time of creation.
pub record TermsVersion : Type 0 where
  pub id : ℕ
  pub slug : String
  pub title : String
  pub template_name : String
  pub effective_at : ℕ
  pub created_at : ℕ

pub record User : Type 0 where
  pub id : ℕ
  pub email : String
  pub password_hash : String
  pub first_name : String
  pub last_name : String
  pub role : UserRole
  pub company_id : Option ℕ
  pub caterer_id : Option ℕ
  pub is_active : Bool
  pub membership_status : Option MembershipStatus
  pub stripe_customer_id : Option String
  pub password_changed_at : Option ℕ
  pub terms_accepted_version_id : Option ℕ
  pub terms_accepted_at : Option ℕ

pub record CompanyService : Type 0 where
  pub id : ℕ
  pub company_id : ℕ
  pub name : String
  pub description : Option String
  pub annual_budget : Option ℕ

pub record CompanyEmployee : Type 0 where
  pub id : ℕ
  pub company_id : ℕ
  pub service_id : Option ℕ
  pub first_name : String
  pub last_name : String
  pub email : String
  pub position : Option String
  pub invited_at : Option ℕ
  pub invite_token : Option String
  pub user_id : Option ℕ

pub record PasswordResetToken : Type 0 where
  pub id : ℕ
  pub user_id : ℕ
  pub token : String
  pub expires_at : ℕ
  pub used_at : Option ℕ
