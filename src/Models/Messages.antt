-- ===== src/Models/Messages.antt =====
-- models.py: notifications, messages, reviews and the audit journal.
use Prim.Native.Nat.{ℕ}
use Prim.Native.String.{String}
use mathlib.Core.Bool.{Bool}
use mathlib.Core.Option.{Option}

pub record Notification : Type 0 where
  pub id : ℕ
  pub user_id : ℕ
  pub type : String
  pub title : String
  pub body : String
  pub is_read : Bool
  pub related_entity_type : Option String
  pub related_entity_id : Option ℕ

pub record Message : Type 0 where
  pub id : ℕ
  pub thread_id : ℕ
  pub sender_id : ℕ
  pub recipient_id : ℕ
  pub order_id : Option ℕ
  pub quote_request_id : Option ℕ
  pub body : String
  pub is_read : Bool

pub record CatererReview : Type 0 where
  pub id : ℕ
  pub caterer_id : ℕ
  pub order_id : ℕ
  pub reviewer_user_id : ℕ
  pub rating : ℕ
  pub comment : Option String

pub record AuditLog : Type 0 where
  pub actor_id : Option ℕ
  pub actor_email : Option String
  pub action : String
  pub target_type : Option String
  pub target_id : Option ℕ
