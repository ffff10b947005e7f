-- ===== src/Middleware.antt =====
-- blueprints/middleware.py: the decorators of the views. `g.current_user` is an argument of a view.
pub mod Posts
pub mod Sealed
use les_traiteurs_engages_v.Base.{
  Bool, List, Option, exists, false, find, if◌then◌else◌, none, not, some, true, ◌==◌,
}
use les_traiteurs_engages_v.Models.{Caterer, Database, User, UserRole, is_caterer}

-- The answers of the decorators, the exception of a view without its user, and the view's own.
pub data PageReply (A : Type 0) : Type 0 where
  to_login forbidden to_pending caterer_not_validated server_error : PageReply A
  page : A → PageReply A

abbrev pub View : Type 0 → Type 0
View A = Option User → Database → PageReply A × Database

-- `g.current_user.role == role`.
abbrev pub same_role : UserRole → UserRole → Bool
same_role UserRole.client_admin UserRole.client_admin = true
same_role UserRole.client_user UserRole.client_user = true
same_role UserRole.caterer UserRole.caterer = true
same_role UserRole.super_admin UserRole.super_admin = true
same_role _ _ = false

-- `user.caterer`.
abbrev pub caterer_of : User → Database → Option Caterer
caterer_of user db = elim user.caterer_id [
  | none ↦ none
  | some id ↦ find (λ c. c.id == id) db.caterers
]

abbrev pub is_validated_of : Option Caterer → Bool
is_validated_of none = false
is_validated_of (some c) = c.is_validated

module _ {A : Type 0} where
  unfoldable pub login_required : View A → View A
  login_required f none db = (to_login, db)
  login_required f (some user) db = f (some user) db

  unfoldable pub role_required : List UserRole → View A → View A
  role_required roles f none db = (to_login, db)
  role_required roles f (some user) db =
      if exists (same_role user.role) roles then f (some user) db else (forbidden, db)

  -- Whether the view is of the blueprint `api` is an argument.
  unfoldable pub validated_caterer_required : Bool → View A → View A
  validated_caterer_required on_api f none db = (to_login, db)
  validated_caterer_required on_api f (some user) db =
      if not (is_caterer user.role)
      then f (some user) db
      else if is_validated_of (caterer_of user db)
      then f (some user) db
      else (if on_api then caterer_not_validated else to_pending, db)
