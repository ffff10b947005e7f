-- ===== src/Middleware/Posts.antt =====
-- The posts of the administrator, of the team page and of the quote editor behind their decorators,
-- from the cookie on.
use les_traiteurs_engages_v.Accounts.{Cookie, load_current_user}
use les_traiteurs_engages_v.Base.{List, String, [], false, none, some, ℕ, ◌∷◌}
use les_traiteurs_engages_v.Console.{ConsoleAction, perform_console}
use les_traiteurs_engages_v.Editor.Posts.{EditorAction, edit}
use les_traiteurs_engages_v.Middleware.{
  PageReply, View, caterer_of, login_required, page, role_required, server_error,
  validated_caterer_required,
}
use les_traiteurs_engages_v.Models.{Caterer, Database, UserRole}
use les_traiteurs_engages_v.Team.Run.{TeamAction, perform_team}

-- A post of the editor is of the caterer of its user.
pub data Post : Type 0 where
  on_console : ConsoleAction → Post
  on_team : TeamAction → Post
  on_editor : (Caterer → EditorAction) → Post

-- The roles that a post is for.
abbrev pub roles_of : Post → List UserRole
roles_of (on_console a) = UserRole.super_admin ∷ []
roles_of (on_team a) = UserRole.client_admin ∷ []
roles_of (on_editor a) = UserRole.caterer ∷ []

module _ (lower sha256 : String → String) (one : ℕ) (round : ℕ → ℕ → ℕ) (year_of : ℕ → ℕ) where
  -- The views themselves. A user of no company finds no row on the team page and can add none.
  unfoldable pub view : Post → View (Unit {0})
  view post none db = (server_error, db)
  view (on_console a) (some user) db = (page tt, perform_console user a db)
  view (on_team a) (some user) db = elim user.company_id [
    | none ↦ (server_error, db)
    | some company ↦ (page tt, perform_team lower sha256 company user.id a db)
  ]
  view (on_editor a) (some user) db = elim (caterer_of user db) [
    | none ↦ (server_error, db)
    | some caterer ↦ (page tt, (edit one round year_of (a caterer) db).1)
  ]

  unfoldable pub decorated : Post → View (Unit {0})
  decorated (on_console a) =
      login_required (role_required (roles_of (on_console a)) (view (on_console a)))
  decorated (on_team a) = login_required (role_required (roles_of (on_team a)) (view (on_team a)))
  decorated (on_editor a) = login_required (
      role_required (roles_of (on_editor a))
        (validated_caterer_required false (view (on_editor a))))

  -- A request: its user is loaded, then the decorated view runs.
  unfoldable pub answer : Cookie → Post → Database → PageReply (Unit {0}) × Database
  answer cookie post db = decorated post (load_current_user cookie db).0 db
