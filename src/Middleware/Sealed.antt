-- ===== src/Middleware/Sealed.antt =====
-- What the decorators let through.
use les_traiteurs_engages_v.Accounts.{Cookie, load_current_user}
use les_traiteurs_engages_v.Accounts.Session.{Admitted, load_current_user-Admitted}
use les_traiteurs_engages_v.Base.{
  ap, Bool-cases, List, Option, String, [], arith, exists, false, inl, inr, none, refl, some, true,
  ℕ, ◌∙◌, ◌∷◌, ◌≡◌, ◌⊎◌,
}
use les_traiteurs_engages_v.Middleware.{
  PageReply, View, caterer_of, is_validated_of, login_required, role_required, same_role,
  validated_caterer_required,
}
use les_traiteurs_engages_v.Middleware.Posts.{
  Post, answer, decorated, on_console, on_editor, on_team, roles_of, view,
}
use les_traiteurs_engages_v.Models.{Database, User, UserRole, is_caterer}

-- Beyond the role, the editor needs a caterer who is validated.
abbrev HasKitchen : Post → User → Database → Type 0
HasKitchen (on_editor a) user db = is_validated_of (caterer_of user db) ≡ true
HasKitchen (on_console a) user db = Unit
HasKitchen (on_team a) user db = Unit

-- The user of the cookie, of a role that the post is for.
pub record LetIn (cookie : Cookie) (post : Post) (db : Database) (user : User) : Type 0 where
  pub admitted : Admitted cookie db user
  pub has_role : exists (same_role user.role) (roles_of post) ≡ true
  pub has_kitchen : HasKitchen post user db

role_required-through :
    {A : Type 0} (roles : List UserRole) (f : View A) (user : User) (db : Database)
    → ((login_required (role_required roles f) (some user) db).1 ≡ db)
      ⊎ ((exists (same_role user.role) roles ≡ true)
          × (login_required (role_required roles f) (some user) db ≡ f (some user) db))
unfolding login_required role_required
role_required-through roles f user db = elim (Bool-cases (exists (same_role user.role) roles)) [
  | inl of_role ↦ inr (of_role, rw of_role refl)
  | inr other ↦ inl (rw other refl)
]

-- A caterer's role is tested before the kitchen is.
kitchen_required-through :
    {A : Type 0} (f : View A) (user : User) (db : Database)
    → exists (same_role user.role) (UserRole.caterer ∷ []) ≡ true
    → ((validated_caterer_required false f (some user) db).1 ≡ db)
      ⊎ ((is_validated_of (caterer_of user db) ≡ true)
          × (validated_caterer_required false f (some user) db ≡ f (some user) db))
unfolding validated_caterer_required exists
kitchen_required-through f user db of_role =
    elim (Bool-cases (is_validated_of (caterer_of user db))) [
      | inl valid ↦ inr (valid, rw (a_caterer user.role of_role, valid) refl)
      | inr invalid ↦ inl (rw (a_caterer user.role of_role, invalid) refl)
    ]
  where
    a_caterer :
        (role : UserRole)
        → exists (same_role role) (UserRole.caterer ∷ []) ≡ true
        → is_caterer role ≡ true
    a_caterer role h = ground (arith, h)

-- A post behind its decorators changes nothing, unless its cookie is that of an active user without a
-- blocked membership, who has logged in with the present password and is of the role that the page is
-- for, on the editor moreover of a caterer who is validated; then it answers what the view answers for
-- that user.
pub answer-Sealed :
    (lower sha256 : String → String) (one : ℕ) (round : ℕ → ℕ → ℕ) (year_of : ℕ → ℕ)
    (cookie : Cookie) (post : Post) (db : Database)
    → ((answer lower sha256 one round year_of cookie post db).1 ≡ db)
      ⊎ ((user : User) × LetIn cookie post db user
          × (answer lower sha256 one round year_of cookie post db
              ≡ view lower sha256 one round year_of post (some user) db))
unfolding answer decorated login_required
answer-Sealed lower sha256 one round year_of cookie post db =
    by_user post (load_current_user cookie db).0 refl
  where
    seen : Post → View (Unit {0})
    seen = view lower sha256 one round year_of

    Sealed : Post → PageReply (Unit {0}) × Database → Type 0
    Sealed post r =
        (r.1 ≡ db) ⊎ ((user : User) × LetIn cookie post db user × (r ≡ seen post (some user) db))

    let_in :
        (post : Post) (user : User)
        → (load_current_user cookie db).0 ≡ some user
        → exists (same_role user.role) (roles_of post) ≡ true
        → HasKitchen post user db
        → LetIn cookie post db user
    let_in post user loaded of_role kitchen = record {
      admitted = load_current_user-Admitted cookie db user loaded;
      has_role = of_role;
      has_kitchen = kitchen;
    }

    by_user :
        (post : Post) (o : Option User)
        → (load_current_user cookie db).0 ≡ o
        → Sealed post (decorated lower sha256 one round year_of post o db)
    by_user (on_console a) none loaded = inl refl
    by_user (on_team a) none loaded = inl refl
    by_user (on_editor a) none loaded = inl refl
    by_user (on_console a) (some user) loaded =
        elim (role_required-through (roles_of (on_console a)) (seen (on_console a)) user db) [
          | inl kept ↦ inl kept
          | inr (of_role, same) ↦ inr (user, let_in (on_console a) user loaded of_role tt, same)
        ]
    by_user (on_team a) (some user) loaded =
        elim (role_required-through (roles_of (on_team a)) (seen (on_team a)) user db) [
          | inl kept ↦ inl kept
          | inr (of_role, same) ↦ inr (user, let_in (on_team a) user loaded of_role tt, same)
        ]
    by_user (on_editor a) (some user) loaded =
        elim (role_required-through (roles_of (on_editor a))
          (validated_caterer_required false (seen (on_editor a))) user db) [
            | inl kept ↦ inl kept
            | inr (of_role, same) ↦
                elim (kitchen_required-through (seen (on_editor a)) user db of_role) [
                  | inl kept ↦ inl (ap (λ r. r.1) same ∙ kept)
                  | inr (valid, through) ↦
                      inr (user, let_in (on_editor a) user loaded of_role valid, same ∙ through)
                ]
          ]
