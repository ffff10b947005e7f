-- ===== src/Notifications/Pages/Leads.antt =====
-- The page that a notification leads to, by the kind of its entity.
use text.Mathlib.TextEquality.{eq_iff}
use text.Mathlib.Text.{◌==◌ as str_eq}
use les_traiteurs_engages_v.Base.{
  Bool, Option, String, arith, false, if◌then◌else◌, inl, inr, none, refl, some, some_inj, subst,
  sym, true, ℕ, ◌&&◌, ◌≡◌, ◌⊎◌,
}
use les_traiteurs_engages_v.Models.{
  Database, Message, Quote, UserRole, is_client_admin, is_super_admin, quote_by,
}
use les_traiteurs_engages_v.Notifications.Pages.{
  Page, area, caterer_page, dashboard_page, entity_target, inbox_page, is_client, message_by,
  message_target, order_page, quote_target, request_page, team_page, thread_page,
}

-- The page of each kind of entity.
pub data Leads (id : ℕ) (role : UserRole) (db : Database) : String → Page → Type 0 where
  to_request : Leads id role db "quote_request" (request_page (area role) id)
  to_order : Leads id role db "order" (order_page (area role) id)
  to_quote :
      (q : Quote)
      → quote_by id db ≡ some q
      → Leads id role db "quote" (request_page (area role) q.quote_request_id)
  to_team : is_client_admin role ≡ true → Leads id role db "user" team_page
  to_caterer : Leads id role db "caterer" (caterer_page id)
  to_dashboard : Leads id role db "company" dashboard_page
  to_thread :
      (m : Message)
      → message_by id db ≡ some m
      → Leads id role db "message" (thread_page (area role) m.thread_id)
  to_inbox : Leads id role db "message" inbox_page

module _ (id : ℕ) (db : Database) where
  quote-Leads :
      (role : UserRole) (o : Option Quote) (page : Page)
      → quote_by id db ≡ o
      → quote_target role o ≡ some page
      → Leads id role db "quote" page
  quote-Leads role none page e h = cc
  quote-Leads UserRole.super_admin (some q) page e h = cc
  quote-Leads UserRole.client_admin (some q) page e h =
      subst (Leads id UserRole.client_admin db "quote") (some_inj h) (to_quote q e)
  quote-Leads UserRole.client_user (some q) page e h =
      subst (Leads id UserRole.client_user db "quote") (some_inj h) (to_quote q e)
  quote-Leads UserRole.caterer (some q) page e h =
      subst (Leads id UserRole.caterer db "quote") (some_inj h) (to_quote q e)

  message-Leads :
      (role : UserRole) (o : Option Message) (page : Page)
      → message_by id db ≡ o
      → message_target role o ≡ some page
      → Leads id role db "message" page
  message-Leads role none page e h = cc
  message-Leads UserRole.super_admin (some m) page e h =
      subst (Leads id UserRole.super_admin db "message") (some_inj h) to_inbox
  message-Leads UserRole.client_admin (some m) page e h =
      subst (Leads id UserRole.client_admin db "message") (some_inj h) (to_thread m e)
  message-Leads UserRole.client_user (some m) page e h =
      subst (Leads id UserRole.client_user db "message") (some_inj h) (to_thread m e)
  message-Leads UserRole.caterer (some m) page e h =
      subst (Leads id UserRole.caterer db "message") (some_inj h) (to_thread m e)

  module _ (role : UserRole) (kind : String) (page : Page) where
    as_kind :
        (literal : String)
        → str_eq kind literal ≡ true
        → Leads id role db literal page
        → Leads id role db kind page
    as_kind literal k l = subst (λ z. Leads id role db z page) (sym ((eq_iff kind literal).0 k)) l

    landed :
        (literal : String) (other : Page)
        → some other ≡ some page
        → str_eq kind literal ≡ true
        → Leads id role db literal other
        → Leads id role db kind page
    landed literal other e k l = as_kind literal k (subst (Leads id role db literal) (some_inj e) l)

    choice :
        (b : Bool) (x y : Option Page)
        → (if b then x else y) ≡ some page
        → ((b ≡ true) × (x ≡ some page)) ⊎ ((b ≡ false) × (y ≡ some page))
    choice true x y h = inl (refl, h)
    choice false x y h = inr (refl, h)

    pub target-Leads : entity_target (some kind) id role db ≡ some page → Leads id role db kind page
    unfolding entity_target
    target-Leads h = elim (choice (str_eq kind "quote_request") _ _ h) [
      | inl (k, e) ↦ landed "quote_request" _ e k to_request
      | inr (_, h1) ↦ elim (choice (str_eq kind "order") _ _ h1) [
        | inl (k, e) ↦ landed "order" _ e k to_order
        | inr (_, h2) ↦ elim (choice (str_eq kind "quote") _ _ h2) [
          | inl (k, e) ↦ as_kind "quote" k (quote-Leads role (quote_by id db) page refl e)
          | inr (_, h3) ↦ elim (choice (str_eq kind "user" && is_client_admin role) _ _ h3) [
            | inl (k, e) ↦ landed "user" _ e (ground arith) (to_team (ground arith))
            | inr (_, h4) ↦ elim (choice (str_eq kind "caterer" && is_super_admin role) _ _ h4) [
              | inl (k, e) ↦ landed "caterer" _ e (ground arith) to_caterer
              | inr (_, h5) ↦ elim (choice (str_eq kind "company" && is_client role) _ _ h5) [
                | inl (k, e) ↦ landed "company" _ e (ground arith) to_dashboard
                | inr (_, h6) ↦ elim (choice (str_eq kind "message") _ _ h6) [
                  | inl (k, e) ↦
                      as_kind "message" k (message-Leads role (message_by id db) page refl e)
                  | inr (_, e) ↦ cc
                ]
              ]
            ]
          ]
        ]
      ]
    ]
