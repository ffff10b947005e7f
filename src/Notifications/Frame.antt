-- ===== src/Notifications/Frame.antt =====
-- Raising notifications changes no other table.
use les_traiteurs_engages_v.Base.{List, Option, ap, refl, ℕ, ◌∙◌, ◌≡◌}
use les_traiteurs_engages_v.Models.{Database}
use les_traiteurs_engages_v.Notifications.{Notice, notify, notify_users}

-- The two states differ at most in the notifications and the identifiers drawn.
abbrev pub OnlyNotifies : Database → Database → Type 0
OnlyNotifies db db' = db' ≡ record db { notifications = db'.notifications; drawn = db'.drawn }

pub notify_users-OnlyNotifies :
    (us : List (Option ℕ)) (n : Notice) (db : Database) → OnlyNotifies db (notify_users us n db)
unfolding notify_users
notify_users-OnlyNotifies us n db = refl

pub notify-OnlyNotifies : (u : ℕ) (n : Notice) (db : Database) → OnlyNotifies db (notify u n db)
unfolding notify
notify-OnlyNotifies u n db = refl

abbrev with_news : Database → Database → Database
with_news c d = record d { notifications = c.notifications; drawn = c.drawn }

pub OnlyNotifies-trans : (a b c : Database) → OnlyNotifies a b → OnlyNotifies b c → OnlyNotifies a c
OnlyNotifies-trans a b c h k = k ∙ ap {A = Database} (with_news c) h

-- The equations that such a pair of states comes down to, for the tables of the workflow.
pub record SameRows (db db' : Database) : Type 0 where
  pub caterers : db'.caterers ≡ db.caterers
  pub users : db'.users ≡ db.users
  pub requests : db'.requests ≡ db.requests
  pub qrcs : db'.qrcs ≡ db.qrcs
  pub quotes : db'.quotes ≡ db.quotes
  pub orders : db'.orders ≡ db.orders
  pub payments : db'.payments ≡ db.payments
  pub reviews : db'.reviews ≡ db.reviews
  pub stripe_events : db'.stripe_events ≡ db.stripe_events
  pub audit_logs : db'.audit_logs ≡ db.audit_logs

pub OnlyNotifies-SameRows : (db db' : Database) → OnlyNotifies db db' → SameRows db db'
OnlyNotifies-SameRows db db' h = record {
  caterers = ap (λ d. d.caterers) h;
  users = ap (λ d. d.users) h;
  requests = ap (λ d. d.requests) h;
  qrcs = ap (λ d. d.qrcs) h;
  quotes = ap (λ d. d.quotes) h;
  orders = ap (λ d. d.orders) h;
  payments = ap (λ d. d.payments) h;
  reviews = ap (λ d. d.reviews) h;
  stripe_events = ap (λ d. d.stripe_events) h;
  audit_logs = ap (λ d. d.audit_logs) h;
}
