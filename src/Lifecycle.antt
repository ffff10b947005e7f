-- ===== src/Lifecycle.antt =====
-- The life of an order, across the components that write its status: services/workflow.py,
-- services/billing_tasks.py, the webhook of blueprints/api.py and blueprints/admin.py. A run is any
-- sequence of their transactions.
pub mod Machine
pub mod Orders
pub mod Refined
use les_traiteurs_engages_v.Base.{List, Option, String, [], ℕ, ◌∷◌}
use les_traiteurs_engages_v.Console.{ConsoleAction, perform_console}
use les_traiteurs_engages_v.Invoicing.{StripeAnswers, send_invoice_for_order}
use les_traiteurs_engages_v.Models.{Database, User}
use les_traiteurs_engages_v.Webhook.{Event, stripe_webhook}
use les_traiteurs_engages_v.Workflow.Run.{Action, perform}

pub data Happening : Type 0 where
  workflow : Action → Happening
  billing : StripeAnswers → ℕ → Happening
  webhook : String → Option Event → Happening
  administration : User → ConsoleAction → Happening

unfoldable pub happen : Happening → Database → Database
happen (workflow a) db = perform a db
happen (billing answer order_id) db = send_invoice_for_order answer order_id db
happen (webhook secret event) db = (stripe_webhook secret event db).1
happen (administration actor a) db = perform_console actor a db

unfoldable pub live : List Happening → Database → Database
live [] db = db
live (h ∷ hs) db = live hs (happen h db)
