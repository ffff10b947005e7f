-- ===== src/Examples/Administration.antt =====
-- Posts of an administrator and runs of every component on the orders of the shop.
use les_traiteurs_engages_v.Base.{
  List, [], fetch, find, modify, none, raise, raise_if, refl, return, some, true, ◌>>=◌, ◌>>◌, ◌∷◌,
  ◌≡◌, ◌⊎◌,
}
use les_traiteurs_engages_v.Console.{
  ConsoleAction, admin_order_transition, announce_transition, order_transition, perform_console,
  transition, transition_impossible,
}
use les_traiteurs_engages_v.Console.Journal.{Journalled, perform_console-Journalled}
use les_traiteurs_engages_v.Examples.Samples.{buyer, kitchen, shop}
use les_traiteurs_engages_v.Lifecycle.{Happening, administration, live, workflow}
use les_traiteurs_engages_v.Lifecycle.Machine.{Evolves}
use les_traiteurs_engages_v.Lifecycle.Refined.{live-Evolves}
use les_traiteurs_engages_v.Models.{User, UserRole}
use les_traiteurs_engages_v.Notifications.{notify_users}
use les_traiteurs_engages_v.Reviews.{is_ok}
use les_traiteurs_engages_v.Workflow.Run.{deliver}

abbrev boss : User
boss = record buyer { id = 900; role = UserRole.super_admin; company_id = none }

order_transition_bills : is_ok (order_transition boss (some "invoice") 32 shop).0 ≡ true
unfolding order_transition admin_order_transition announce_transition notify_users find fetch
    raise_if modify return ◌>>=◌ ◌>>◌
order_transition_bills = refl

order_transition_refuses :
    order_transition boss (some "pay") 32 shop ≡ (raise transition_impossible, shop)
unfolding order_transition admin_order_transition find fetch raise_if ◌>>=◌ ◌>>◌
order_transition_refuses = refl

abbrev approval : ConsoleAction
approval = ConsoleAction.approve 2

perform_console-Journalled_example :
    (perform_console boss approval shop ≡ shop)
    ⊎ Journalled boss shop approval (perform_console boss approval shop)
perform_console-Journalled_example = perform_console-Journalled boss approval shop

-- The delivered order is billed by hand, then paid by hand; another is handed over in between.
abbrev busy_day : List Happening
busy_day =
    administration boss (transition (some "invoice") 32)
    ∷ workflow (deliver 31 kitchen)
    ∷ administration boss (transition (some "pay") 32)
    ∷ []

live-Evolves_example : Evolves shop.orders (live busy_day shop).orders
live-Evolves_example = live-Evolves busy_day shop
