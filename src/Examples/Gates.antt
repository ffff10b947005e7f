-- ===== src/Examples/Gates.antt =====
-- Posts of the shop behind their decorators.
use les_traiteurs_engages_v.Accounts.{Cookie, cleared, load_current_user, stamp_session}
use les_traiteurs_engages_v.Base.{exists, find, refl, some, ◌≡◌, ◌⊎◌}
use les_traiteurs_engages_v.Console.{ConsoleAction}
use les_traiteurs_engages_v.Editor.Posts.{decline}
use les_traiteurs_engages_v.Examples.Samples.{buyer, cook, shop}
use les_traiteurs_engages_v.Examples.Toys.{keep_text}
use les_traiteurs_engages_v.Middleware.{
  PageReply, forbidden, login_required, page, role_required, to_login, validated_caterer_required,
}
use les_traiteurs_engages_v.Middleware.Posts.{Post, answer, decorated, on_console, on_editor, view}
use les_traiteurs_engages_v.Middleware.Sealed.{LetIn, answer-Sealed}
use les_traiteurs_engages_v.Models.{Database, User}

abbrev refusal : Post
refusal = on_editor (λ c. decline 8 2026 c 1)

abbrev answered : Cookie → Post → PageReply (Unit {0}) × Database
answered cookie post = answer keep_text keep_text 1000 (λ s n. n) (λ t. 2026) cookie post shop

answer-Sealed_example :
    ((answered (stamp_session cook) refusal).1 ≡ shop)
    ⊎ ((user : User) × LetIn (stamp_session cook) refusal shop user
        × (answered (stamp_session cook) refusal
            ≡ view keep_text keep_text 1000 (λ s n. n) (λ t. 2026) refusal (some user) shop))
answer-Sealed_example =
    answer-Sealed keep_text keep_text 1000 (λ s n. n) (λ t. 2026) (stamp_session cook) refusal shop

cook_is_let_in : (answered (stamp_session cook) refusal).0 ≡ page tt
unfolding answer decorated load_current_user login_required role_required validated_caterer_required
    view find exists
cook_is_let_in = refl

nobody_is_sent_to_login : answered cleared refusal ≡ (to_login, shop)
unfolding answer decorated load_current_user login_required find
nobody_is_sent_to_login = refl

buyer_is_no_admin :
    answered (stamp_session buyer) (on_console (ConsoleAction.validate 60)) ≡ (forbidden, shop)
unfolding answer decorated load_current_user login_required role_required find exists
buyer_is_no_admin = refl
