-- ===== src/Messaging/Rivals.antt =====
-- Competitors do not write to each other.
use les_traiteurs_engages_v.Base.{
  Ensures, Ensures-map, IsKeyed, List, Option, String, arith, false, find, inl, inr, none, some,
  some_inj, subst, sym, true, ℕ, ◌==◌, ◌∙◌, ◌≡◌, ◌≢◌,
}
use les_traiteurs_engages_v.Messaging.{is_support, reaches, send_message}
use les_traiteurs_engages_v.Messaging.Recipients.{rivals_apart}
use les_traiteurs_engages_v.Messaging.Sending.{Sent, send_message-Sent}
use les_traiteurs_engages_v.Models.{Database, Message, User, is_super_admin}

-- A user of one caterer cannot send a message to a user of another, whatever is in their thread and
-- whatever order or request it is tied to: every call is refused and changes nothing. Neither of them
-- is of a company or an administrator, and identifiers of users are distinct.
pub send_message_rival :
    (lower : String → String) (support_emails : List String) (user rival : User) (mine theirs : ℕ)
    (body_raw : Option String) (order_id quote_request_id : Option ℕ) (db : Database)
    → IsKeyed (λ (u : User). u.id) db.users
    → is_super_admin user.role ≡ false
    → user.company_id ≡ none
    → user.caterer_id ≡ some mine
    → find (λ u. u.id == rival.id) db.users ≡ some rival
    → is_super_admin rival.role ≡ false
    → rival.company_id ≡ none
    → rival.caterer_id ≡ some theirs
    → mine ≢ theirs
    → Ensures
        (λ e s. s ≡ db)
        (λ message s. ⊥)
        (send_message lower support_emails user
          (some rival.id)
          body_raw
          order_id
          quote_request_id
          db)
send_message_rival lower support_emails user rival mine theirs body_raw order_id quote_request_id db
      keyed ordinary a b there plain c d differs =
    Ensures-map
      (send_message lower support_emails user (some rival.id) body_raw order_id quote_request_id db)
      (λ e s h. h) refuse
      (send_message-Sent lower support_emails user (some rival.id) body_raw order_id
        quote_request_id db)
  where
    refuse :
        (message : Message) (s : Database)
        → Sent lower support_emails user (some rival.id) order_id quote_request_id db message s
        → ⊥
    refuse message s sent =
        let same_id = some_inj sent.addressed in
        let same = some_inj (
          sym there
          ∙ subst (λ i. find (λ u. u.id == i) db.users ≡ some sent.target) (sym same_id)
              sent.target_found) in
        elim sent.licensed [
          | inl admin ↦ cc (ordinary, admin)
          | inr (inl inbox) ↦
              not_inbox (subst (λ t. is_support lower support_emails t ≡ true) (sym same) inbox)
          | inr (inr (_, (context, _, reached))) ↦ cc (
            rivals_apart user rival mine theirs context.0 context.1 db keyed a b there c d differs,
            subst (λ t. reaches user t.id db context ≡ true) (sym same) reached,
          )
        ]
      where
        not_inbox : is_support lower support_emails rival ≡ true → ⊥
        not_inbox e = ground (arith, plain, e)
