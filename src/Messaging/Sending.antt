-- ===== src/Messaging/Sending.antt =====
-- What a message that is sent has passed, and what it leaves.
use les_traiteurs_engages_v.Audit.{audit_row}
use les_traiteurs_engages_v.Base.{
  Bool, Ensures, List, Option, String, [], ap, arith, chars, false, fetch-Ensures, find,
  gets-Ensures, if◌then◌else◌, ltb, modify-Ensures, none, not, raise_if-Ensures, refl,
  return-Ensures, some, strip, subst, sym, text_or, then-Ensures, true, ℕ, ◌&&◌, ◌++◌, ◌+◌, ◌==◌,
  ◌∙◌, ◌∷◌, ◌≡◌, ◌≤◌,
}
use les_traiteurs_engages_v.Messaging.{
  MessageError, add_message, audit_if, draw_thread, gate_contexts, message_body_max, message_notice,
  message_of, send_message, thread_between, thread_or_new,
}
use les_traiteurs_engages_v.Messaging.Gate.{Licensed, gate-Ensures}
use les_traiteurs_engages_v.Models.{Database, Message, Notification, User, is_super_admin}
use les_traiteurs_engages_v.Notifications.{note_for, notify}

-- What a message leaves.
pub record Sent (lower : String → String) (support_emails : List String) (user : User)
    (recipient : Option ℕ) (order_id quote_request_id : Option ℕ) (before : Database)
    (message : Message) (after : Database) : Type 0 where
  pub target : User
  pub target_found : find (λ u. u.id == message.recipient_id) before.users ≡ some target
  pub target_active : target.is_active ≡ true
  pub licensed :
      Licensed lower support_emails user target
        (gate_contexts order_id quote_request_id
          (thread_between user.id message.recipient_id before)
          before)
        before
  pub addressed : recipient ≡ some message.recipient_id
  pub from_user : message.sender_id ≡ user.id
  pub is_short : chars message.body ≤ 5000
  pub messages_grow : after.messages ≡ before.messages ++ message ∷ []
  pub note : Notification
  pub notified : after.notifications ≡ before.notifications ++ note ∷ []
  pub note_addressed : note.user_id ≡ message.recipient_id
  pub note_about : note.related_entity_id ≡ some message.id
  pub audited : after.audit_logs ≡ (
      if is_super_admin user.role && not (is_super_admin target.role)
      then before.audit_logs ++ audit_row user "message.admin_send" "user" message.recipient_id ∷ []
      else before.audit_logs)

module _ (user : User) (recipient_id : ℕ) (db : Database) where
  audit_if-messages : (b : Bool) → (audit_if b user recipient_id db).messages ≡ db.messages
  audit_if-messages true = refl
  audit_if-messages false = refl

  audit_if-notifications :
      (b : Bool) → (audit_if b user recipient_id db).notifications ≡ db.notifications
  audit_if-notifications true = refl
  audit_if-notifications false = refl

  audit_if-logs :
      (b : Bool)
      → (audit_if b user recipient_id db).audit_logs ≡ (
          if b
          then db.audit_logs ++ audit_row user "message.admin_send" "user" recipient_id ∷ []
          else db.audit_logs)
  audit_if-logs true = refl
  audit_if-logs false = refl

draw_thread-same :
    {A : Type 0} (f : Database → A) (existing : Option ℕ) (db : Database)
    → ((n : ℕ) → f (record db { drawn = n }) ≡ f db)
    → f (draw_thread existing db) ≡ f db
draw_thread-same f none db h = h (db.drawn + 1)
draw_thread-same f (some t) db h = refl

-- The last writes of a message, on the state in which its identifier is drawn.
module _ (lower : String → String) (support_emails : List String) (user target : User)
    (recipient_id : ℕ) (order_id quote_request_id : Option ℕ) (db : Database)
    (found : find (λ u. u.id == recipient_id) db.users ≡ some target)
    (active : target.is_active ≡ true)
    (licensed : Licensed lower support_emails user target
      (gate_contexts order_id quote_request_id (thread_between user.id recipient_id db) db)
      db) where
  stored-Sent :
      (body : String) (thread_id id : ℕ) (drawn : Database)
      → chars body ≤ 5000
      → drawn.messages ≡ db.messages
      → drawn.notifications ≡ db.notifications
      → drawn.audit_logs ≡ db.audit_logs
      → let message = message_of user recipient_id order_id quote_request_id body thread_id id in
        Sent lower support_emails user (some recipient_id) order_id quote_request_id db message (
          notify recipient_id (message_notice user id) (
            audit_if
              (is_super_admin user.role && not (is_super_admin target.role))
              user
              recipient_id
              (add_message message drawn)))
  unfolding notify
  stored-Sent body thread_id id drawn short messages notifications logs =
      let message = message_of user recipient_id order_id quote_request_id body thread_id id in
      let by_admin = is_super_admin user.role && not (is_super_admin target.role) in
      let added = add_message message drawn in
      let audited = audit_if by_admin user recipient_id added in
      record {
        target = target;
        target_found = found;
        target_active = active;
        licensed = licensed;
        addressed = refl;
        from_user = refl;
        is_short = short;
        messages_grow =
            audit_if-messages user recipient_id added by_admin
            ∙ ap (λ m. m ++ message ∷ []) messages;
        note = note_for (message_notice user id) (audited.uuid4 audited.drawn) recipient_id;
        notified =
            ap
              (λ n.
                n
                ++ note_for (message_notice user id) (audited.uuid4 audited.drawn) recipient_id
                  ∷ [])
              (audit_if-notifications user recipient_id added by_admin ∙ notifications);
        note_addressed = refl;
        note_about = refl;
        audited =
            audit_if-logs user recipient_id added by_admin
            ∙ ap
                (λ l.
                  if by_admin
                  then l ++ audit_row user "message.admin_send" "user" recipient_id ∷ []
                  else l)
                logs;
      }

-- A message that is refused leaves the database as it was. One that is sent goes to an active user,
-- from a sender who is an administrator of the platform, who writes to a support inbox, or who has a
-- business relationship with the recipient; it is the one row added to the messages, of at most 5000
-- characters; the recipient gets one notification about it; and an administrator's message to anyone
-- but an administrator, and no other, leaves its row in the audit journal.
pub send_message-Sent :
    (lower : String → String) (support_emails : List String) (user : User) (recipient : Option ℕ)
    (body_raw : Option String) (order_id quote_request_id : Option ℕ) (db : Database)
    → Ensures
        (λ e s. s ≡ db)
        (λ message s.
          Sent lower support_emails user recipient order_id quote_request_id db message s)
        (send_message lower support_emails user recipient body_raw order_id quote_request_id db)
unfolding send_message
send_message-Sent lower support_emails user recipient body_raw order_id quote_request_id db =
    fetch-Ensures Bad Good _ _ _ _ (λ _. refl)
      λ recipient_id given.
        raise_if-Ensures Bad Good _ _ _ _ (λ _. refl)
          λ some_text.
            raise_if-Ensures Bad Good _ _ _ _ (λ _. refl)
              λ short. gets-Ensures Bad Good _ _ _ (
                gets-Ensures Bad Good _ _ _ (
                  fetch-Ensures Bad Good _ _ _ _ (λ _. refl)
                    λ target found.
                      raise_if-Ensures Bad Good _ _ _ _ (λ _. refl)
                        λ active.
                          then-Ensures Bad
                            (λ u s.
                              (s ≡ db)
                              × Licensed lower support_emails user target (contexts recipient_id)
                                  db)
                            Good _ _ _
                            (gate-Ensures lower support_emails user target order_id quote_request_id
                              (thread_between user.id recipient_id db) db)
                            λ s passed. modify-Ensures Bad Good _ _ _ (
                              gets-Ensures Bad Good _ _ _ (
                                modify-Ensures Bad Good _ _ _ (
                                  modify-Ensures Bad Good _ _ _ (
                                    modify-Ensures Bad Good _ _ _ (
                                      return-Ensures Bad Good _ _ (
                                        finish recipient_id target s given found active short
                                          passed))))))))
  where
    Bad : MessageError → Database → Type 0
    Bad e s = s ≡ db

    Good : Message → Database → Type 0
    Good message s = Sent lower support_emails user recipient order_id quote_request_id db message s

    contexts : ℕ → List (Option ℕ × Option ℕ)
    contexts recipient_id =
        gate_contexts order_id quote_request_id (thread_between user.id recipient_id db) db

    same_after :
        {A : Type 0} (f : Database → A) (recipient_id : ℕ) (s : Database)
        → s ≡ db
        → ((n : ℕ) (d : Database) → f (record d { drawn = n }) ≡ f d)
        → f (draw_thread (thread_between user.id recipient_id db) s) ≡ f db
    same_after f recipient_id s same h =
        draw_thread-same f (thread_between user.id recipient_id db) s (λ n. h n s) ∙ ap f same

    body : String
    body = strip (text_or body_raw "")

    finish :
        (recipient_id : ℕ) (target : User) (s : Database)
        → recipient ≡ some recipient_id
        → find (λ u. u.id == recipient_id) db.users ≡ some target
        → not target.is_active ≡ false
        → ltb message_body_max (chars body) ≡ false
        → (s ≡ db) × Licensed lower support_emails user target (contexts recipient_id) db
        → let existing = thread_between user.id recipient_id db in
          let drawn = draw_thread existing s in
          let message =
            message_of user recipient_id order_id quote_request_id body
              (thread_or_new existing db)
              (drawn.uuid4 drawn.drawn) in
          Good message (
            notify recipient_id (message_notice user message.id) (
              audit_if
                (is_super_admin user.role && not (is_super_admin target.role))
                user
                recipient_id
                (add_message message drawn)))
    finish recipient_id target s given found active short passed =
        let existing = thread_between user.id recipient_id db in
        let drawn = draw_thread existing s in
        let thread = thread_or_new existing db in
        let id = drawn.uuid4 drawn.drawn in
        subst
          (λ r.
            Sent lower support_emails user r order_id quote_request_id db
              (message_of user recipient_id order_id quote_request_id body thread id)
              (notify recipient_id (message_notice user id) (
                audit_if (is_super_admin user.role && not (is_super_admin target.role)) user
                  recipient_id
                  (add_message
                    (message_of user recipient_id order_id quote_request_id body thread id)
                    drawn))))
          (sym given)
          (stored-Sent lower support_emails user target recipient_id order_id quote_request_id db
            found (ground (arith, active)) passed.1 body thread id drawn (ground (arith, short))
            (same_after (λ d. d.messages) recipient_id s passed.0 (λ n d. refl))
            (same_after (λ d. d.notifications) recipient_id s passed.0 (λ n d. refl))
            (same_after (λ d. d.audit_logs) recipient_id s passed.0 (λ n d. refl)))
