-- ===== src/Messaging/Reading.antt =====
-- A thread is read by those who take part in it.
use les_traiteurs_engages_v.Base.{
  All, Bool, Bool-cases, List, [], arith, count, count-update_where_cleared,
  count-update_where_same, false, inl, inr, length, length-update_where, not, select, true,
  update_where, ℕ, ◌&&◌, ◌==◌, ◌∷◌, ◌≡◌, ◌≢◌, ◌⊎◌,
}
use les_traiteurs_engages_v.Messaging.{as_read, get_messages, is_part_of, is_unread_in}
use les_traiteurs_engages_v.Models.{Database, Message, User}

select-All : {A : Type 0} (t : A → Bool) (xs : List A) → All (λ x. t x ≡ true) (select t xs)
unfolding select
select-All t [] = tt
select-All t (x ∷ xs) = elim (Bool-cases (t x)) [
  | inl y ↦ rw y (y, select-All t xs)
  | inr n ↦ rw n (select-All t xs)
]

-- Reading a thread shows a user the messages of it that the user sent or received, and no others,
-- none of them unread by the user any more; and it leaves every message that another user has to
-- read, or of another thread, as it was counted before.
get_messages_shows :
    (thread_id : ℕ) (user : User) (db : Database)
    → let (shown, after) = get_messages thread_id user db in
      All (λ m. is_part_of thread_id user.id m ≡ true) shown
      × (count (is_unread_in thread_id user.id) after.messages ≡ 0)
      × ((t u : ℕ)
          → (t ≢ thread_id) ⊎ (u ≢ user.id)
          → count (is_unread_in t u) after.messages ≡ count (is_unread_in t u) db.messages)
      × (length after.messages ≡ length db.messages)
unfolding get_messages
get_messages_shows thread_id user db = (
  select-All (is_part_of thread_id user.id)
      (update_where (is_unread_in thread_id user.id) as_read db.messages),
  count-update_where_cleared (is_unread_in thread_id user.id) as_read db.messages
      (λ m h. cleared m.thread_id m.recipient_id),
  λ t u other.
      count-update_where_same (is_unread_in thread_id user.id) as_read (is_unread_in t u)
        db.messages (λ m h. elsewhere t u other m h),
  length-update_where (is_unread_in thread_id user.id) as_read db.messages,
)
  where
    cleared : (a b : ℕ) → (a == thread_id && b == user.id && not true) ≡ false
    cleared a b = ground arith

    elsewhere :
        (t u : ℕ)
        → (t ≢ thread_id) ⊎ (u ≢ user.id)
        → (m : Message) → is_unread_in thread_id user.id m ≡ true
        → is_unread_in t u (as_read m) ≡ is_unread_in t u m
    elsewhere t u (inl n) m h = ground (arith, n, h)
    elsewhere t u (inr n) m h = ground (arith, n, h)
