-- ===== src/Workflow/Submission/FirstThree.antt =====
-- The rule of the three first responders, over whole calls of `submit_quote`.
use les_traiteurs_engages_v.Base.{
  Bool-cases, Ensures, Ensures-map, Ensures-state, arith, count, count-update_where_cleared, false,
  find, find-update_first, find-update_where_other, inl, inr, ltb, refl, some, true, update_first,
  ℕ, ◌+◌, ◌<◌, ◌≡◌, ◌≤◌, ◌⊎◌,
}
use les_traiteurs_engages_v.Models.{Caterer, Database, QrcStatus, Quote, QuoteRequestCaterer}
use les_traiteurs_engages_v.Notifications.Frame.{OnlyNotifies-SameRows}
use les_traiteurs_engages_v.Workflow.Acceptance.{close_qrc}
use les_traiteurs_engages_v.Workflow.Errors.{WorkflowError}
use les_traiteurs_engages_v.Workflow.Submission.{
  close_remaining, is_qrc_of, is_shut_out, submit_quote, transmit, transmit_quote, transmitted_on,
}
use les_traiteurs_engages_v.Workflow.Submission.Bounds.{heal-le, heal_rest, transmit_quote-le}
use les_traiteurs_engages_v.Workflow.Submission.Branches.{
  Refused, Transmitted, submit_quote-Ensures,
}

module _ (now request_id quote_id : ℕ) (caterer : Caterer) where
  -- The state after the writes on the quote and the rows.
  abbrev written : Database → Database
  written db = transmit_quote now request_id quote_id caterer.id (transmitted_on request_id db) db

  transmitted-Refused :
      (r : ℕ) (db : Database) (e : WorkflowError) (db' : Database)
      → transmitted_on r db ≤ 3
      → Refused now request_id quote_id caterer db e db'
      → transmitted_on r db' ≤ 3
  transmitted-Refused r db e db' h (inl same) = rw same h
  transmitted-Refused r db e db' h (inr (_, _, healed)) =
      rw healed (omega (arith, heal-le request_id caterer.id (transmitted_on request_id db) r db))

  Transmitted-Transmitted_le :
      (r : ℕ) (db : Database) (q : Quote) (db' : Database)
      → transmitted_on r db ≤ 3
      → Transmitted now request_id quote_id caterer db q db'
      → transmitted_on r db' ≤ 3
  Transmitted-Transmitted_le r db q db' h (room, _, _, _, _, frame) =
      rw ((OnlyNotifies-SameRows (written db) db' frame).qrcs) (
        ground (
          arith,
          transmit_quote-le now request_id quote_id caterer.id (transmitted_on request_id db) r db,
        ))

  -- On no request are more than three caterers' rows transmitted after a call of `submit_quote`, however it
  -- ends, if there were no more than three on it before.
  submit_quote-le_three :
      (r : ℕ) (db : Database)
      → transmitted_on r db ≤ 3
      → transmitted_on r (submit_quote now request_id quote_id caterer db).1 ≤ 3
  submit_quote-le_three r db h =
      Ensures-state (λ s. transmitted_on r s ≤ 3) _
        (Ensures-map (submit_quote now request_id quote_id caterer db)
          (λ e s. transmitted-Refused r db e s h) (λ q s. Transmitted-Transmitted_le r db q s h)
          (submit_quote-Ensures now request_id quote_id caterer db))

  -- The status with which a call leaves the caterer's row, and the rank that it gets.
  abbrev Answered : ℕ → QuoteRequestCaterer → Type 0
  Answered rank c =
      (c.status ≡ QrcStatus.transmitted_to_client)
      × (c.response_rank ≡ some rank)
      × (c.responded_at ≡ some now)

  not_shut_out :
      (c : QuoteRequestCaterer)
      → is_shut_out request_id caterer.id c ≡ true
      → is_qrc_of request_id caterer.id c ≡ false
  not_shut_out c h = ground arith

  answered_row :
      (t : ℕ) (c : QuoteRequestCaterer) (db : Database)
      → find (is_qrc_of request_id caterer.id) db.qrcs ≡ some c
      → find
          (is_qrc_of request_id caterer.id)
          (transmit_quote now request_id quote_id caterer.id t db).qrcs
        ≡ some (transmit now (t + 1) c)
  unfolding transmit_quote close_remaining
  answered_row t c db h =
      let cs = update_first (is_qrc_of request_id caterer.id) (transmit now (t + 1)) db.qrcs in
      ground (
        arith,
        find-update_first (is_qrc_of request_id caterer.id) (transmit now (t + 1)) db.qrcs c
            (λ x e. e),
        find-update_where_other (is_qrc_of request_id caterer.id)
            (is_shut_out request_id caterer.id) close_qrc cs not_shut_out not_shut_out,
      )

  third_closes :
      (db : Database)
      → count
          (is_shut_out request_id caterer.id)
          (transmit_quote now request_id quote_id caterer.id 2 db).qrcs
        ≡ 0
  unfolding transmit_quote close_remaining
  third_closes db =
      count-update_where_cleared (is_shut_out request_id caterer.id) close_qrc
        (update_first (is_qrc_of request_id caterer.id) (transmit now 3) db.qrcs)
        (λ c h. ground arith)

  -- A refused call leaves the quotes and the notifications as they were.
  abbrev pub Unsent : Database → Database → Type 0
  Unsent db db' = (db'.quotes ≡ db.quotes) × (db'.notifications ≡ db.notifications)

  -- A call that succeeds leaves the caterer's row transmitted, with the next rank.
  abbrev pub Ranked : Database → Database → Type 0
  Ranked db db' =
      (transmitted_on request_id db < 3)
      × ((c : QuoteRequestCaterer) × (find (is_qrc_of request_id caterer.id) db'.qrcs ≡ some c)
          × Answered (transmitted_on request_id db + 1) c)
      × ((transmitted_on request_id db < 2)
          ⊎ (count (is_shut_out request_id caterer.id) db'.qrcs ≡ 0))

  unsent :
      (db : Database) (e : WorkflowError) (db' : Database)
      → Refused now request_id quote_id caterer db e db'
      → Unsent db db'
  unsent db e db' (inl same) = rw same (refl, refl)
  unsent db e db' (inr (_, _, healed)) =
      let (q, _, n) = heal_rest request_id caterer.id (transmitted_on request_id db) db in
      rw healed (q, n)

  ranked :
      (db : Database) (q : Quote) (db' : Database)
      → Transmitted now request_id quote_id caterer db q db'
      → Ranked db db'
  ranked db q db' (room, _, _, _, (c, found, _), frame) =
      let same = (OnlyNotifies-SameRows (written db) db' frame).qrcs in
      (
        room,
        (
          transmit now (transmitted_on request_id db + 1) c,
          rw same (answered_row (transmitted_on request_id db) c db found),
          (refl, refl, refl),
        ),
        elim (Bool-cases (ltb (transmitted_on request_id db) 2)) [
          | inl few ↦ inl (ground (arith, few))
          | inr two ↦ inr (
              let is_two : transmitted_on request_id db ≡ 2 = ground (arith, room, two) in
              rw (same, is_two) (third_closes db))
        ],
      )

  -- A call of `submit_quote` that is refused changes no quote and notifies nobody. One that succeeds
  -- finds fewer than three rows transmitted on the request, leaves the caterer's row transmitted
  -- with the next rank, and, if it is the third, leaves no other caterer's row `selected`.
  pub submit_quote_ranks :
      (db : Database)
      → Ensures (λ e. Unsent db) (λ q. Ranked db) (submit_quote now request_id quote_id caterer db)
  submit_quote_ranks db =
      Ensures-map (submit_quote now request_id quote_id caterer db) (unsent db) (ranked db)
        (submit_quote-Ensures now request_id quote_id caterer db)
