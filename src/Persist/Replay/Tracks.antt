-- ===== src/Persist/Replay/Tracks.antt =====
-- The active orders and the history that `replay_file` of
-- backend/modules/persist/src/event_journal.cpp keeps, under each type of event but a trade.
use axiotick.Common.{
  ℕ, ◌≡◌, ◌⊎◌, refl, sym, ◌∙◌, inl, inr, Bool-cases, Option-cases, false, ◌&&◌, ◌||◌, ◌==◌, some, ℤ,
  pos, ◌<ℤ◌, ltb_ℤ, leb_ℤ, Dict, find, put, remove, find-put, find-remove, Unique, put-Unique,
  remove-Unique, arith,
}
use axiotick.Persist.Event.{JournalEvent}
use axiotick.Persist.Replay.{
  ReplayOrderState, ReplaySummary, Replay, positive_part, status_resting, status_partially_filled,
}
use axiotick.Persist.Replay.Updates.{
  apply_fill_to_state, apply_fill, apply_accepted, apply_rejected, apply_canceled, apply_replaced,
}

-- The order has lots left, and is resting or partially filled.
pub record IsOpen (st : ReplayOrderState) : Type 0 where
  pub left : pos 0 <ℤ st.remaining_lots
  pub status : (st.status ≡ status_resting) ⊎ (st.status ≡ status_partially_filled)

-- Every active order is open, and stands in the history as it is.
pub record Tracks (active history : Dict ReplayOrderState) : Type 0 where
  pub unique : Unique active
  pub known :
      (id : ℕ) (st : ReplayOrderState)
      → find id active ≡ some st
      → IsOpen st × (find id history ≡ some st)

module _ (id : ℕ) (st : ReplayOrderState) (active history : Dict ReplayOrderState)
    (t : Tracks active history) where
  opened-Tracks : IsOpen st → Tracks (put id st active) (put id st history)
  opened-Tracks open_now = record {
    unique = put-Unique id st active t.unique;
    known = λ other st' e. elim (Bool-cases (id == other)) [
      | inl same ↦
          let held : st ≡ st' = ground (arith, sym (find-put id other st active) ∙ e, same) in
          (rw (← held) open_now, find-put id other st history ∙ rw (same, held) refl)
      | inr apart ↦
          let before : find other active ≡ some st' =
            ground (arith, sym (find-put id other st active) ∙ e, apart) in
          let (opens, agrees) = t.known other st' before in
          (opens, find-put id other st history ∙ rw apart agrees)
    ];
  }

  closed-Tracks : Tracks (remove id active) (put id st history)
  closed-Tracks = record {
    unique = remove-Unique id active t.unique;
    known = λ other st' e. elim (Bool-cases (id == other)) [
      | inl same ↦ absurd (ground (arith, sym (find-remove id other active) ∙ e, same))
      | inr apart ↦
          let before : find other active ≡ some st' =
            ground (arith, sym (find-remove id other active) ∙ e, apart) in
          let (opens, agrees) = t.known other st' before in
          (opens, find-put id other st history ∙ rw apart agrees)
    ];
  }

abbrev pub Summary-Tracks : ReplaySummary → Type 0
Summary-Tracks s = Tracks s.active_orders s.order_history

apply_fill_to_state-IsOpen :
    (lots : ℤ) (st : ReplayOrderState)
    → IsOpen st
    → leb_ℤ lots (pos 0) ≡ false
    → leb_ℤ (apply_fill_to_state lots st).remaining_lots (pos 0) ≡ false
    → IsOpen (apply_fill_to_state lots st)
unfolding apply_fill_to_state
apply_fill_to_state-IsOpen lots st opens some_lots rests = record {
  left = ground (arith, rests);
  status = ground (arith, opens.left, some_lots, rests);
}

pub apply_fill-Tracks :
    (id : ℕ) (lots : ℤ) (r : Replay)
    → Summary-Tracks r.summary
    → Summary-Tracks (apply_fill id lots r).summary
unfolding apply_fill
apply_fill-Tracks id lots r t = elim (Bool-cases (id == 0 || leb_ℤ lots (pos 0))) [
  | inl nothing ↦ rw nothing t
  | inr something ↦ elim (Option-cases (find id r.summary.active_orders)) [
    | inl gone ↦ rw (something, gone) t
    | inr (st, e) ↦
        let filled = apply_fill_to_state lots st in
        elim (Bool-cases (leb_ℤ filled.remaining_lots (pos 0))) [
          | inl done ↦
              rw (something, e, done)
                (closed-Tracks id filled r.summary.active_orders r.summary.order_history t)
          | inr rests ↦
              rw (something, e, rests)
                (opened-Tracks id filled r.summary.active_orders r.summary.order_history t (
                  apply_fill_to_state-IsOpen lots st (t.known id st e).0 (ground (arith, something))
                    rests))
        ]
  ]
]

module _ (event : JournalEvent) (r : Replay) (t : Summary-Tracks r.summary) where
  pub apply_accepted-Tracks : Summary-Tracks (apply_accepted event r)
  unfolding apply_accepted
  apply_accepted-Tracks =
      elim (Bool-cases (event.resting && ltb_ℤ (pos 0) (positive_part event.remaining_lots))) [
        | inl rests ↦ rw rests (
            opened-Tracks event.order_id _ r.summary.active_orders r.summary.order_history t
              (record { left = ground (arith, rests); status = ground arith }))
        | inr closes ↦
            rw closes
              (closed-Tracks event.order_id _ r.summary.active_orders r.summary.order_history t)
      ]

  pub apply_replaced-Tracks : Summary-Tracks (apply_replaced event r)
  unfolding apply_replaced
  apply_replaced-Tracks = elim (Bool-cases (ltb_ℤ (pos 0) (positive_part event.remaining_lots))) [
    | inl rests ↦ rw rests (
        opened-Tracks event.order_id _ r.summary.active_orders r.summary.order_history t
          (record { left = ground (arith, rests); status = ground arith }))
    | inr closes ↦
        rw closes (closed-Tracks event.order_id _ r.summary.active_orders r.summary.order_history t)
  ]

  pub apply_canceled-Tracks : Summary-Tracks (apply_canceled event r)
  unfolding apply_canceled
  apply_canceled-Tracks =
      closed-Tracks event.order_id _ r.summary.active_orders r.summary.order_history t

  pub apply_rejected-Tracks : Summary-Tracks (apply_rejected event r)
  unfolding apply_rejected
  apply_rejected-Tracks =
      closed-Tracks event.order_id _ r.summary.active_orders r.summary.order_history t
