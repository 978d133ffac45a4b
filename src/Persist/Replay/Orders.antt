-- ===== src/Persist/Replay/Orders.antt =====
-- What `replay_file` of backend/modules/persist/src/event_journal.cpp keeps of the active orders, over
-- the whole file.
use axiotick.Common.{
  ℕ, ◌≡◌, refl, sym, ap, ◌∙◌, inl, inr, Bool, Bool-cases, Option-cases, ◌&&◌, ◌==◌, Option, none,
  some, List, [], ◌∷◌, Dict, find, put, find-put, Unique, arith,
}
use axiotick.Common.Decimal.{Bytes}
use axiotick.Core.Float.{Float}
use axiotick.Persist.Event.{
  JournalEvent, order_accepted, order_rejected, trade_executed, order_canceled, order_replaced,
  gateway_rejected,
}
use axiotick.Persist.Line.{parse_event}
use axiotick.Persist.Replay.{next_u64, ReplayOrderState, ReplaySummary, Replay, new_replay}
use axiotick.Persist.Replay.Updates.{apply_fill, apply_trade_event, add_party, apply_type}
use axiotick.Persist.Replay.File.{
  checked, is_gap, replay_event, replay_lines, commit, finished, replay_file, lines_of,
}
use axiotick.Persist.Replay.Strict.{stops, refuses, goes_on}
use axiotick.Persist.Replay.Tracks.{
  Tracks, Summary-Tracks, apply_fill-Tracks, apply_accepted-Tracks, apply_replaced-Tracks,
  apply_canceled-Tracks, apply_rejected-Tracks,
}

module _ {D : Type 0} (f : Float D) where
  apply_trade_event-Tracks :
      (event : JournalEvent) (r : Replay)
      → Summary-Tracks r.summary
      → Summary-Tracks (apply_trade_event f event r).summary
  unfolding apply_trade_event add_party
  apply_trade_event-Tracks event r t =
      let counted = record r {
        summary = record r.summary { trades = next_u64 r.summary.trades };
      } in
      let taken = apply_fill event.order_id event.quantity_lots counted in
      let first = apply_fill-Tracks event.order_id event.quantity_lots counted t in
      elim (Bool-cases (event.related_order_id == 0)) [
        | inl alone ↦ rw alone first
        | inr both ↦
            rw both (apply_fill-Tracks event.related_order_id event.quantity_lots taken first)
      ]

  apply_type-Tracks :
      (event : JournalEvent) (r : Replay)
      → Summary-Tracks r.summary
      → Summary-Tracks (apply_type f event r).summary
  unfolding apply_type
  apply_type-Tracks event r t =
      elim event.type as (λ ty. event.type ≡ ty → Summary-Tracks (apply_type f event r).summary) [
        | order_accepted ↦ λ e. rw e (apply_accepted-Tracks _ r t)
        | order_rejected ↦ λ e. rw e (apply_rejected-Tracks _ r t)
        | trade_executed ↦ λ e. rw e (apply_trade_event-Tracks _ r t)
        | order_canceled ↦ λ e. rw e (apply_canceled-Tracks _ r t)
        | order_replaced ↦ λ e. rw e (apply_replaced-Tracks _ r t)
        | gateway_rejected ↦ λ e. rw e t
      ]
        refl

  replay_event-Tracks :
      (strict : Bool) (event : JournalEvent) (r r' : Replay)
      → Summary-Tracks r.summary
      → replay_event f strict event r ≡ some r'
      → Summary-Tracks r'.summary
  unfolding replay_event checked
  replay_event-Tracks strict event r r' t e = elim (Bool-cases (is_gap event r && strict)) [
    | inl refused ↦ absurd (ground (arith, e, refused))
    | inr taken ↦
        let same : apply_type f event (checked event r) ≡ r' = ground (arith, e, taken) in
        rw (← same) (apply_type-Tracks event (checked event r) t)
  ]

  replay_lines-Tracks :
      (strict : Bool) (lines : List Bytes) (r r' : Replay)
      → Summary-Tracks r.summary
      → replay_lines f strict lines r ≡ some r'
      → Summary-Tracks r'.summary
  unfolding replay_lines
  replay_lines-Tracks strict [] r r' t e = let same : r ≡ r' = cc in rw (← same) t
  replay_lines-Tracks strict ([] ∷ lines) r r' t e = replay_lines-Tracks strict lines r r' t e
  replay_lines-Tracks strict ((c ∷ s) ∷ lines) r r' t e =
      elim (Option-cases (parse_event (c ∷ s))) [
        | inl bad ↦ let gone = stops f strict c s lines r bad in absurd (cc)
        | inr (event, parsed) ↦ elim (Option-cases (replay_event f strict event r)) [
          | inl refused ↦
              let gone = refuses f strict c s lines r event parsed refused in absurd (cc)
          | inr (r1, goes) ↦
              replay_lines-Tracks strict lines r1 r' (replay_event-Tracks strict event r r1 t goes)
                (sym (goes_on f strict c s lines r event r1 parsed goes) ∙ e)
        ]
      ]

  commit_active :
      (active : Dict ReplayOrderState) (s : ReplaySummary)
      → (commit f active s).active_orders ≡ s.active_orders
  unfolding commit
  commit_active [] s = refl
  commit_active ((id, st) ∷ active) s = commit_active active _

  -- The history has the active orders already, so the last loop changes no entry of it.
  commit_history :
      (active : Dict ReplayOrderState) (s : ReplaySummary)
      → Unique active
      → ((id : ℕ) (st : ReplayOrderState)
          → find id active ≡ some st
          → find id s.order_history ≡ some st)
      → (id : ℕ) → find id (commit f active s).order_history ≡ find id s.order_history
  unfolding commit find
  commit_history [] s u known id = refl
  commit_history ((key, st) ∷ active) s (fresh, u) known id =
      let here : find key s.order_history ≡ some st = known key st (ground arith) in
      let kept : (other : ℕ)
          → find other (put key st s.order_history) ≡ find other s.order_history =
        λ other. find-put key other st s.order_history ∙ ground (arith, here) in
      commit_history active _ u
        (λ other st' e. kept other ∙ known other st' (ground (arith, e, fresh))) id
      ∙ kept id

  -- A file that is replayed to the end leaves active orders that are all open, resting or partially
  -- filled with lots left, each once and each in the history just as it is among the active orders.
  pub replay_file-Tracks :
      (strict : Bool) (file : Option Bytes) (s : ReplaySummary)
      → replay_file f strict file ≡ some s
      → Tracks s.active_orders s.order_history
  unfolding replay_file
  replay_file-Tracks strict none s e = absurd (cc)
  replay_file-Tracks strict (some text) s e =
      elim (Option-cases (replay_lines f strict (lines_of text []) new_replay)) [
        | inl gone ↦ let failed = ap (finished f) gone in absurd (cc)
        | inr (r, ends) ↦
            let t =
              replay_lines-Tracks strict (lines_of text []) new_replay r
                (record { unique = tt; known = λ id st found. absurd (unfold find in cc) }) ends in
            let active = r.summary.active_orders in
            let same : commit f active r.summary ≡ s = let done = ap (finished f) ends in cc in
            let kept =
              commit_history active r.summary t.unique (λ id st found. (t.known id st found).1) in
            rw (← same) (
              rw (commit_active active r.summary) (record {
                unique = t.unique;
                known = λ id st found.
                    let (opens, agrees) = t.known id st found in (opens, kept id ∙ agrees);
              }))
      ]
