-- ===== src/Persist/Journal/Appends.antt =====
-- What an append to `AsyncEventJournal` of backend/modules/persist/src/event_journal.cpp adds to its ring.
use axiotick.Common.{
  ℕ, ◌+◌, ◌^◌, ◌≤◌, ◌<◌, ◌≡◌, refl, sym, ap, subst, ◌∙◌, inl, inr, Bool, Bool-cases, true, false,
  ◌||◌, if◌then◌else◌, ltb, ◌==◌, some, List, [], ◌∷◌, ◌++◌, length, length-append, arith,
}
use mathlib.Core.List.{append_assoc}
use axiotick.Persist.Event.{JournalEvent}
use axiotick.Persist.JournalRing.{LockFreeRingBuffer, try_push}
use axiotick.Persist.JournalRing.Fifo.{HoldsQueue, enqueue}
use axiotick.Persist.JournalRing.Steps.{try_push-HoldsQueue}
use axiotick.Persist.Line.{u64_max}
use axiotick.Persist.Line.RoundTrip.{InRange}
use axiotick.Persist.Replay.{next_u64}
use axiotick.Persist.Journal.{
  AsyncEventJournal, default_ring_buffer_size, normalize_time, prepare_event, append_impl,
}
use axiotick.Persist.Journal.Numbering.{
  last_time, Numbered-append, last_time-append, AllInRange-append,
}
use axiotick.Persist.Journal.Logs.{Logs}

module _ (wall_now_ns mono_now_ns : ℕ → ℕ) where
  -- An event that is made ready to follow the others.
  record IsNext (j : AsyncEventJournal) (event : JournalEvent) (j' : AsyncEventJournal)
      : Type 0 where
    seq : event.seq ≡ j.next_seq
    next : j'.next_seq ≡ j.next_seq + 1
    last : j'.last_timestamp_ns ≡ event.timestamp_ns
    later : (j.last_timestamp_ns == 0 || ltb j.last_timestamp_ns event.timestamp_ns) ≡ true
    range : InRange event
    file : j'.file ++ j'.stream ≡ j.file ++ j.stream
    ring : j'.ring_buffer ≡ j.ring_buffer

  normalize_time-later :
      (previous timestamp_ns : ℕ)
      → previous < u64_max
      → timestamp_ns ≤ u64_max
      → let t = normalize_time wall_now_ns mono_now_ns previous timestamp_ns in
        ((previous == 0 || ltb previous t) ≡ true) × (t ≤ u64_max)
  normalize_time-later previous timestamp_ns below fits =
      (ground (arith, below, fits), ground (arith, below, fits))

  module _ (clock : (reading : ℕ) → wall_now_ns reading ≤ u64_max) (j : AsyncEventJournal) where
    prepare_event-IsNext :
        (event : JournalEvent)
        → event.seq ≡ 0
        → InRange event
        → j.next_seq < u64_max
        → j.last_timestamp_ns < u64_max
        → let out = prepare_event wall_now_ns mono_now_ns event j in IsNext j out.0 out.1
    unfolding prepare_event
    prepare_event-IsNext event fresh range room time =
        let unset = event.timestamp_ns == 0 in
        let read = if unset then wall_now_ns j.wall_readings else event.timestamp_ns in
        let fits : read ≤ u64_max = ground (arith, clock j.wall_readings, range.timestamp_ns) in
        let timed = normalize_time-later j.last_timestamp_ns read time fits in
        rw fresh (record {
          seq = refl;
          next = omega (arith, room);
          last = refl;
          later = timed.0;
          range = record {
            seq = omega (arith, room);
            timestamp_ns = timed.1;
            order_id = range.order_id;
            related_order_id = range.related_order_id;
            related_signal_id = range.related_signal_id;
            tick_id = range.tick_id;
            price_ticks = range.price_ticks;
            quantity_lots = range.quantity_lots;
            remaining_lots = range.remaining_lots;
            reason_code = range.reason_code;
            side = range.side;
            order_type = range.order_type;
            tif = range.tif;
          };
          file = refl;
          ring = refl;
        })

  follow-Logs :
      (j j' : AsyncEventJournal) (ring : LockFreeRingBuffer JournalEvent)
      (written queue : List JournalEvent) (event : JournalEvent)
      → Logs j written queue
      → IsNext j event j'
      → HoldsQueue 16 ring (queue ++ event ∷ [])
      → j.next_seq < u64_max
      → Logs (record j' { ring_buffer = ring }) written (queue ++ event ∷ [])
  follow-Logs j j' ring written queue event logs is_next held room =
      let all = written ++ queue in
      let number : event.seq ≡ 1 + length all = is_next.seq ∙ logs.next in
      let time : (last_time 0 all == 0 || ltb (last_time 0 all) event.timestamp_ns) ≡ true =
        rw (← logs.last) is_next.later in
      let behind : all ++ event ∷ [] ≡ written ++ (queue ++ event ∷ []) =
        append_assoc written queue (event ∷ []) in
      record {
        text = is_next.file ∙ logs.text;
        held = held;
        numbered = rw (← behind) (Numbered-append all event 1 0 logs.numbered number time);
        ranges = rw (← behind) (AllInRange-append all event logs.ranges is_next.range);
        next =
            rw (← behind) (omega (arith, is_next.next, logs.next, length-append all (event ∷ [])));
        last = rw (← behind) (is_next.last ∙ sym (last_time-append all event 0));
        fits = omega (arith, is_next.next, room);
      }

  pub append_impl-Logs :
      (clock : (reading : ℕ) → wall_now_ns reading ≤ u64_max) (j j' : AsyncEventJournal)
      (written queue : List JournalEvent) (event : JournalEvent)
      → Logs j written queue
      → event.seq ≡ 0
      → InRange event
      → j.next_seq < u64_max
      → j.last_timestamp_ns < u64_max
      → append_impl wall_now_ns mono_now_ns event j ≡ some (true, j')
      → Logs j' written (queue ++ (prepare_event wall_now_ns mono_now_ns event j).0 ∷ [])
  unfolding append_impl
  append_impl-Logs clock j j' written queue event logs fresh range room time e =
      let (prepared, j1) = prepare_event wall_now_ns mono_now_ns event j in
      let is_next = prepare_event-IsNext clock j event fresh range room time in
      let held : HoldsQueue 16 j1.ring_buffer queue = rw is_next.ring logs.held in
      let (ring, runs, kept) =
        try_push-HoldsQueue 16 j1.ring_buffer queue held prepared (omega arith) in
      elim (Bool-cases (ltb (length queue) (2 ^ 16))) [
        | inl free ↦
            let queued : enqueue (2 ^ 16) prepared queue ≡ (true, queue ++ prepared ∷ []) =
              rw free refl in
            let pushed : try_push default_ring_buffer_size prepared j1.ring_buffer
                ≡ some (true, ring) =
              runs ∙ ap (λ (p : Bool × List JournalEvent). some (p.0, ring)) queued in
            let made : append_impl wall_now_ns mono_now_ns event j
                ≡ some (true, record j1 { ring_buffer = ring }) =
              rw (append_impl, pushed) refl in
            let same : record j1 { ring_buffer = ring } ≡ j' = cc in
            rw (← same) (
              follow-Logs j j1 ring written queue prepared logs is_next
                (subst (λ (p : Bool × List JournalEvent). HoldsQueue 16 ring p.1) queued kept) room)
        | inr filled ↦
            let queued : enqueue (2 ^ 16) prepared queue ≡ (false, queue) = rw filled refl in
            let refused : try_push default_ring_buffer_size prepared j1.ring_buffer
                ≡ some (false, ring) =
              runs ∙ ap (λ (p : Bool × List JournalEvent). some (p.0, ring)) queued in
            let made : append_impl wall_now_ns mono_now_ns event j
                ≡ some (
                  false,
                  record j1 { ring_buffer = ring; dropped_events = next_u64 j1.dropped_events },
                ) =
              rw (append_impl, refused) refl in
            absurd (cc)
      ]
