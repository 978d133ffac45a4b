-- ===== src/Persist/Journal/Draining.antt =====
-- What is in the file of `AsyncEventJournal` of backend/modules/persist/src/event_journal.cpp after the
-- worker has ended.
use axiotick.Common.{
  ℕ, zero, suc, ◌+◌, ◌≤◌, ◌<◌, ◌≡◌, refl, sym, ap, ◌∙◌, true, false, ◌||◌, ltb, some, List, [], ◌∷◌,
  ◌++◌, length, length-append, arith,
}
use mathlib.Core.List.{append-nil, append_assoc}
use axiotick.Common.Decimal.{Bytes}
use axiotick.Core.Float.{Float}
use axiotick.Persist.Replay.Lines.{journal_text}
use axiotick.Core.Histogram.{LatencyHistogram}
use axiotick.Persist.Event.{JournalEvent}
use axiotick.Persist.JournalRing.{journal_size_approx}
use axiotick.Persist.Line.{u64_max}
use axiotick.Persist.Replay.{ReplaySummary}
use axiotick.Persist.Replay.File.{replay_file}
use axiotick.Persist.Journal.{
  AsyncEventJournal, default_ring_buffer_size, open_journal, flush_file, worker_step, worker_loop,
}
use axiotick.Persist.Journal.Numbering.{
  Numbered-prefix, AllInRange-prefix, Clean, replay_file-Numbered,
}
use axiotick.Persist.Journal.Steps.{Reach, numbered_events, Reach-Logs}
use axiotick.Persist.Journal.Logs.{Logs, size_approx-Logs, worker_step-event}

module _ (wall_now_ns mono_now_ns : ℕ → ℕ) where
  module _ (blank : JournalEvent) (meanwhile : AsyncEventJournal → AsyncEventJournal) where
    worker_loop_round :
        (j j' : AsyncEventJournal) (fuel : ℕ)
        → ltb 0 (journal_size_approx default_ring_buffer_size j.ring_buffer) ≡ true
        → worker_step wall_now_ns mono_now_ns blank j ≡ some (true, j')
        → worker_loop wall_now_ns mono_now_ns blank meanwhile (suc fuel) j
          ≡ worker_loop wall_now_ns mono_now_ns blank meanwhile fuel j'
    unfolding worker_loop
    worker_loop_round j j' fuel some_left made =
        let goes : (j.running || ltb 0 (journal_size_approx default_ring_buffer_size j.ring_buffer))
            ≡ true =
          ground (arith, some_left) in
        rw (goes, made) refl

    worker_loop-Logs :
        (queue written : List JournalEvent) (j : AsyncEventJournal) (fuel : ℕ)
        → Logs j written queue
        → j.running ≡ false
        → length queue < fuel
        → (j' : AsyncEventJournal) × (worker_loop wall_now_ns mono_now_ns blank meanwhile fuel j
            ≡ some j')
          × (j'.next_seq ≡ j.next_seq)
          × (j'.stream ≡ [])
          × Logs j' (written ++ queue) []
    unfolding worker_loop
    worker_loop-Logs queue written j zero logs stopped below = absurd (omega (arith, below))
    worker_loop-Logs [] written j (suc fuel) logs stopped below =
        let size = size_approx-Logs wall_now_ns mono_now_ns j written [] logs in
        (
          flush_file j,
          rw (stopped, size) refl,
          refl,
          refl,
          rw append-nil (record {
            text = append-nil _ ∙ logs.text;
            held = logs.held;
            numbered = logs.numbered;
            ranges = logs.ranges;
            next = logs.next;
            last = logs.last;
            fits = logs.fits;
          }),
        )
    worker_loop-Logs (event ∷ queue) written j (suc fuel) logs stopped below =
        let size = size_approx-Logs wall_now_ns mono_now_ns j written (event ∷ queue) logs in
        let some_left : ltb 0 (journal_size_approx default_ring_buffer_size j.ring_buffer) ≡ true =
          ground (arith, size) in
        let (j1, made, runs, next, kept) =
          worker_step-event wall_now_ns mono_now_ns j written queue event blank logs in
        let (j2, ends, next', flushed, kept') =
          worker_loop-Logs queue (written ++ event ∷ []) j1 fuel kept (runs ∙ stopped)
            (omega (arith, below)) in
        let moved : (written ++ event ∷ []) ++ queue ≡ written ++ event ∷ queue =
          append_assoc written (event ∷ []) queue in
        (
          j2,
          worker_loop_round j j1 fuel some_left made ∙ ends,
          next' ∙ next,
          flushed,
          rw (← moved) kept',
        )

  Logs-Clean :
      {D : Type 0} (f : Float D) (j : AsyncEventJournal) (events : List JournalEvent)
      → Logs j events []
      → (s : ReplaySummary) × (replay_file f true (some (journal_text events)) ≡ some s)
        × Clean s
        × (s.total_events ≡ length events)
  Logs-Clean f j events logs =
      replay_file-Numbered f events (Numbered-prefix events [] 1 0 logs.numbered)
        (AllInRange-prefix events [] logs.ranges)
        (omega (arith, logs.next, logs.fits, length-append events []))

  module _ (clock : (reading : ℕ) → wall_now_ns reading ≤ u64_max) {D : Type 0} (f : Float D)
      (hist : LatencyHistogram) (j : AsyncEventJournal)
      (r : Reach wall_now_ns mono_now_ns (open_journal [] hist) j) where
    -- A journal starts on an empty file. Appends follow one another, each not refused and of an event
    -- without a number; the worker writes, the stream passes text on, and the process may end once
    -- the worker has, and start again on the file. Clock readings, event numbers and times are within
    -- 64 bits. Once the destructor has then stopped it, the worker's loop ends within one round more
    -- than there are events in the ring, whatever others would do while it waits. The file holds the
    -- lines of exactly the events that were appended since the first start, in their order with the
    -- numbers and times that they were given, and the stream holds nothing back. A strict replay
    -- accepts the file, reports no gap, and counts these events.
    pub worker_loop_ends :
        (blank : JournalEvent) (meanwhile : AsyncEventJournal → AsyncEventJournal) (fuel : ℕ)
        → j.running ≡ false
        → journal_size_approx default_ring_buffer_size j.ring_buffer < fuel
        → let events = numbered_events wall_now_ns mono_now_ns r in
          (j' : AsyncEventJournal) × (worker_loop wall_now_ns mono_now_ns blank meanwhile fuel j
            ≡ some j')
          × (j'.file ≡ journal_text events)
          × (j'.stream ≡ [])
          × (s : ReplaySummary) × (replay_file f true (some j'.file) ≡ some s)
          × Clean s
          × (s.total_events ≡ length events)
          × (s.total_events + 1 ≡ j.next_seq)
    worker_loop_ends blank meanwhile fuel stopped enough =
        let (written, queue, logs, same) = Reach-Logs wall_now_ns mono_now_ns clock hist r in
        let size = size_approx-Logs wall_now_ns mono_now_ns j written queue logs in
        let (j', ends, next, flushed, kept) =
          worker_loop-Logs blank meanwhile queue written j fuel logs stopped
            (omega (arith, size, enough)) in
        let text : j'.file ≡ journal_text (written ++ queue) =
          sym (append-nil j'.file) ∙ sym (ap (λ (t : Bytes). j'.file ++ t) flushed) ∙ kept.text in
        let (s, runs, clean, counted) = Logs-Clean f j' (written ++ queue) kept in
        (
          j',
          ends,
          text ∙ ap journal_text same,
          flushed,
          s,
          rw text runs,
          clean,
          counted ∙ ap (λ (es : List JournalEvent). length es) same,
          omega (arith, counted, logs.next),
        )
