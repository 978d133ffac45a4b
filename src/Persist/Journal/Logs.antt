-- ===== src/Persist/Journal/Logs.antt =====
-- What the file and the ring of `AsyncEventJournal` of backend/modules/persist/src/event_journal.cpp
-- hold, after a start and while the worker writes.
use axiotick.Common.{
  ℕ, ◌+◌, ◌≤◌, ◌<◌, ◌≡◌, refl, sym, ap, ◌∙◌, Bool, true, false, none, some, List, [], ◌∷◌, ◌++◌,
  length, arith,
}
use mathlib.Core.List.{append-nil, append_assoc}
use axiotick.Core.Histogram.{LatencyHistogram}
use axiotick.Persist.Event.{JournalEvent}
use axiotick.Common.Decimal.{Bytes}
use axiotick.Persist.JournalRing.{try_pop, journal_size_approx}
use axiotick.Persist.JournalRing.Fifo.{HoldsQueue}
use axiotick.Persist.JournalRing.Steps.{try_pop-HoldsQueue}
use axiotick.Persist.JournalRing.History.{new_journal_ring-HoldsQueue}
use axiotick.Persist.Line.{event_line, u64_max}
use axiotick.Persist.Replay.Lines.{journal_text, AllInRange}
use axiotick.Persist.Journal.{
  AsyncEventJournal, default_ring_buffer_size, open_journal, write_event, worker_step,
}
use axiotick.Persist.Journal.Numbering.{Numbered, last_time}
use axiotick.Persist.Journal.Reopening.{load_tail_stats-journal_text}

-- The file and its stream hold the events that were written and the ring those that wait; together they are
-- numbered from 1 on, in rising time, and the journal goes on behind them.
pub record Logs (j : AsyncEventJournal) (written queue : List JournalEvent) : Type 0 where
  pub text : j.file ++ j.stream ≡ journal_text written
  pub held : HoldsQueue 16 j.ring_buffer queue
  pub numbered : Numbered 1 0 (written ++ queue)
  pub ranges : AllInRange (written ++ queue)
  pub next : j.next_seq ≡ 1 + length (written ++ queue)
  pub last : j.last_timestamp_ns ≡ last_time 0 (written ++ queue)
  pub fits : j.next_seq ≤ u64_max

journal_text-append :
    (written : List JournalEvent) (event : JournalEvent)
    → journal_text (written ++ event ∷ [])
      ≡ journal_text written ++ (event_line event ++ b'\n' ∷ [])
journal_text-append [] event = refl
journal_text-append (e ∷ written) event =
    rw (journal_text-append written event)
      (sym (append_assoc (event_line e) (b'\n' ∷ journal_text written) _))

pub opened-Logs :
    (file_events : List JournalEvent) (hist : LatencyHistogram)
    → Numbered 1 0 file_events
    → AllInRange file_events
    → length file_events < u64_max
    → Logs (open_journal (journal_text file_events) hist) file_events []
unfolding open_journal
opened-Logs file_events hist numbered all below =
    let stats = load_tail_stats-journal_text file_events numbered all in
    rw stats (record {
      text = append-nil _;
      held = new_journal_ring-HoldsQueue 16;
      numbered = rw append-nil numbered;
      ranges = rw append-nil all;
      next = rw append-nil (omega (arith, below));
      last = rw append-nil refl;
      fits = omega (arith, below);
    })

module _ (wall_now_ns mono_now_ns : ℕ → ℕ) where
  pub size_approx-Logs :
      (j : AsyncEventJournal) (written queue : List JournalEvent)
      → Logs j written queue
      → journal_size_approx default_ring_buffer_size j.ring_buffer ≡ length queue
  unfolding journal_size_approx
  size_approx-Logs j written queue logs = ground (arith, logs.held.written, logs.held.bounded)

  pub worker_step-event :
      (j : AsyncEventJournal) (written queue : List JournalEvent) (event blank : JournalEvent)
      → Logs j written (event ∷ queue)
      → (j' : AsyncEventJournal) × (worker_step wall_now_ns mono_now_ns blank j ≡ some (true, j'))
        × (j'.running ≡ j.running)
        × (j'.next_seq ≡ j.next_seq)
        × Logs j' (written ++ event ∷ []) queue
  unfolding worker_step write_event
  worker_step-event j written queue event blank logs =
      let (ring, runs, kept) = try_pop-HoldsQueue 16 j.ring_buffer (event ∷ queue) logs.held in
      let after = write_event wall_now_ns mono_now_ns event (record j { ring_buffer = ring }) in
      let popped : try_pop default_ring_buffer_size j.ring_buffer ≡ some (true, some event, ring) =
        runs in
      let moved : (written ++ event ∷ []) ++ queue ≡ written ++ event ∷ queue =
        append_assoc written (event ∷ []) queue in
      (
        after,
        rw (worker_step, popped) refl,
        refl,
        refl,
        record {
          text =
              sym (append_assoc j.file j.stream (event_line event ++ b'\n' ∷ []))
              ∙ ap (λ (text : Bytes). text ++ (event_line event ++ b'\n' ∷ [])) logs.text
              ∙ sym (journal_text-append written event);
          held = kept;
          numbered = rw moved logs.numbered;
          ranges = rw moved logs.ranges;
          next = rw moved logs.next;
          last = rw moved logs.last;
          fits = logs.fits;
        },
      )

  worker_step-none :
      (j : AsyncEventJournal) (written : List JournalEvent) (blank : JournalEvent)
      → Logs j written []
      → (j' : AsyncEventJournal) × (worker_step wall_now_ns mono_now_ns blank j ≡ some (false, j'))
        × Logs j' written []
  unfolding worker_step
  worker_step-none j written blank logs =
      let (ring, runs, kept) = try_pop-HoldsQueue 16 j.ring_buffer [] logs.held in
      let popped : try_pop default_ring_buffer_size j.ring_buffer ≡ some (false, none, ring) =
        runs in
      (
        record j { ring_buffer = ring },
        rw (worker_step, popped) refl,
        record {
          text = logs.text;
          held = kept;
          numbered = logs.numbered;
          ranges = logs.ranges;
          next = logs.next;
          last = logs.last;
          fits = logs.fits;
        },
      )

  pub worker_step-Logs :
      (j j' : AsyncEventJournal) (written queue : List JournalEvent) (blank : JournalEvent)
      (answer : Bool)
      → Logs j written queue
      → worker_step wall_now_ns mono_now_ns blank j ≡ some (answer, j')
      → (written' queue' : List JournalEvent) × Logs j' written' queue'
        × (written' ++ queue' ≡ written ++ queue)
  worker_step-Logs j j' written [] blank answer logs e =
      let (after, made, kept) = worker_step-none j written blank logs in
      let same : after ≡ j' = cc in rw (← same) (written, [], kept, refl)
  worker_step-Logs j j' written (event ∷ queue) blank answer logs e =
      let (after, made, runs, next, kept) = worker_step-event j written queue event blank logs in
      let same : after ≡ j' = cc in
      rw (← same) (written ++ event ∷ [], queue, kept, append_assoc written (event ∷ []) queue)
