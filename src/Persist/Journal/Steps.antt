-- ===== src/Persist/Journal/Steps.antt =====
-- The steps of `AsyncEventJournal` of backend/modules/persist/src/event_journal.cpp, in any order: an
-- append that is not refused, with no other append at the same time; the worker; the stream, which
-- passes on what it holds as it likes; and an end of the process after the worker has ended, which
-- closes the file, and a new start on it.
use axiotick.Common.{
  ℕ, ◌≤◌, ◌<◌, ◌≡◌, refl, sym, ap, ◌∙◌, Bool, true, false, some, List, [], ◌∷◌, ◌++◌, zero, suc,
  take, drop, length-append, arith,
}
use mathlib.Core.List.{append-nil, append_assoc}
use axiotick.Common.Decimal.{Bytes}
use axiotick.Persist.JournalRing.{journal_size_approx}
use axiotick.Core.Histogram.{LatencyHistogram}
use axiotick.Persist.Event.{JournalEvent}
use axiotick.Persist.Line.{u64_max}
use axiotick.Persist.Line.RoundTrip.{InRange}
use axiotick.Persist.Journal.{
  AsyncEventJournal, default_ring_buffer_size, open_journal, flush_file, prepare_event, append_impl,
  worker_step,
}
use axiotick.Persist.Journal.Numbering.{Numbered-prefix, AllInRange-prefix}
use axiotick.Persist.Journal.Logs.{Logs, size_approx-Logs, opened-Logs, worker_step-Logs}
use axiotick.Persist.Journal.Appends.{append_impl-Logs}

take-append-drop : (n : ℕ) (s : Bytes) → take n s ++ drop n s ≡ s
take-append-drop zero s = refl
take-append-drop (suc n) [] = refl
take-append-drop (suc n) (c ∷ s) = rw (take-append-drop n s) refl

module _ (wall_now_ns mono_now_ns : ℕ → ℕ) where
  -- The events that are appended come without a number.
  pub data Step (j : AsyncEventJournal) : AsyncEventJournal → Type 0 where
    appends :
        (event : JournalEvent) {j' : AsyncEventJournal}
        → event.seq ≡ 0
        → InRange event
        → j.next_seq < u64_max
        → j.last_timestamp_ns < u64_max
        → append_impl wall_now_ns mono_now_ns event j ≡ some (true, j')
        → Step j j'
    writes :
        (blank : JournalEvent) {answer : Bool} {j' : AsyncEventJournal}
        → worker_step wall_now_ns mono_now_ns blank j ≡ some (answer, j')
        → Step j j'
    passes :
        (count : ℕ)
        → Step j (record j { file = j.file ++ take count j.stream; stream = drop count j.stream })
    reopens :
        (hist : LatencyHistogram)
        → j.running ≡ false
        → journal_size_approx default_ring_buffer_size j.ring_buffer ≡ 0
        → j.next_seq < u64_max
        → Step j (open_journal (flush_file j).file hist)
    -- What the destructor tells the worker.
    stops : Step j (record j { running = false })

  pub data Reach (start : AsyncEventJournal) : AsyncEventJournal → Type 0 where
    here : Reach start start
    later : {j j' : AsyncEventJournal} → Reach start j → Step j j' → Reach start j'

  -- The events that the appends of a history have numbered, as they went to the ring.
  abbrev pub numbered_by : {j j' : AsyncEventJournal} → Step j j' → List JournalEvent
  numbered_by {j} (appends event fresh range room time e) =
      (prepare_event wall_now_ns mono_now_ns event j).0 ∷ []
  numbered_by (writes blank e) = []
  numbered_by (passes count) = []
  numbered_by (reopens hist stopped drained room) = []
  numbered_by stops = []

  abbrev pub numbered_events : {start j : AsyncEventJournal} → Reach start j → List JournalEvent
  numbered_events here = []
  numbered_events (later r s) = numbered_events r ++ numbered_by s

  module _ (clock : (reading : ℕ) → wall_now_ns reading ≤ u64_max) where
    unchanged-Logs :
        (j j' : AsyncEventJournal) (written queue : List JournalEvent)
        → Logs j written queue
        → j'.file ++ j'.stream ≡ j.file ++ j.stream
        → j'.ring_buffer ≡ j.ring_buffer
        → j'.next_seq ≡ j.next_seq
        → j'.last_timestamp_ns ≡ j.last_timestamp_ns
        → Logs j' written queue
    unchanged-Logs j j' written queue logs text ring next last = record {
      text = text ∙ logs.text;
      held = rw ring logs.held;
      numbered = logs.numbered;
      ranges = logs.ranges;
      next = next ∙ logs.next;
      last = last ∙ logs.last;
      fits = rw next logs.fits;
    }

    Step-Logs :
        (j j' : AsyncEventJournal) (written queue : List JournalEvent)
        → Logs j written queue
        → (s : Step j j')
        → (written' queue' : List JournalEvent) × Logs j' written' queue'
          × (written' ++ queue' ≡ (written ++ queue) ++ numbered_by s)
    Step-Logs j j' written queue logs (appends event fresh range room time e) = (
      written,
      queue ++ (prepare_event wall_now_ns mono_now_ns event j).0 ∷ [],
      append_impl-Logs wall_now_ns mono_now_ns clock j j' written queue event logs fresh range room
          time e,
      sym (append_assoc written queue _),
    )
    Step-Logs j j' written queue logs (writes blank {answer} e) =
        let (written', queue', after, same) =
          worker_step-Logs wall_now_ns mono_now_ns j j' written queue blank answer logs e in
        (written', queue', after, same ∙ sym (append-nil _))
    Step-Logs j j' written queue logs (passes count) = (
      written,
      queue,
      unchanged-Logs j j' written queue logs
          (append_assoc j.file (take count j.stream) (drop count j.stream)
            ∙ ap (λ (s : Bytes). j.file ++ s) (take-append-drop count j.stream))
          refl refl refl,
      sym (append-nil _),
    )
    Step-Logs j j' written [] logs (reopens hist stopped drained room) = (
      written,
      [],
      rw logs.text (
          opened-Logs written hist (Numbered-prefix written [] 1 0 logs.numbered)
            (AllInRange-prefix written [] logs.ranges)
            (omega (arith, room, logs.next, length-append written []))),
      sym (append-nil _),
    )
    Step-Logs j j' written (event ∷ queue) logs (reopens hist stopped drained room) =
        let size = size_approx-Logs wall_now_ns mono_now_ns j written (event ∷ queue) logs in
        absurd (omega (arith, size, drained))
    Step-Logs j j' written queue logs stops = (
      written,
      queue,
      unchanged-Logs j j' written queue logs refl refl refl refl,
      sym (append-nil _),
    )

    pub Reach-Logs :
        (hist : LatencyHistogram) {j : AsyncEventJournal} (r : Reach (open_journal [] hist) j)
        → (written queue : List JournalEvent) × Logs j written queue
          × (written ++ queue ≡ numbered_events r)
    Reach-Logs hist here = ([], [], opened-Logs [] hist tt tt (omega arith), refl)
    Reach-Logs hist (later {j} {j'} r s) =
        let (written, queue, logs, same) = Reach-Logs hist r in
        let (written', queue', logs', more) = Step-Logs j j' written queue logs s in
        (written', queue', logs', more ∙ ap (λ (es : List JournalEvent). es ++ numbered_by s) same)
