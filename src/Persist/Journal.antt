-- ===== src/Persist/Journal.antt =====
-- `AsyncEventJournal` of backend/modules/persist/src/event_journal.cpp. Each operation is what one
-- thread does when no other takes part, a compare and exchange succeeds at once, and the two clocks
-- give their readings in turn. The text that the stream was handed and has not passed on to the file
-- is apart from the file, and a write does not fail. The signals between the threads are left out, so
-- a worker that waits gives way to `meanwhile`.
pub mod Numbering
pub mod Logs
pub mod Appends
pub mod Steps
pub mod Reopening
pub mod Draining
mod Examples
use axiotick.Common.{
  ℕ, zero, suc, ◌+◌, ◌-◌, ◌%◌, ◌^◌, Bool, true, false, not, ◌&&◌, ◌||◌, if◌then◌else◌, ltb, leb,
  ◌==◌, Option, none, some, List, [], ◌∷◌, ◌++◌,
}
use mathlib.Core.Option.{get_or}
use axiotick.Common.Decimal.{Bytes, codes}
use axiotick.Core.Histogram.{LatencyHistogram, record_value}
use axiotick.Persist.Event.{JournalEvent}
use axiotick.Persist.JournalRing.{
  LockFreeRingBuffer, new_journal_ring, try_push, try_pop, journal_size_approx,
}
use axiotick.Persist.Line.{event_line, parse_u64_field}
use axiotick.Persist.Replay.{next_u64}
use axiotick.Persist.Replay.File.{lines_of}

abbrev pub default_ring_buffer_size : ℕ
default_ring_buffer_size = 65_536

pub record AsyncEventJournal : Type 0 where
  pub file : Bytes
  pub stream : Bytes
  pub ring_buffer : LockFreeRingBuffer JournalEvent
  pub running : Bool
  pub next_seq : ℕ
  pub last_timestamp_ns : ℕ
  pub dropped_events : ℕ
  pub written_events : ℕ
  pub last_written_seq : ℕ
  pub latency_hist : LatencyHistogram
  pub wall_readings : ℕ
  pub mono_readings : ℕ

abbrev pub greater : ℕ → ℕ → ℕ
greater a b = if ltb a b then b else a

-- The greatest number and the latest time in a file: a line without them counts as 0.
unfoldable pub tail_stats : List Bytes → ℕ → ℕ → ℕ × ℕ
tail_stats [] max_seq max_ts = (max_seq, max_ts)
tail_stats ([] ∷ lines) max_seq max_ts = tail_stats lines max_seq max_ts
tail_stats ((c ∷ s) ∷ lines) max_seq max_ts =
    tail_stats lines (greater max_seq (get_or (parse_u64_field (codes "seq") (c ∷ s)) 0))
      (greater max_ts (get_or (parse_u64_field (codes "timestamp_ns") (c ∷ s)) 0))

-- A file that is not there is empty.
abbrev pub load_tail_stats : Bytes → ℕ × ℕ
load_tail_stats file = tail_stats (lines_of file []) 0 0

-- The constructor, where the file can be opened.
unfoldable pub open_journal : Bytes → LatencyHistogram → AsyncEventJournal
open_journal file latency_hist =
    let (last_seq, last_ts) = load_tail_stats file in
    record {
      file = file;
      stream = [];
      ring_buffer = new_journal_ring default_ring_buffer_size;
      running = true;
      next_seq = next_u64 last_seq;
      last_timestamp_ns = last_ts;
      dropped_events = 0;
      written_events = 0;
      last_written_seq = 0;
      latency_hist = latency_hist;
      wall_readings = 0;
      mono_readings = 0;
    }

-- `flush` of the file's stream.
abbrev pub flush_file : AsyncEventJournal → AsyncEventJournal
flush_file j = record j { file = j.file ++ j.stream; stream = [] }

module _ (wall_now_ns mono_now_ns : ℕ → ℕ) where
  -- The number that an event gets, with the number behind it.
  abbrev pub number_event : JournalEvent → AsyncEventJournal → ℕ × ℕ
  number_event event j =
      if event.seq == 0
      then (j.next_seq, next_u64 j.next_seq)
      else (event.seq, greater j.next_seq (next_u64 event.seq))

  abbrev pub normalize_time : ℕ → ℕ → ℕ
  normalize_time previous timestamp_ns =
      if not (previous == 0) && leb timestamp_ns previous then next_u64 previous else timestamp_ns

  unfoldable pub prepare_event : JournalEvent → AsyncEventJournal → JournalEvent × AsyncEventJournal
  prepare_event event j =
      let (seq, next_seq) = number_event event j in
      let unset = event.timestamp_ns == 0 in
      let timestamp_ns = if unset then wall_now_ns j.wall_readings else event.timestamp_ns in
      let normalized = normalize_time j.last_timestamp_ns timestamp_ns in
      (
        record event {
          seq = seq;
          timestamp_ns = normalized;
          enqueued_at_ns = mono_now_ns j.mono_readings;
        },
        record j {
          next_seq = next_seq;
          last_timestamp_ns = normalized;
          wall_readings = if unset then j.wall_readings + 1 else j.wall_readings;
          mono_readings = j.mono_readings + 1;
        },
      )

  -- `append_impl`, which the four ways to append call, as one thread runs it while no other appends;
  -- `none` where the push does not return.
  unfoldable pub append_impl : JournalEvent → AsyncEventJournal → Option (Bool × AsyncEventJournal)
  append_impl event j =
      let (prepared, j') = prepare_event event j in
      elim (try_push default_ring_buffer_size prepared j'.ring_buffer) [
        | none ↦ none
        | some (pushed, ring) ↦
            if pushed
            then some (true, record j' { ring_buffer = ring })
            else some (
              false,
              record j' { ring_buffer = ring; dropped_events = next_u64 j'.dropped_events },
            )
      ]

  unfoldable pub write_event : JournalEvent → AsyncEventJournal → AsyncEventJournal
  write_event event j =
      let stamped = not (event.enqueued_at_ns == 0) in
      let written_at_ns = mono_now_ns j.mono_readings in
      record j {
        stream = j.stream ++ (event_line event ++ b'\n' ∷ []);
        latency_hist =
            if stamped && leb event.enqueued_at_ns written_at_ns
            then record_value (written_at_ns - event.enqueued_at_ns) j.latency_hist
            else j.latency_hist;
        mono_readings = if stamped then j.mono_readings + 1 else j.mono_readings;
        written_events = next_u64 j.written_events;
        last_written_seq = event.seq;
      }

  -- One try of the worker: whether it wrote an event, or `none` where the pop does not return. The
  -- worker's event is blank where the pop gives no value.
  unfoldable pub worker_step : JournalEvent → AsyncEventJournal → Option (Bool × AsyncEventJournal)
  worker_step blank j = elim (try_pop default_ring_buffer_size j.ring_buffer) [
    | none ↦ none
    | some (popped, value, ring) ↦
        let j' = record j { ring_buffer = ring } in
        if popped then some (true, write_event (get_or value blank) j') else some (false, j')
  ]

  -- The worker's loop on fuel, with what the others do while it waits, and the flush at its end.
  unfoldable pub worker_loop :
      JournalEvent
      → (AsyncEventJournal → AsyncEventJournal)
      → ℕ
      → AsyncEventJournal
      → Option AsyncEventJournal
  worker_loop blank meanwhile zero j = none
  worker_loop blank meanwhile (suc fuel) j =
      let rest = elim (worker_step blank j) as (λ _. Option AsyncEventJournal) [
        | none ↦ none
        | some (wrote, j') ↦
            let next = if wrote then j' else meanwhile j' in worker_loop blank meanwhile fuel next
      ] in
      if j.running || ltb 0 (journal_size_approx default_ring_buffer_size j.ring_buffer)
      then rest
      else some (flush_file j)
