-- ===== src/Persist/Journal/Examples.antt =====
-- The theorems on the journal, applied to one that is opened on an empty file, is handed an event, and
-- is stopped.
use axiotick.Common.{
  ℕ, ◌+◌, ◌≡◌, refl, Bool, true, false, Option, none, some, [], ◌∷◌, length, pos, arith,
}
use axiotick.Core.Float.Whole.{whole_float}
use axiotick.Core.Histogram.{LatencyHistogram, uint64_max}
use axiotick.Persist.Event.{JournalEvent, order_accepted}
use axiotick.Persist.JournalRing.{new_journal_ring, try_push, journal_size_approx}
use axiotick.Persist.Replay.{ReplaySummary}
use axiotick.Persist.Replay.File.{replay_file, lines_of}
use axiotick.Persist.Journal.{
  AsyncEventJournal, tail_stats, open_journal, prepare_event, append_impl, worker_loop,
}
use axiotick.Persist.Replay.Lines.{journal_text}
use axiotick.Persist.Journal.Numbering.{Clean}
use axiotick.Persist.Journal.Steps.{Reach, here, later, appends, stops, numbered_events}
use axiotick.Persist.Journal.Draining.{worker_loop_ends}

abbrev wall : ℕ → ℕ
wall reading = 1000

abbrev mono : ℕ → ℕ
mono reading = 5

abbrev no_latencies : LatencyHistogram
no_latencies = record { buckets = λ _. 0; count = 0; sum = 0; max_ns = 0; min_ns = uint64_max }

abbrev event : JournalEvent
event = record {
  seq = 0;
  timestamp_ns = 0;
  type = order_accepted;
  order_id = 7;
  related_order_id = 0;
  price_ticks = pos 1_000_000;
  quantity_lots = pos 50;
  remaining_lots = pos 50;
  reason_code = pos 0;
  side = 1;
  order_type = 1;
  tif = 1;
  resting = true;
  related_signal_id = 0;
  tick_id = 0;
  enqueued_at_ns = 0;
}

abbrev opened : AsyncEventJournal
opened = open_journal [] no_latencies

abbrev appended : Option (Bool × AsyncEventJournal) → AsyncEventJournal
appended none = opened
appended (some (answer, j)) = j

abbrev holding : AsyncEventJournal
holding = appended (append_impl wall mono event opened)

holding_append : append_impl wall mono event opened ≡ some (true, holding)
unfolding append_impl prepare_event open_journal tail_stats lines_of new_journal_ring try_push
holding_append = refl

abbrev holding_reached : Reach wall mono opened (record holding { running = false })
holding_reached =
    later
      (later here (
        appends event refl (omega arith) (unfold open_journal tail_stats lines_of in omega arith)
          (unfold open_journal tail_stats lines_of in omega arith) holding_append))
      stops

worker_loop_ends_example :
    let events = numbered_events wall mono holding_reached in
    (j' : AsyncEventJournal) × (worker_loop wall mono event
        (λ j. j)
        2
        (record holding { running = false })
      ≡ some j')
    × (j'.file ≡ journal_text events)
    × (j'.stream ≡ [])
    × (s : ReplaySummary) × (replay_file whole_float true (some j'.file) ≡ some s)
    × Clean s
    × (s.total_events ≡ length events)
    × (s.total_events + 1 ≡ holding.next_seq)
unfolding append_impl prepare_event open_journal tail_stats lines_of new_journal_ring try_push
    journal_size_approx
worker_loop_ends_example =
    worker_loop_ends wall mono (λ reading. omega arith) whole_float no_latencies
      (record holding { running = false }) holding_reached event (λ j. j) 2 refl (omega arith)

numbered :
    numbered_events wall mono holding_reached
    ≡ record event { seq = 1; timestamp_ns = 1000; enqueued_at_ns = 5 } ∷ []
unfolding prepare_event open_journal tail_stats lines_of
numbered = refl
