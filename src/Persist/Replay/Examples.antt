-- ===== src/Persist/Replay/Examples.antt =====
-- The theorems on replays, applied to three events of which one is missing, and to their file.
use axiotick.Common.{
  map, ◌≡◌, refl, true, false, some, List, [], ◌∷◌, ◌++◌, ◌&&◌, pos, negsuc, find, put, ◌+ℤ◌, ◌-ℤ◌,
  ◌*ℤ◌, arith,
}
use axiotick.Common.Decimal.{codes, digits_before, decimal}
use axiotick.Core.Float.Whole.{whole_float}
use axiotick.Core.FixedPoint.{to_notional_units}
use axiotick.Persist.Event.{JournalEvent, order_accepted, trade_executed, order_canceled}
use axiotick.Persist.Line.{value_text, entries_text, event_line, parse_event}
use axiotick.Persist.Replay.{ReplayOrderState, ReplaySummary, no_summary, Replay, new_replay}
use axiotick.Persist.Replay.Updates.{
  apply_fill_to_state, apply_fill, apply_accepted, signed_notional_units, add_party,
  apply_trade_event, apply_type,
}
use axiotick.Persist.Replay.File.{
  lines_of, checked, replay_event, replay_events, commit, finished, replay_file,
}
use axiotick.Persist.Replay.Lines.{journal_text, AllInRange, replay_file-journal_text}
use axiotick.Persist.Replay.Gaps.{replay_events-checks}
use axiotick.Persist.Replay.Strict.{gapless, replay_file-strict}
use axiotick.Persist.Replay.Tracks.{Tracks}
use axiotick.Persist.Replay.Orders.{replay_file-Tracks}

abbrev accepted : JournalEvent
accepted = record {
  seq = 1;
  timestamp_ns = 100;
  type = order_accepted;
  order_id = 7;
  related_order_id = 0;
  price_ticks = pos 1_000_000;
  quantity_lots = pos 50;
  remaining_lots = pos 50;
  reason_code = pos 0;
  side = 1;
  order_type = 1;
  tif = 1;
  resting = true;
  related_signal_id = 0;
  tick_id = 0;
  enqueued_at_ns = 5;
}

abbrev traded : JournalEvent
traded = record accepted {
  seq = 2;
  timestamp_ns = 130;
  type = trade_executed;
  order_id = 9;
  related_order_id = 7;
  price_ticks = negsuc 41;
  quantity_lots = pos 20;
}

abbrev canceled : JournalEvent
canceled = record accepted { seq = 4; timestamp_ns = 120; type = order_canceled }

abbrev events : List JournalEvent
events = accepted ∷ traded ∷ canceled ∷ []

events-AllInRange : AllInRange events
events-AllInRange = (omega arith, (omega arith, (omega arith, tt)))

replay_file-journal_text_example :
    (map parse_event (lines_of (journal_text events) [])
      ≡ map (λ (event : JournalEvent). some (record event { enqueued_at_ns = 0 })) events)
    × (replay_file whole_float false (some (journal_text events))
        ≡ finished whole_float (replay_events whole_float false events new_replay))
replay_file-journal_text_example =
    replay_file-journal_text whole_float false events events-AllInRange

replay_events-checks_example :
    (r' : Replay) × (replay_events whole_float false events new_replay ≡ some r')
    × (r'.summary.gap_positions ≡ [] ++ 3 ∷ [])
    × (r'.summary.monotonic_seq ≡ (true && true))
    × (r'.summary.monotonic_time ≡ (true && false))
replay_events-checks_example = replay_events-checks whole_float events new_replay

replay_file-strict_example :
    replay_file whole_float true (some (journal_text events))
    ≡ gapless (replay_file whole_float false (some (journal_text events)))
replay_file-strict_example = replay_file-strict whole_float (some (journal_text events))

-- What is left of the order of 50 lots when 20 of them are traded.
abbrev left : ReplayOrderState
left = record {
  price_ticks = pos 1_000_000;
  initial_lots = pos 50;
  remaining_lots = pos 30;
  filled_lots = pos 20;
  side = 1;
  status = 2;
}

abbrev summary : ReplaySummary
summary = record no_summary {
  total_events = 2;
  accepted = 1;
  trades = 1;
  committed_exposure_units = pos 30_000_000;
  active_orders = (7, left) ∷ [];
  order_history = (7, left) ∷ [];
}

replayed :
    replay_file whole_float false (some (journal_text (accepted ∷ traded ∷ []))) ≡ some summary
unfolding replay_events replay_event checked apply_type apply_trade_event add_party apply_fill
    apply_fill_to_state apply_accepted signed_notional_units to_notional_units commit find put ◌+ℤ◌
    ◌-ℤ◌ ◌*ℤ◌
replayed =
    (replay_file-journal_text whole_float false (accepted ∷ traded ∷ [])
      (events-AllInRange.0, (events-AllInRange.1.0, tt))).1

replay_file-Tracks_example : Tracks ((7, left) ∷ []) ((7, left) ∷ [])
replay_file-Tracks_example =
    replay_file-Tracks whole_float false (some (journal_text (accepted ∷ traded ∷ []))) summary
      replayed

line_of_cancel :
    event_line canceled
    ≡ codes
        "{\"seq\":4,\"timestamp_ns\":120,\"type\":\"order_canceled\",\"order_id\":7,\"related_order_id\":0,\"related_signal_id\":0,\"tick_id\":0,\"price_ticks\":1000000,\"quantity_lots\":50,\"remaining_lots\":50,\"reason_code\":0,\"side\":1,\"order_type\":1,\"tif\":1,\"resting\":true}"
unfolding event_line entries_text value_text decimal digits_before
line_of_cancel = refl
