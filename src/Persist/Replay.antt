-- ===== src/Persist/Replay.antt =====
-- The state that the loop of `EventReplayer::replay_file` of
-- backend/modules/persist/src/event_journal.cpp keeps. A sum of `int64_t`
-- values is exact here; beyond the range it is undefined in the source.
pub mod Updates
pub mod File
pub mod Lines
pub mod Gaps
pub mod Strict
pub mod Tracks
pub mod Orders
mod Examples
use axiotick.Common.{
  ℕ, ◌+◌, ◌%◌, ◌^◌, Bool, true, false, not, ◌&&◌, ◌||◌, if◌then◌else◌, ltb, leb, ◌==◌, Option, none,
  some, List, [], ◌∷◌, ◌++◌, ℤ, pos, ◌+ℤ◌, ◌-ℤ◌, ltb_ℤ, leb_ℤ, ◌==ℤ◌, min_ℤ, max_ℤ, neg_ℤ, Dict,
  find, put, remove,
}
use mathlib.Core.Option.{get_or}
use axiotick.Core.Float.{Float}
use axiotick.Core.Order.{side_buy, side_sell}
use axiotick.Core.FixedPoint.{to_notional_units}
use axiotick.Persist.Event.{
  order_accepted, order_rejected, trade_executed, order_canceled, order_replaced, gateway_rejected,
  JournalEvent,
}

pub record ReplayOrderState : Type 0 where
  pub price_ticks : ℤ
  pub initial_lots : ℤ
  pub remaining_lots : ℤ
  pub filled_lots : ℤ
  pub side : ℕ
  pub status : ℕ

pub record ReplaySummary : Type 0 where
  pub total_events : ℕ
  pub accepted : ℕ
  pub rejected : ℕ
  pub gateway_rejections : ℕ
  pub trades : ℕ
  pub canceled : ℕ
  pub replaced : ℕ
  pub sequence_gaps : ℕ
  pub monotonic_seq : Bool
  pub monotonic_time : Bool
  pub committed_exposure_units : ℤ
  pub filled_exposure_units : ℤ
  pub net_position_lots : ℤ
  pub gap_positions : List ℕ
  pub active_orders : Dict ReplayOrderState
  pub order_history : Dict ReplayOrderState

-- The summary with the local variables of `replay_file`.
pub record Replay : Type 0 where
  pub summary : ReplaySummary
  pub last_seq : ℕ
  pub last_ts : ℕ
  pub seen_fill_lots : Dict ℤ

abbrev pub no_summary : ReplaySummary
no_summary = record {
  total_events = 0;
  accepted = 0;
  rejected = 0;
  gateway_rejections = 0;
  trades = 0;
  canceled = 0;
  replaced = 0;
  sequence_gaps = 0;
  monotonic_seq = true;
  monotonic_time = true;
  committed_exposure_units = pos 0;
  filled_exposure_units = pos 0;
  net_position_lots = pos 0;
  gap_positions = [];
  active_orders = [];
  order_history = [];
}

abbrev pub new_replay : Replay
new_replay = record { summary = no_summary; last_seq = 0; last_ts = 0; seen_fill_lots = [] }

abbrev pub no_order : ReplayOrderState
no_order = record {
  price_ticks = pos 0;
  initial_lots = pos 0;
  remaining_lots = pos 0;
  filled_lots = pos 0;
  side = 0;
  status = 0;
}

abbrev pub status_resting : ℕ
status_resting = 1

abbrev pub status_partially_filled : ℕ
status_partially_filled = 2

abbrev pub status_filled : ℕ
status_filled = 3

abbrev pub status_canceled : ℕ
status_canceled = 4

abbrev pub status_rejected : ℕ
status_rejected = 5

-- The next value of a counter of 64 bits.
abbrev pub next_u64 : ℕ → ℕ
next_u64 n = (n + 1) % 2 ^ 64

abbrev pub positive_part : ℤ → ℤ
positive_part = max_ℤ (pos 0)
