-- ===== src/Trading.antt =====
-- `OrderManager` of backend/include/trading/order_manager.hpp: its state, its journal and the history
-- of backend/modules/trading/src/order_manager.cpp. The mutex makes each operation one step. The
-- constructor's pointers to the risk manager and the book are never null, so `submit_order` does not
-- answer `InternalError`; the journal may be null. The two clocks are parameters that give their
-- readings in turn; the state counts the readings, and holds the
-- trace of the call in progress, which is `none` in a call that has none.
pub mod Refusals
pub mod Trades
pub mod Submit
pub mod Changes
pub mod History
pub mod Keeps
pub mod Errors
pub mod Accounts
pub mod Accepted
pub mod Promise
pub mod Live
mod Examples
use axiotick.Common.{
  ℕ, ◌+◌, Bool, true, false, not, ◌&&◌, if◌then◌else◌, ltb, ◌==◌, Option, none, some, List, [], ◌∷◌,
  ◌++◌, length, ℤ, pos, Dict, find, put, remove, contains,
}
use axiotick.Core.Order.{Order}
use axiotick.Core.Trace.{TraceSpans, journal_enqueue, stamp, stamped}
use axiotick.Engine.OrderBook.{OrderBook}
use axiotick.Risk.{RiskManager}
use axiotick.Persist.Event.{JournalEvent, JournalEventType}

-- `None` is `not_rejected`.
pub data OrderRejectReason : Type 0 where
  not_rejected invalid_order duplicate_order_id : OrderRejectReason
  risk_rejected internal_error liquidity_unavailable : OrderRejectReason

abbrev pub reason_code : OrderRejectReason → ℕ
reason_code not_rejected = 0
reason_code invalid_order = 1
reason_code duplicate_order_id = 2
reason_code risk_rejected = 3
reason_code internal_error = 4
reason_code liquidity_unavailable = 5

pub data OrderStatus : Type 0 where
  new resting partially_filled filled canceled rejected : OrderStatus

pub record OrderState (D : Type 0) : Type 0 where
  pub order : Order D
  pub initial_lots : ℤ
  pub remaining_lots : ℤ
  pub filled_lots : ℤ
  pub status : OrderStatus
  pub reject_reason : OrderRejectReason
  pub updated_at_ns : ℕ
  pub related_signal_id : ℕ
  pub origin_tick_id : ℕ

pub record HistoryEntry : Type 0 where
  pub order_id : ℕ
  pub updated_at_ns : ℕ

pub record OrderManager (D : Type 0) : Type 0 where
  pub risk_manager : RiskManager D
  pub order_book : OrderBook D
  pub journal : Option (List JournalEvent)
  pub active_orders : Dict (OrderState D)
  pub order_history : Dict (OrderState D)
  pub history_order_queue : List HistoryEntry
  pub history_cap : ℕ
  pub trace : Option TraceSpans
  pub wall_readings : ℕ
  pub mono_readings : ℕ

-- What the parts of an event have in common: the order, its lots, and where it came from.
abbrev pub order_event :
    {D : Type 0} → JournalEventType → ℕ → Order D → ℤ → ℤ → ℕ → Bool → ℕ → ℕ → JournalEvent
order_event type now o quantity remaining reason rests signal tick = record {
  seq = 0;
  timestamp_ns = now;
  type = type;
  order_id = o.order_id;
  related_order_id = 0;
  price_ticks = o.price_ticks;
  quantity_lots = quantity;
  remaining_lots = remaining;
  reason_code = pos reason;
  side = o.side;
  order_type = o.type;
  tif = o.tif;
  resting = rests;
  related_signal_id = signal;
  tick_id = tick;
  enqueued_at_ns = 0;
}

module _ {D : Type 0} where
  -- The loop of `enforce_history_cap_unlocked`, along the queue.
  unfoldable pub enforce_from :
      ℕ
      → Dict (OrderState D)
      → Dict (OrderState D)
      → List HistoryEntry
      → Dict (OrderState D) × List HistoryEntry
  enforce_from cap active history [] = (history, [])
  enforce_from cap active history (e ∷ queue) =
      let erases : Bool = elim (find e.order_id history) [
        | none ↦ false
        | some s ↦ s.updated_at_ns == e.updated_at_ns && not (contains e.order_id active)
      ] in
      let rest =
        enforce_from cap active (if erases then remove e.order_id history else history) queue in
      if ltb cap (length history) then rest else (history, e ∷ queue)

  unfoldable pub enforce_history_cap : OrderManager D → OrderManager D
  enforce_history_cap m =
      let (history, queue) =
        enforce_from m.history_cap m.active_orders m.order_history m.history_order_queue in
      record m { order_history = history; history_order_queue = queue }

  unfoldable pub upsert_state : OrderState D → OrderManager D → OrderManager D
  unfolding enforce_history_cap
  upsert_state s m = enforce_history_cap (record m {
    order_history = put s.order.order_id s m.order_history;
    history_order_queue =
        m.history_order_queue
        ++ record { order_id = s.order.order_id; updated_at_ns = s.updated_at_ns } ∷ [];
  })

  unfoldable pub set_history_cap : ℕ → OrderManager D → OrderManager D
  unfolding enforce_history_cap
  set_history_cap n m = enforce_history_cap (record m { history_cap = if n == 0 then 1 else n })

  unfoldable pub get_order_state : ℕ → OrderManager D → Option (OrderState D)
  get_order_state id m = elim (find id m.active_orders) [
    | some s ↦ some s
    | none ↦ find id m.order_history
  ]

  abbrev pub active_order_count : OrderManager D → ℕ
  active_order_count m = length m.active_orders

  abbrev pub history_order_count : OrderManager D → ℕ
  history_order_count m = length m.order_history

-- The readings of the wall clock and of the monotonic clock.
pub record Clocks : Type 0 where
  pub wall_now_ns : ℕ → ℕ
  pub mono_now_ns : ℕ → ℕ

module _ {D : Type 0} (clocks : Clocks) where
  -- `core::wall_now_ns()`: the reading, and the state after it.
  abbrev pub now : OrderManager D → ℕ
  now m = clocks.wall_now_ns m.wall_readings

  abbrev pub read : OrderManager D → OrderManager D
  read m = record m { wall_readings = m.wall_readings + 1 }

  -- `if (trace) trace->stamp(stage)`.
  abbrev pub stamp_trace : ℕ → OrderManager D → OrderManager D
  stamp_trace stage m = elim m.trace [
    | none ↦ m
    | some t ↦ record m {
      trace = some (stamp stage (clocks.mono_now_ns m.mono_readings) t);
      mono_readings = m.mono_readings + (if stamped t stage then 0 else 1);
    }
  ]

  -- `journal_->append`; what becomes of the event behind it is not read.
  abbrev pub append : JournalEvent → List JournalEvent → OrderManager D → OrderManager D
  append e events m =
      if e.timestamp_ns == 0
      then read (record m { journal = some (events ++ record e { timestamp_ns = now m } ∷ []) })
      else record m { journal = some (events ++ e ∷ []) }

  unfoldable pub emit_event : JournalEvent → OrderManager D → OrderManager D
  emit_event e m = elim m.journal [
    | none ↦ m
    | some events ↦ stamp_trace journal_enqueue (append e events m)
  ]
