-- ===== src/Trading/Examples.antt =====
-- The theorems on the order manager, applied to the test book, over whole-number floats.
mod Held
use axiotick.Common.{
  ℕ, ◌+◌, ◌≤◌, ◌≡◌, ◌⊎◌, inl, Bool, sym, ap, ◌∙◌, refl, true, false, Option, none, some, List, [],
  ◌∷◌, length, ℤ, pos, find, put, remove, ◌-ℤ◌, ◌+ℤ◌, ◌*ℤ◌, contains, arith,
}
use axiotick.Core.Float.Whole.{whole_float}
use axiotick.Core.Order.{Order, tif_fok, side_sell, side_buy}
use axiotick.Core.Trace.{TraceSpans}
use axiotick.Core.FixedPoint.{normalize_order_scalars}
use axiotick.Core.Validator.{is_valid_order}
use axiotick.Core.FixedPoint.{
  from_price_ticks, from_quantity_lots, round_to_i64, signed_notional_units, to_notional_units,
  to_quantity_lots,
}
use axiotick.Engine.PoolAllocator.{try_emplace, reset, at, in_use, deallocate}
use axiotick.Engine.PriceLevels.{find_or_create_level, find_level_index, erase_level}
use axiotick.Engine.OrderBook.{new_book, unlink_node, remove_node}
use axiotick.Engine.OrderBook.Resting.{add_order, get_order}
use axiotick.Engine.OrderBook.Matching.{match_order, is_crossing_level, executable_lots}
use axiotick.Risk.{wrap_int64, try_add_units, normalize_symbol}
use axiotick.Risk.Positions.{refresh_unrealized, check_daily_loss}
use axiotick.Risk.Reservations.{check_order, within_symbol_limits, on_fill, release_fill}
use axiotick.Trading.{emit_event, enforce_history_cap, upsert_state}
use axiotick.Trading.Refusals.{refuse}
use axiotick.Trading.Trades.{apply_trades}
use axiotick.Trading.Submit.{submit_traced, submit_checked, book_trades, finish_done}
use axiotick.Engine.OrderBook.Examples.{small, three_asks, buyer, limit_order}
use axiotick.Engine.OrderBook.Examples.Held.{asks_held, asks-Holds, bids-Holds}
use axiotick.Engine.OrderBook.Promise.{sum_trades}
use axiotick.Risk.{RiskLimits, new_risk_manager}
use axiotick.Risk.Reservations.{on_cancel}
use axiotick.Trading.{OrderManager, OrderState, Clocks, filled, resting, not_rejected}
use axiotick.Trading.Refusals.{OrderSubmissionResult}
use axiotick.Trading.Submit.{submit_order}
use axiotick.Engine.OrderBook.Resting as Book
use axiotick.Trading.{set_history_cap}
use axiotick.Trading.Changes.{cancel_order, modify_order, retire}
use axiotick.Trading.History.{enforce_history_cap_bound}
use axiotick.Trading.Keeps.{SameDesk}
use axiotick.Trading.Errors.{modify_order_refused, cancel_order_gone, submit_order_refused}
use axiotick.Trading.Live.{AllLive, put-AllLive}
use axiotick.Trading.Live.Steps.{here, later, caps, cancels, Reach-AllLive}
use axiotick.Trading.Promise.{submit_order_returns, submit_order_fill_or_kill}

abbrev pub clocks : Clocks
clocks = record { wall_now_ns = λ n. 100 + n; mono_now_ns = λ n. 200 + n }

abbrev limits : RiskLimits ℤ
limits = record {
  max_order_value = pos 1000000;
  max_position_exposure = pos 1000000;
  max_daily_loss = pos 1000000;
  symbol_limits = [];
}

-- A manager with the test book and nothing else.
abbrev pub desk : OrderManager ℤ
desk = record {
  risk_manager = new_risk_manager limits;
  order_book = three_asks;
  journal = some [];
  active_orders = [];
  order_history = [];
  history_order_queue = [];
  history_cap = 4;
  trace = none;
  wall_readings = 0;
  mono_readings = 0;
}

abbrev killer : Order ℤ
killer = record buyer { tif = tif_fok }

-- Whether an answer accepts, and what it reports.
abbrev accepts : Option (OrderSubmissionResult ℤ × OrderManager ℤ) → Bool
accepts none = false
accepts (some (r, m)) = r.accepted

abbrev from_returned :
    Option (OrderSubmissionResult ℤ × OrderManager ℤ) → OrderSubmissionResult ℤ × OrderManager ℤ
from_returned (some a) = a
from_returned none = (
  record {
    accepted = false;
    resting = false;
    filled_quantity = pos 0;
    remaining_quantity = pos 0;
    status = resting;
    reject_reason = not_rejected;
    trades = [];
  },
  desk,
)

from_returned-some :
    (o : Option (OrderSubmissionResult ℤ × OrderManager ℤ))
    (a : OrderSubmissionResult ℤ × OrderManager ℤ)
    → o ≡ some a
    → o ≡ some ((from_returned o).0, (from_returned o).1)
from_returned-some o a e = rw e refl

killer-accepted : accepts (submit_order small clocks killer 7 none desk) ≡ true
unfolding add_order new_book is_valid_order normalize_order_scalars try_emplace reset
    find_or_create_level find_level_index at ◌-ℤ◌ ◌+ℤ◌ ◌*ℤ◌ submit_traced executable_lots
    is_crossing_level check_order within_symbol_limits put remove find from_price_ticks
    from_quantity_lots round_to_i64 signed_notional_units to_notional_units to_quantity_lots
    match_order unlink_node remove_node in_use deallocate erase_level on_cancel on_fill release_fill
    refresh_unrealized check_daily_loss wrap_int64 try_add_units normalize_symbol book_trades
    submit_checked finish_done apply_trades get_order emit_event enforce_history_cap upsert_state
    refuse
killer-accepted = refl

submit_order_returns_example :
    (a : OrderSubmissionResult ℤ × OrderManager ℤ) × (submit_order small clocks killer 7 none desk
      ≡ some a)
unfolding normalize_order_scalars
submit_order_returns_example =
    submit_order_returns small clocks killer 7 none desk asks_held [] asks-Holds bids-Holds

-- What the manager answers the order.
abbrev killer_answer : OrderSubmissionResult ℤ × OrderManager ℤ
killer_answer = from_returned (submit_order small clocks killer 7 none desk)

killer-answered :
    submit_order small clocks killer 7 none desk ≡ some (killer_answer.0, killer_answer.1)
unfolding normalize_order_scalars
killer-answered =
    let (a, runs) =
      submit_order_returns small clocks killer 7 none desk asks_held [] asks-Holds bids-Holds in
    from_returned-some (submit_order small clocks killer 7 none desk) a runs

killer-taken : killer_answer.0.accepted ≡ true
killer-taken = ap accepts (sym killer-answered) ∙ killer-accepted

submit_order_fill_or_kill_example :
    (sum_trades killer_answer.0.trades ≡ (normalize_order_scalars killer).quantity_lots)
    × (killer_answer.0.status ≡ filled)
    × (killer_answer.0.resting ≡ false)
unfolding normalize_order_scalars
submit_order_fill_or_kill_example =
    submit_order_fill_or_kill small clocks killer 7 none desk killer_answer.1 killer_answer.0
      asks_held [] refl asks-Holds bids-Holds killer-answered killer-taken

-- An order without an id.
abbrev unnamed : Order ℤ
unnamed = limit_order 0 side_buy 50 8

abbrev unnamed_answer : OrderSubmissionResult ℤ × OrderManager ℤ
unnamed_answer = from_returned (submit_order small clocks unnamed 7 none desk)

unnamed-answered :
    submit_order small clocks unnamed 7 none desk ≡ some (unnamed_answer.0, unnamed_answer.1)
unfolding normalize_order_scalars
unnamed-answered =
    let (a, runs) =
      submit_order_returns small clocks unnamed 7 none desk asks_held [] asks-Holds bids-Holds in
    from_returned-some (submit_order small clocks unnamed 7 none desk) a runs

unnamed-refused : accepts (submit_order small clocks unnamed 7 none desk) ≡ false
unfolding submit_traced is_valid_order normalize_order_scalars refuse emit_event
unnamed-refused = refl

submit_order_refused_example : SameDesk desk unnamed_answer.1
submit_order_refused_example =
    submit_order_refused small clocks unnamed 7 none desk unnamed_answer.1 unnamed_answer.0
      unnamed-answered (ap accepts (sym unnamed-answered) ∙ unnamed-refused)
