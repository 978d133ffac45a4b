-- ===== src/Trading/Submit.antt =====
-- `submit_order` of backend/modules/trading/src/order_manager.cpp. The
-- answer is `none` only where `match_order` runs out of its fuel.
use axiotick.Common.{
  ℕ, Bool, true, false, not, ◌&&◌, ◌||◌, if◌then◌else◌, ◌==◌, Option, none, some, List, ℤ, pos,
  ltb_ℤ, ◌==ℤ◌, put, contains,
}
use mathlib.Core.Option
use axiotick.Core.Float.{Float}
use axiotick.Core.Order.{Order, Trade, order_type_limit, tif_gtc, tif_fok}
use axiotick.Core.Trace.{TraceSpans, risk_verdict, oms_accept}
use axiotick.Core.FixedPoint.{normalize_order_scalars, from_quantity_lots}
use axiotick.Core.Validator.{is_valid_order}
use axiotick.Engine.OrderBook.{Capacity, OrderBook}
use axiotick.Engine.OrderBook.Resting.{get_order}
use axiotick.Engine.OrderBook.Matching.{match_order, executable_lots}
use axiotick.Risk.Reservations.{check_order, on_cancel}
use axiotick.Persist.Event.{order_accepted}
use axiotick.Trading.{
  not_rejected, invalid_order, duplicate_order_id, risk_rejected, liquidity_unavailable,
  OrderStatus, resting, partially_filled, filled, canceled, OrderState, OrderManager, order_event,
  Clocks, now, read, stamp_trace, emit_event, upsert_state,
}
use axiotick.Trading.Refusals.{OrderSubmissionResult, refuse, refuse_recorded}
use axiotick.Trading.Trades.{Taking, apply_trades}

abbrev pub tick_id_of : Option TraceSpans → ℕ
tick_id_of none = 0
tick_id_of (some t) = t.tick_id

module _ {D : Type 0} ⦃f : Float D⦄ (k : Capacity) (clocks : Clocks) where
  -- The taker's state once its trades are booked, with its status and the lots it stays with.
  abbrev pub taker_state : Order D → OrderStatus → ℤ → ℕ → ℕ → ℕ → ℤ → Taking D → OrderState D
  taker_state order status left time signal tick initial t = record {
    order = order;
    initial_lots = initial;
    remaining_lots = left;
    filled_lots = t.filled_lots;
    status = status;
    reject_reason = not_rejected;
    updated_at_ns = time;
    related_signal_id = signal;
    origin_tick_id = tick;
  }

  abbrev pub with_lots : Order D → ℤ → Order D
  with_lots n lots = record n { quantity_lots = lots; quantity = from_quantity_lots lots }

  -- The branch of a residual that rests.
  unfoldable pub finish_resting : Order D → ℕ → ℕ → Taking D → OrderStatus × OrderManager D
  finish_resting n signal tick t =
      let m = t.manager in
      let residual = with_lots n t.remaining_lots in
      let status = if ltb_ℤ (pos 0) t.filled_lots then partially_filled else resting in
      let state =
        taker_state residual status t.remaining_lots (now clocks m) signal tick n.quantity_lots t in
      (
        status,
        emit_event clocks
            (order_event order_accepted (now clocks m) residual n.quantity_lots t.remaining_lots 0
              true signal tick)
            (upsert_state state (record (read clocks m) {
              active_orders = put residual.order_id state m.active_orders;
            })),
      )

  abbrev pub final_status : Taking D → OrderStatus
  final_status t =
      if t.remaining_lots ==ℤ pos 0
      then if ltb_ℤ (pos 0) t.filled_lots then filled else canceled
      else if ltb_ℤ (pos 0) t.filled_lots
      then partially_filled
      else canceled

  -- The branch of an order that is done: what is left of it is cancelled.
  unfoldable pub finish_done : Order D → ℕ → ℕ → Taking D → OrderStatus × OrderManager D
  finish_done n signal tick t =
      let m = t.manager in
      let released =
        if ltb_ℤ (pos 0) t.remaining_lots
        then on_cancel (with_lots n t.remaining_lots) m.risk_manager
        else m.risk_manager in
      let done = record n { quantity_lots = pos 0; quantity = f.nought } in
      let state =
        taker_state done (final_status t) (pos 0) (now clocks m) signal tick n.quantity_lots t in
      (
        final_status t,
        emit_event clocks
            (order_event order_accepted (now clocks m) n n.quantity_lots (pos 0) 0 false signal
              tick)
            (upsert_state state (record (read clocks m) { risk_manager = released })),
      )

  -- What follows `match_order`.
  unfoldable pub book_trades :
      Order D
      → Bool
      → ℕ
      → ℕ
      → List (Trade D)
      → OrderManager D
      → OrderSubmissionResult D × OrderManager D
  unfolding apply_trades finish_resting finish_done
  book_trades n rest_residual signal tick trades m =
      let t = apply_trades clocks n signal tick trades (record {
        manager = read clocks m;
        filled_quantity = f.nought;
        filled_lots = pos 0;
        remaining_lots = n.quantity_lots;
      }) in
      let rests =
        rest_residual
        && ltb_ℤ (pos 0) t.remaining_lots
        && not
            (elim (get_order k n.order_id t.manager.order_book) [ none ↦ true | some _ ↦ false ]) in
      let (status, after) =
        if rests then finish_resting n signal tick t else finish_done n signal tick t in
      (
        record {
          accepted = true;
          resting = rests;
          filled_quantity = t.filled_quantity;
          remaining_quantity = from_quantity_lots t.remaining_lots;
          status = status;
          reject_reason = not_rejected;
          trades = trades;
        },
        stamp_trace clocks oms_accept after,
      )

  abbrev pub rests_residual : Order D → Bool
  rests_residual n = n.type == order_type_limit && n.tif == tif_gtc

  -- What follows the check for a fill or kill.
  unfoldable pub submit_checked :
      Order D → ℕ → ℕ → OrderManager D → Option (OrderSubmissionResult D × OrderManager D)
  unfolding book_trades
  submit_checked n signal tick m =
      let (passed, risk) = check_order n m.risk_manager in
      let m' = stamp_trace clocks risk_verdict (record m { risk_manager = risk }) in
      if not passed
      then some (refuse_recorded clocks risk_rejected n signal tick m')
      else Option.map
          (λ (r : List (Trade D) × OrderBook D).
            book_trades n (rests_residual n) signal tick r.0 (record m' { order_book = r.1 }))
          (match_order k n (rests_residual n) m'.order_book)

  unfoldable pub submit_traced :
      Order D → ℕ → OrderManager D → Option (OrderSubmissionResult D × OrderManager D)
  unfolding submit_checked
  submit_traced order signal m =
      let n = normalize_order_scalars order in
      let tick = tick_id_of m.trace in
      if not (is_valid_order n)
      then some (refuse clocks invalid_order n signal tick m)
      else if contains n.order_id m.active_orders || contains n.order_id m.order_history
      then some (refuse clocks duplicate_order_id n signal tick m)
      else if n.tif == tif_fok && ltb_ℤ (executable_lots k n m.order_book) n.quantity_lots
      then some (refuse_recorded clocks liquidity_unavailable n signal tick m)
      else submit_checked n signal tick m

  -- With the trace that the caller hands in, which is the state's while the call runs.
  abbrev pub submit_order :
      Order D
      → ℕ
      → Option TraceSpans
      → OrderManager D
      → Option (OrderSubmissionResult D × OrderManager D)
  submit_order order signal trace m = submit_traced order signal (record m { trace = trace })
