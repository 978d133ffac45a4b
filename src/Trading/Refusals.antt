-- ===== src/Trading/Refusals.antt =====
-- The answer of `submit_order` of backend/modules/trading/src/order_manager.cpp, and its refusals.
use axiotick.Common.{ℕ, Bool, false, List, [], pos}
use axiotick.Core.Float.{Float}
use axiotick.Core.Order.{Order, Trade}
use axiotick.Persist.Event.{order_rejected}
use axiotick.Trading.{
  OrderRejectReason, reason_code, OrderStatus, rejected, OrderState, OrderManager, order_event,
  Clocks, now, read, emit_event, upsert_state,
}

pub record OrderSubmissionResult (D : Type 0) : Type 0 where
  pub accepted : Bool
  pub resting : Bool
  pub filled_quantity : D
  pub remaining_quantity : D
  pub status : OrderStatus
  pub reject_reason : OrderRejectReason
  pub trades : List (Trade D)

module _ {D : Type 0} ⦃f : Float D⦄ (clocks : Clocks) where
  abbrev pub refusal : OrderRejectReason → Order D → OrderSubmissionResult D
  refusal reason n = record {
    accepted = false;
    resting = false;
    filled_quantity = f.nought;
    remaining_quantity = n.quantity;
    status = rejected;
    reject_reason = reason;
    trades = [];
  }

  -- A refusal that leaves no state: an invalid order, or an id that is known.
  unfoldable pub refuse :
      OrderRejectReason
      → Order D
      → ℕ
      → ℕ
      → OrderManager D
      → OrderSubmissionResult D × OrderManager D
  refuse reason n signal tick m = (
    refusal reason n,
    emit_event clocks
        (order_event order_rejected (now clocks m) n n.quantity_lots n.quantity_lots
          (reason_code reason) false signal tick)
        (read clocks m),
  )

  abbrev pub rejected_state : OrderRejectReason → Order D → ℕ → ℕ → ℕ → OrderState D
  rejected_state reason n time signal tick = record {
    order = n;
    initial_lots = n.quantity_lots;
    remaining_lots = n.quantity_lots;
    filled_lots = pos 0;
    status = rejected;
    reject_reason = reason;
    updated_at_ns = time;
    related_signal_id = signal;
    origin_tick_id = tick;
  }

  -- A refusal that enters the history: too little to fill or kill, or the risk manager's.
  unfoldable pub refuse_recorded :
      OrderRejectReason
      → Order D
      → ℕ
      → ℕ
      → OrderManager D
      → OrderSubmissionResult D × OrderManager D
  refuse_recorded reason n signal tick m =
      let time = now clocks m in
      (
        refusal reason n,
        emit_event clocks
            (order_event order_rejected time n n.quantity_lots n.quantity_lots (reason_code reason)
              false signal tick)
            (upsert_state (rejected_state reason n time signal tick) (read clocks m)),
      )
