-- ===== src/Trading/Errors.antt =====
-- The refusals of backend/modules/trading/src/order_manager.cpp.
use axiotick.Common.{
  ℕ, ◌+◌, ◌≡◌, ap, Bool-cases, inl, inr, true, false, ◌&&◌, ◌||◌, Option, none, some, find,
  find-remove, contains, ltb_ℤ, ◌==◌, arith,
}
use axiotick.Core.Float.{Float}
use axiotick.Core.Order.{Order, tif_fok}
use axiotick.Core.Trace.{TraceSpans}
use axiotick.Core.FixedPoint.{normalize_order_scalars}
use axiotick.Core.Validator.{is_valid_order}
use axiotick.Engine.OrderBook.{Capacity}
use axiotick.Engine.OrderBook.Matching.{executable_lots}
use axiotick.Engine.OrderBook.Resting as Book
use axiotick.Engine.OrderBook.Resting.Refused.{get_order-cancel_order}
use axiotick.Risk.Reservations.{check_order, on_cancel}
use axiotick.Risk.Checks.{check_order_refused}
use axiotick.Core.Trace.{risk_verdict}
use axiotick.Trading.{
  stamp_trace, OrderState, OrderManager, Clocks, emit_event, upsert_state, duplicate_order_id,
  invalid_order, risk_rejected, liquidity_unavailable, OrderRejectReason,
}
use axiotick.Trading.Keeps.{SameDesk, emit_event-SameDesk}
use axiotick.Trading.Refusals.{OrderSubmissionResult, refuse, refuse_recorded}
use axiotick.Trading.Submit.{book_trades, submit_checked, submit_traced, submit_order, tick_id_of}
use axiotick.Trading.Changes.{retire, cancel_order, modify_order}

module _ {D : Type 0} ⦃f : Float D⦄ (clocks : Clocks) where
  refuse-SameDesk :
      (reason : OrderRejectReason) (n : Order D) (signal tick : ℕ) (m : OrderManager D)
      → SameDesk m (refuse clocks reason n signal tick m).1
  unfolding refuse
  refuse-SameDesk reason n signal tick m =
      let s = emit_event-SameDesk clocks _ (record m { wall_readings = m.wall_readings + 1 }) in
      record {
        risk_manager = s.risk_manager;
        order_book = s.order_book;
        active_orders = s.active_orders;
      }

  refuse_recorded-SameDesk :
      (reason : OrderRejectReason) (n : Order D) (signal tick : ℕ) (m : OrderManager D)
      → SameDesk m (refuse_recorded clocks reason n signal tick m).1
  unfolding refuse_recorded upsert_state
  refuse_recorded-SameDesk reason n signal tick m =
      let s = emit_event-SameDesk clocks _ _ in
      record {
        risk_manager = s.risk_manager;
        order_book = s.order_book;
        active_orders = s.active_orders;
      }

module _ {D : Type 0} ⦃f : Float D⦄ (k : Capacity) (clocks : Clocks) where
  -- A change that is refused for want of an active order, for its fields, by the book or by the risk
  -- manager leaves the active orders, the history and the journal as they are.
  pub modify_order_refused :
      (id : ℕ) (new_price new_quantity : D) (m : OrderManager D)
      → (modify_order k clocks id new_price new_quantity m).0 ≡ false
      → let m' = (modify_order k clocks id new_price new_quantity m).1 in
        (m'.active_orders ≡ m.active_orders)
        × (m'.order_history ≡ m.order_history)
        × (m'.journal ≡ m.journal)
  unfolding modify_order
  modify_order_refused id new_price new_quantity m h = (ground arith, ground arith, ground arith)

  retire-gone :
      (id : ℕ) (s : OrderState D) (m : OrderManager D)
      → (find id (retire k clocks id s m).active_orders ≡ none)
        × ((retire k clocks id s m).order_book ≡ m.order_book)
        × ((retire k clocks id s m).risk_manager ≡ on_cancel s.order m.risk_manager)
  unfolding retire upsert_state emit_event
  retire-gone id s m =
      (ground (arith, find-remove id id m.active_orders), ground arith, ground arith)

  -- After a cancel that succeeds, neither the manager's active orders nor the book have the id, and the
  -- risk manager has been told of the cancel of just the lots that were active.
  pub cancel_order_gone :
      (id : ℕ) (m : OrderManager D) (s : OrderState D)
      → find id m.active_orders ≡ some s
      → (cancel_order k clocks id m).0 ≡ true
      → let m' = (cancel_order k clocks id m).1 in
        (find id m'.active_orders ≡ none)
        × (Book.get_order k id m'.order_book ≡ none)
        × (m'.risk_manager ≡ on_cancel s.order m.risk_manager)
  unfolding cancel_order
  cancel_order_gone id m s e h =
      let book = (Book.cancel_order k id m.order_book).1 in
      let (active, kept, told) = retire-gone id s (record m { order_book = book }) in
      let gone = get_order-cancel_order k id m.order_book in
      (ground arith, ground (arith, ap (Book.get_order k id) kept), ground arith)

  -- The trace that a call is handed plays no part.
  untraced :
      (m m' : OrderManager D) (trace : Option TraceSpans)
      → SameDesk (record m { trace = trace }) m'
      → SameDesk m m'
  untraced m m' trace s = record {
    risk_manager = s.risk_manager;
    order_book = s.order_book;
    active_orders = s.active_orders;
  }

  answered :
      (m m' : OrderManager D) (r : OrderSubmissionResult D) (trace : Option TraceSpans)
      (a : OrderSubmissionResult D × OrderManager D)
      → SameDesk (record m { trace = trace }) a.1
      → some a ≡ some (r, m')
      → SameDesk m m'
  answered m m' r trace a s e = record {
    risk_manager = ground (arith, s.risk_manager, e);
    order_book = ground (arith, s.order_book, e);
    active_orders = ground (arith, s.active_orders, e);
  }

  submit_checked_refused :
      (n : Order D) (signal tick : ℕ) (m m' : OrderManager D) (r : OrderSubmissionResult D)
      → submit_checked k clocks n signal tick m ≡ some (r, m')
      → r.accepted ≡ false
      → SameDesk m m'
  unfolding submit_checked book_trades
  submit_checked_refused n signal tick m m' r e h =
      elim (Bool-cases (check_order n m.risk_manager).0) [
        | inl passed ↦ absurd (ground (arith, e, h, passed))
        | inr refused ↦
            let risk = check_order_refused n m.risk_manager refused in
            let checked =
              stamp_trace clocks risk_verdict
                (record m { risk_manager = (check_order n m.risk_manager).1 }) in
            let q = refuse_recorded-SameDesk clocks risk_rejected n signal tick checked in
            record {
              risk_manager = ground (arith, q.risk_manager, e, refused, risk);
              order_book = ground (arith, q.order_book, e, refused);
              active_orders = ground (arith, q.active_orders, e, refused);
            }
      ]

  -- An order that `submit_order` does not accept, for its fields, its id, too little to fill or kill, or
  -- the risk manager's limits, leaves the risk manager, the book and the active orders as they are.
  pub submit_order_refused :
      (order : Order D) (signal : ℕ) (trace : Option TraceSpans) (m m' : OrderManager D)
      (r : OrderSubmissionResult D)
      → submit_order k clocks order signal trace m ≡ some (r, m')
      → r.accepted ≡ false
      → SameDesk m m'
  unfolding submit_traced
  submit_order_refused order signal trace m m' r e h =
      let n = normalize_order_scalars order in
      let tick = tick_id_of trace in
      let start = record m { trace = trace } in
      let known = contains n.order_id m.active_orders || contains n.order_id m.order_history in
      let short = n.tif == tif_fok && ltb_ℤ (executable_lots k n m.order_book) n.quantity_lots in
      elim (Bool-cases (is_valid_order n)) [
        | inr bad ↦
            answered m m' r trace (refuse clocks invalid_order n signal tick start)
              (refuse-SameDesk clocks invalid_order n signal tick start) (ground (arith, e, bad))
        | inl good ↦ elim (Bool-cases known) [
          | inl again ↦
              answered m m' r trace (refuse clocks duplicate_order_id n signal tick start)
                (refuse-SameDesk clocks duplicate_order_id n signal tick start)
                (ground (arith, e, good, again))
          | inr fresh ↦ elim (Bool-cases short) [
            | inl lacks ↦
                answered m m' r trace
                  (refuse_recorded clocks liquidity_unavailable n signal tick start)
                  (refuse_recorded-SameDesk clocks liquidity_unavailable n signal tick start)
                  (ground (arith, e, good, fresh, lacks))
            | inr enough ↦
                let checked : submit_checked k clocks n signal tick start ≡ some (r, m') =
                  ground (arith, e, good, fresh, enough) in
                untraced m m' trace (submit_checked_refused n signal tick start m' r checked h)
          ]
        ]
      ]
