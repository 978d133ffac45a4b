-- ===== src/Trading/Live/Submits.antt =====
-- The active orders after `submit_order` of backend/modules/trading/src/order_manager.cpp.
use axiotick.Common.{
  ℕ, ◌≡◌, refl, inl, inr, sym, ◌∙◌, subst, Bool, Bool-cases, Option-cases, if◌then◌else◌, true,
  false, not, ◌&&◌, Option, none, some, List, pos, ◌<ℤ◌, ltb_ℤ, arith,
}
use mathlib.Core.Option.{some-injective, none-ne-some}
use axiotick.Core.Float.{Float}
use axiotick.Core.Order.{Order, Trade}
use axiotick.Core.Trace.{TraceSpans, risk_verdict, oms_accept}
use axiotick.Core.FixedPoint.{normalize_order_scalars}
use axiotick.Engine.OrderBook.{Capacity}
use axiotick.Engine.OrderBook.Resting.{get_order}
use axiotick.Engine.OrderBook.Matching.{match_order}
use axiotick.Risk.Reservations.{check_order}
use axiotick.Trading.{risk_rejected, OrderManager, Clocks, read, stamp_trace}
use axiotick.Trading.Refusals.{OrderSubmissionResult, refuse_recorded}
use axiotick.Trading.Errors.{submit_order_refused}
use axiotick.Trading.Trades.{Taking, apply_trades}
use axiotick.Trading.Submit.{
  finish_resting, finish_done, book_trades, submit_checked, submit_order, rests_residual,
  tick_id_of,
}
use axiotick.Trading.Accepted.{submit_traced-accepted}
use axiotick.Trading.Live.{AllLive, put-AllLive, recorded-AllLive, apply_trades-AllLive}

module _ {D : Type 0} ⦃f : Float D⦄ (k : Capacity) (clocks : Clocks) where
  stamp_trace-AllLive :
      (stage : ℕ) (m : OrderManager D)
      → AllLive m.active_orders
      → AllLive (stamp_trace clocks stage m).active_orders
  stamp_trace-AllLive stage m all = elim (Option-cases m.trace) [
    | inl none_given ↦ rw none_given all
    | inr (t, given) ↦ rw given all
  ]

  finish_resting-AllLive :
      (n : Order D) (signal tick : ℕ) (t : Taking D)
      → pos 0 <ℤ t.remaining_lots
      → AllLive t.manager.active_orders
      → AllLive (finish_resting k clocks n signal tick t).1.active_orders
  unfolding finish_resting
  finish_resting-AllLive n signal tick t left all = recorded-AllLive clocks _ _ _ (
      put-AllLive n.order_id _ t.manager.active_orders
        (record { rests = ground arith; lots_pos = left; order_lots = refl; taken = refl }) all)

  finish_done-AllLive :
      (n : Order D) (signal tick : ℕ) (t : Taking D)
      → AllLive t.manager.active_orders
      → AllLive (finish_done k clocks n signal tick t).1.active_orders
  unfolding finish_done
  finish_done-AllLive n signal tick t all = recorded-AllLive clocks _ _ _ all

  book_trades-AllLive :
      (n : Order D) (rest_residual : Bool) (signal tick : ℕ) (ts : List (Trade D))
      (m : OrderManager D)
      → AllLive m.active_orders
      → AllLive (book_trades k clocks n rest_residual signal tick ts m).1.active_orders
  unfolding book_trades
  book_trades-AllLive n rest_residual signal tick ts m all =
      let t = apply_trades clocks n signal tick ts (record {
        manager = read clocks m;
        filled_quantity = f.nought;
        filled_lots = pos 0;
        remaining_lots = n.quantity_lots;
      }) in
      let rests =
        rest_residual
        && ltb_ℤ (pos 0) t.remaining_lots
        && not
            (elim (get_order k n.order_id t.manager.order_book) [ none ↦ true | some _ ↦ false ]) in
      let booked : AllLive t.manager.active_orders =
        apply_trades-AllLive clocks n signal tick ts _ all in
      stamp_trace-AllLive oms_accept
        (if rests
          then finish_resting k clocks n signal tick t
          else finish_done k clocks n signal tick t).1
        (elim (Bool-cases rests) [
          | inl stays ↦
              rw stays (finish_resting-AllLive n signal tick t (ground (arith, stays)) booked)
          | inr done ↦ rw done (finish_done-AllLive n signal tick t booked)
        ])

  refuse_recorded-AllLive :
      (n : Order D) (signal tick : ℕ) (m : OrderManager D)
      → AllLive m.active_orders
      → AllLive (refuse_recorded clocks risk_rejected n signal tick m).1.active_orders
  unfolding refuse_recorded
  refuse_recorded-AllLive n signal tick m all = recorded-AllLive clocks _ _ _ all

  submit_checked-AllLive :
      (n : Order D) (signal tick : ℕ) (m m' : OrderManager D) (r : OrderSubmissionResult D)
      → AllLive m.active_orders
      → submit_checked k clocks n signal tick m ≡ some (r, m')
      → AllLive m'.active_orders
  unfolding submit_checked
  submit_checked-AllLive n signal tick m m' r all runs =
      let checked =
        stamp_trace clocks risk_verdict
          (record m { risk_manager = (check_order n m.risk_manager).1 }) in
      let kept =
        stamp_trace-AllLive risk_verdict
          (record m { risk_manager = (check_order n m.risk_manager).1 }) all in
      let answers = λ (a : OrderSubmissionResult D × OrderManager D). AllLive a.1.active_orders in
      elim (Bool-cases (check_order n m.risk_manager).0) [
        | inr refused ↦
            let found : submit_checked k clocks n signal tick m
                ≡ some (refuse_recorded clocks risk_rejected n signal tick checked) =
              rw refused refl in
            subst answers (some-injective _ _ (sym found ∙ runs))
              (refuse_recorded-AllLive n signal tick checked kept)
        | inl passed ↦
            elim (Option-cases (match_order k n (rests_residual k clocks n) checked.order_book)) [
              | inl stuck ↦ absurd (none-ne-some (r, m') (sym (rw (passed, stuck) refl) ∙ runs))
              | inr ((ts, b'), books) ↦
                  let booked =
                    book_trades k clocks n (rests_residual k clocks n) signal tick ts
                      (record checked { order_book = b' }) in
                  let found : submit_checked k clocks n signal tick m ≡ some booked =
                    rw (passed, books) refl in
                  subst answers (some-injective _ _ (sym found ∙ runs)) (
                    book_trades-AllLive n (rests_residual k clocks n) signal tick ts
                      (record checked { order_book = b' }) kept)
            ]
      ]

  pub submit_order-AllLive :
      (order : Order D) (signal : ℕ) (trace : Option TraceSpans) (m m' : OrderManager D)
      (r : OrderSubmissionResult D)
      → AllLive m.active_orders
      → submit_order k clocks order signal trace m ≡ some (r, m')
      → AllLive m'.active_orders
  submit_order-AllLive order signal trace m m' r all runs = elim (Bool-cases r.accepted) [
    | inr refused ↦
        subst AllLive
          (sym (submit_order_refused k clocks order signal trace m m' r runs refused).active_orders)
          all
    | inl accepted ↦
        let (_, checked) =
          submit_traced-accepted k clocks order signal (record m { trace = trace }) m' r runs
            accepted in
        submit_checked-AllLive (normalize_order_scalars order) signal (tick_id_of trace)
          (record m { trace = trace }) m' r all checked
  ]
