-- ===== src/Trading/Promise.antt =====
-- What a caller of `submit_order` of backend/modules/trading/src/order_manager.cpp is promised of an
-- order, on a book that holds lists of levels.
use axiotick.Common.{
  ℕ, ◌≡◌, refl, sym, ◌∙◌, ap, inl, inr, Bool-cases, true, false, ◌&&◌, ◌||◌, ◌==◌, ◌≤ℤ◌, Option,
  some, ℤ, pos, pos_part, neg_part, ltb_ℤ, ◌+ℤ◌, +ℤ_parts, List, contains, arith, int_laws,
}
use axiotick.Core.Float.{Float}
use axiotick.Core.Order.{Order, tif_fok}
use axiotick.Core.Trace.{TraceSpans}
use axiotick.Core.FixedPoint.{normalize_order_scalars}
use axiotick.Core.FixedPoint.Bounds.{normalize_idempotent}
use axiotick.Core.Validator.{is_valid_order}
use axiotick.Core.Validator.Accepts.{is_valid_order_iff, valid_of_IsAcceptable}
use axiotick.Engine.OrderBook.{Capacity}
use axiotick.Engine.OrderBook.Matching.{executable_lots, opposite}
use axiotick.Engine.OrderBook.PriceTime.{Level, fill_levels}
use axiotick.Engine.OrderBook.Represents.{Holds}
use axiotick.Engine.OrderBook.Fills.{sum_fills, fill_levels-conserves}
use axiotick.Engine.OrderBook.Promise.{sum_trades}
use axiotick.Trading.{
  OrderManager, filled, Clocks, invalid_order, duplicate_order_id, liquidity_unavailable,
}
use axiotick.Trading.Refusals.{OrderSubmissionResult, refuse, refuse_recorded}
use axiotick.Trading.Submit.{submit_traced, submit_order, tick_id_of}
use axiotick.Trading.Accounts.{executable_settled}
use axiotick.Trading.Accepted.{
  Honours, submit_checked-Honours, submit_checked-returns, submit_traced-accepted,
}

+ℤ_nought : (s left : ℤ) → left ≡ pos 0 → s +ℤ left ≡ s
+ℤ_nought s left e = rw e (omega int_laws)

-- An order whose fill or kill is not refused, for `x` lots on offer of which `s` are taken.
none_left :
    (tif : ℕ) (x s left lots : ℤ)
    → tif ≡ tif_fok
    → (tif == tif_fok && ltb_ℤ x lots) ≡ false
    → x ≡ s
    → s +ℤ left ≡ lots
    → pos 0 ≤ℤ left
    → left ≡ pos 0
none_left tif x s left lots kill enough e sums nonneg =
    ground (arith, kill, enough, e, sums, nonneg, +ℤ_parts s left)

module _ {D : Type 0} ⦃f : Float D⦄ (k : Capacity) (clocks : Clocks) where
  settled_order :
      (order : Order D)
      → is_valid_order (normalize_order_scalars order) ≡ true
      → normalize_order_scalars (normalize_order_scalars order) ≡ normalize_order_scalars order
  settled_order order v =
      let n = normalize_order_scalars order in
      normalize_idempotent order (valid_of_IsAcceptable n ((is_valid_order_iff n).0 v))

  -- On a book that holds lists of levels for the two sides, `submit_order` always answers: the
  -- matching does not run out of its fuel.
  pub submit_order_returns :
      (order : Order D) (signal : ℕ) (trace : Option TraceSpans) (m : OrderManager D)
      (own other : List (Level D))
      → Holds k m.order_book (opposite (normalize_order_scalars order).side) own
      → Holds k m.order_book (opposite (opposite (normalize_order_scalars order).side)) other
      → (a : OrderSubmissionResult D × OrderManager D) × (submit_order k clocks order signal trace m
          ≡ some a)
  unfolding submit_traced
  submit_order_returns order signal trace m own other h o =
      let n = normalize_order_scalars order in
      let tick = tick_id_of trace in
      let start = record m { trace = trace } in
      let known = contains n.order_id m.active_orders || contains n.order_id m.order_history in
      let short = n.tif == tif_fok && ltb_ℤ (executable_lots k n m.order_book) n.quantity_lots in
      elim (Bool-cases (is_valid_order n)) [
        | inr bad ↦ (refuse clocks invalid_order n signal tick start, rw bad refl)
        | inl good ↦ elim (Bool-cases known) [
          | inl again ↦
              (refuse clocks duplicate_order_id n signal tick start, rw (good, again) refl)
          | inr fresh ↦ elim (Bool-cases short) [
            | inl lacks ↦ (
              refuse_recorded clocks liquidity_unavailable n signal tick start,
              rw (good, fresh, lacks) refl,
            )
            | inr enough ↦
                let (a, runs) =
                  submit_checked-returns k clocks n signal tick start own other
                    (settled_order order good) good h o in
                (a, rw (good, fresh, enough) runs)
          ]
        ]
      ]

  pub submit_order-Honours :
      (order : Order D) (signal : ℕ) (trace : Option TraceSpans) (m m' : OrderManager D)
      (r : OrderSubmissionResult D) (own other : List (Level D))
      → Holds k m.order_book (opposite (normalize_order_scalars order).side) own
      → Holds k m.order_book (opposite (opposite (normalize_order_scalars order).side)) other
      → submit_order k clocks order signal trace m ≡ some (r, m')
      → r.accepted ≡ true
      → Honours (normalize_order_scalars order) r m.order_book.next_trade_id own
  submit_order-Honours order signal trace m m' r own other h o runs accepted =
      let n = normalize_order_scalars order in
      let start = record m { trace = trace } in
      let ((good, _, _), checked) =
        submit_traced-accepted k clocks order signal start m' r runs accepted in
      submit_checked-Honours k clocks n signal (tick_id_of trace) start m' r own other
        (settled_order order good) good h o checked accepted

  -- A fill or kill order that `submit_order` accepts on a book that holds lists of levels for the two
  -- sides is filled whole: its trades are worth all its lots, its status is filled and nothing of it
  -- rests.
  pub submit_order_fill_or_kill :
      (order : Order D) (signal : ℕ) (trace : Option TraceSpans) (m m' : OrderManager D)
      (r : OrderSubmissionResult D) (own other : List (Level D))
      → (normalize_order_scalars order).tif ≡ tif_fok
      → Holds k m.order_book (opposite (normalize_order_scalars order).side) own
      → Holds k m.order_book (opposite (opposite (normalize_order_scalars order).side)) other
      → submit_order k clocks order signal trace m ≡ some (r, m')
      → r.accepted ≡ true
      → (sum_trades r.trades ≡ (normalize_order_scalars order).quantity_lots)
        × (r.status ≡ filled)
        × (r.resting ≡ false)
  submit_order_fill_or_kill order signal trace m m' r own other kill h o runs accepted =
      let n = normalize_order_scalars order in
      let start = record m { trace = trace } in
      let out = fill_levels n n.quantity_lots own in
      let ((good, _, enough), _) =
        submit_traced-accepted k clocks order signal start m' r runs accepted in
      let (_, accounts) =
        submit_order-Honours order signal trace m m' r own other h o runs accepted in
      let executable = executable_settled k n m.order_book own (settled_order order good) good h in
      let left : out.remaining ≡ pos 0 =
        none_left n.tif (executable_lots k n m.order_book) (sum_fills out.fills) out.remaining
          n.quantity_lots kill enough executable (fill_levels-conserves n n.quantity_lots own)
          accounts.left_nonneg in
      (
        sym (+ℤ_nought (sum_trades r.trades) out.remaining left) ∙ accounts.all_lots,
        accounts.whole.1 left,
        elim (Bool-cases r.resting) [
          | inl rests ↦
              absurd (omega (int_laws, accounts.rests rests, ap pos_part left, ap neg_part left))
          | inr done ↦ done
        ],
      )
