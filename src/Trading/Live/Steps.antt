-- ===== src/Trading/Live/Steps.antt =====
-- Histories of calls on one order manager of backend/modules/trading/src/order_manager.cpp, and what
-- they leave of its active orders.
use axiotick.Common.{
  ℕ, ◌≡◌, refl, inl, inr, Bool-cases, Option-cases, Option, some, ℤ, pos, ◌<ℤ◌, leb_ℤ, find, arith,
}
use axiotick.Core.Float.{Float}
use axiotick.Core.Order.{Order}
use axiotick.Core.Trace.{TraceSpans}
use axiotick.Core.FixedPoint.{to_quantity_lots}
use axiotick.Core.Validator.{is_valid_order}
use axiotick.Core.Validator.Accepts.{is_valid_order_iff}
use axiotick.Engine.OrderBook.{Capacity}
use axiotick.Engine.OrderBook.Resting as Book
use axiotick.Engine.OrderBook.Resting.{get_order}
use axiotick.Risk.Reservations.{check_order}
use axiotick.Trading.{OrderState, OrderManager, Clocks, now, set_history_cap}
use axiotick.Trading.Refusals.{OrderSubmissionResult}
use axiotick.Trading.Submit.{submit_order}
use axiotick.Trading.Changes.{
  retire, replace_state, reduce, reduced_state, replacement_of, replaced_state, rebook, cancel_lots,
  cancel_order, cancel_order_partial, modify_order,
}
use axiotick.Trading.Live.{IsLive, AllLive, put-AllLive, remove-AllLive, recorded-AllLive}
use axiotick.Trading.Live.Submits.{submit_order-AllLive}
use axiotick.Risk.Reservations.{on_cancel}

module _ {D : Type 0} ⦃f : Float D⦄ (k : Capacity) (clocks : Clocks) where
  -- One call, which returns.
  pub data Step (m : OrderManager D) : OrderManager D → Type 0 where
    submits :
        (order : Order D) (signal : ℕ) (trace : Option TraceSpans) (r : OrderSubmissionResult D)
        {m' : OrderManager D}
        → submit_order k clocks order signal trace m ≡ some (r, m')
        → Step m m'
    cancels : (id : ℕ) → Step m (cancel_order k clocks id m).1
    reduces : (id : ℕ) (quantity : D) → Step m (cancel_order_partial k clocks id quantity m).1
    modifies :
        (id : ℕ) (new_price new_quantity : D)
        → Step m (modify_order k clocks id new_price new_quantity m).1
    caps : (n : ℕ) → Step m (set_history_cap n m)

  pub data Reach (start : OrderManager D) : OrderManager D → Type 0 where
    here : Reach start start
    later : {m m' : OrderManager D} → Reach start m → Step m m' → Reach start m'

  retire-AllLive :
      (id : ℕ) (s : OrderState D) (m : OrderManager D)
      → AllLive m.active_orders
      → AllLive (retire k clocks id s m).active_orders
  unfolding retire
  retire-AllLive id s m all = recorded-AllLive clocks _ _ _ (remove-AllLive id m.active_orders all)

  cancel_order-AllLive :
      (id : ℕ) (m : OrderManager D)
      → AllLive m.active_orders
      → AllLive (cancel_order k clocks id m).1.active_orders
  unfolding cancel_order
  cancel_order-AllLive id m all = elim (Option-cases (find id m.active_orders)) [
    | inl gone ↦ rw (cancel_order, gone) all
    | inr (s, e) ↦ elim (Bool-cases (Book.cancel_order k id m.order_book).0) [
      | inl done ↦
          rw (cancel_order, e, done)
            (retire-AllLive id s (record m { order_book = (Book.cancel_order k id m.order_book).1 })
              all)
      | inr stays ↦ rw (cancel_order, e, stays) all
    ]
  ]

  reduce-AllLive :
      (id : ℕ) (updated : Order D) (s : OrderState D) (m : OrderManager D)
      → IsLive s
      → pos 0 <ℤ updated.quantity_lots
      → AllLive m.active_orders
      → AllLive (reduce k clocks id updated s m).active_orders
  unfolding reduce replace_state
  reduce-AllLive id updated s m live left all = recorded-AllLive clocks _ _ _ (
      put-AllLive id (reduced_state k clocks updated (now clocks m) s) m.active_orders
        (record { rests = ground arith; lots_pos = left; order_lots = refl; taken = live.taken })
        all)

  rebook-AllLive :
      (id : ℕ) (replacement : Order D) (s : OrderState D) (m : OrderManager D)
      → IsLive s
      → pos 0 <ℤ replacement.quantity_lots
      → AllLive m.active_orders
      → AllLive (rebook k clocks id replacement s m).1.active_orders
  unfolding rebook replace_state
  rebook-AllLive id replacement s m live left all =
      elim (Bool-cases (check_order replacement (on_cancel s.order m.risk_manager)).0) [
        | inl passed ↦ rw passed (
            recorded-AllLive clocks _ _ _ (
              put-AllLive id (replaced_state k clocks replacement (now clocks m) s) m.active_orders
                (record {
                  rests = inl refl;
                  lots_pos = left;
                  order_lots = refl;
                  taken = live.taken;
                })
                all))
        | inr refused ↦ rw refused all
      ]

  cancel_lots-AllLive :
      (id : ℕ) (lots : ℤ) (s : OrderState D) (m : OrderManager D)
      → IsLive s
      → AllLive m.active_orders
      → AllLive (cancel_lots k clocks id lots s m).1.active_orders
  unfolding cancel_lots
  cancel_lots-AllLive id lots s m live all =
      let (answer, book) = Book.cancel_order_partial k id lots m.order_book in
      let m' = record m { order_book = book } in
      elim (Option-cases answer) [
        | inl unknown ↦ rw (cancel_lots, unknown) all
        | inr (updated, e) ↦ elim (Bool-cases (leb_ℤ updated.quantity_lots (pos 0))) [
          | inl done ↦ rw (cancel_lots, e, done) (retire-AllLive id s m' all)
          | inr left ↦
              rw (cancel_lots, e, left)
                (reduce-AllLive id updated s m' live (ground (arith, left)) all)
        ]
      ]

  cancel_order_partial-AllLive :
      (id : ℕ) (quantity : D) (m : OrderManager D)
      → AllLive m.active_orders
      → AllLive (cancel_order_partial k clocks id quantity m).1.active_orders
  unfolding cancel_order_partial
  cancel_order_partial-AllLive id quantity m all =
      elim (Bool-cases (leb_ℤ (to_quantity_lots quantity) (pos 0))) [
        | inl nothing ↦ rw (cancel_order_partial, nothing) all
        | inr lots ↦ elim (Option-cases (find id m.active_orders)) [
          | inl gone ↦ rw (cancel_order_partial, lots, gone) all
          | inr (s, e) ↦
              rw (cancel_order_partial, lots, e)
                (cancel_lots-AllLive id (to_quantity_lots quantity) s m (all id s e) all)
        ]
      ]

  modify_order-AllLive :
      (id : ℕ) (new_price new_quantity : D) (m : OrderManager D)
      → AllLive m.active_orders
      → AllLive (modify_order k clocks id new_price new_quantity m).1.active_orders
  unfolding modify_order
  modify_order-AllLive id new_price new_quantity m all =
      elim (Option-cases (find id m.active_orders)) [
        | inl gone ↦ rw (modify_order, gone) all
        | inr (s, e) ↦
            let replacement = replacement_of k clocks new_price new_quantity s in
            let (replaced, book) = Book.modify_order k id replacement m.order_book in
            let m' = record m { order_book = book } in
            elim (Bool-cases (is_valid_order replacement)) [
              | inr bad ↦ rw (modify_order, e, bad) all
              | inl good ↦ elim (Bool-cases replaced) [
                | inr stays ↦ rw (modify_order, e, good, stays) all
                | inl done ↦
                    rw (modify_order, e, good, done)
                      (rebook-AllLive id replacement s m' (all id s e)
                        ((is_valid_order_iff replacement).0 good).lots_pos all)
              ]
            ]
      ]

  Step-AllLive :
      {m m' : OrderManager D} → Step m m' → AllLive m.active_orders → AllLive m'.active_orders
  unfolding set_history_cap
  Step-AllLive {m} {m'} (submits order signal trace r runs) all =
      submit_order-AllLive k clocks order signal trace m m' r all runs
  Step-AllLive {m} (cancels id) all = cancel_order-AllLive id m all
  Step-AllLive {m} (reduces id quantity) all = cancel_order_partial-AllLive id quantity m all
  Step-AllLive {m} (modifies id new_price new_quantity) all =
      modify_order-AllLive id new_price new_quantity m all
  Step-AllLive (caps n) all = all

  -- Whatever calls a manager answers, if all active orders rest with positive lots at the start then
  -- they do at the end: each is resting or partially filled, has the lots of its order, and was not
  -- refused.
  pub Reach-AllLive :
      {m m' : OrderManager D} → Reach m m' → AllLive m.active_orders → AllLive m'.active_orders
  Reach-AllLive here all = all
  Reach-AllLive (later before call) all = Step-AllLive call (Reach-AllLive before all)
