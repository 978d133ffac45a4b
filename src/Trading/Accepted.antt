-- ===== src/Trading/Accepted.antt =====
-- The orders that `submit_order` of backend/modules/trading/src/order_manager.cpp accepts, on a book
-- that holds lists of levels.
use axiotick.Common.{
  ℕ, ◌≡◌, refl, subst, sym, ◌∙◌, inl, inr, Bool, Bool-cases, true, false, ◌&&◌, ◌||◌, ◌==◌, some,
  List, ltb_ℤ, contains, arith, int_laws,
}
use mathlib.Core.Option.{some-injective}
use axiotick.Core.Float.{Float}
use axiotick.Core.Order.{Order, Trade, tif_fok}
use axiotick.Core.Trace.{risk_verdict}
use axiotick.Core.FixedPoint.{normalize_order_scalars}
use axiotick.Core.Validator.{is_valid_order}
use axiotick.Core.Validator.Accepts.{is_valid_order_iff}
use axiotick.Engine.OrderBook.{Capacity, OrderBook}
use axiotick.Engine.OrderBook.Matching.{executable_lots, opposite}
use axiotick.Engine.OrderBook.PriceTime.{Level, fill_levels, trades_of}
use axiotick.Engine.OrderBook.Represents.{Holds}
use axiotick.Engine.OrderBook.Fills.{fill_levels-conserves}
use axiotick.Engine.OrderBook.Positive.{
  trades_of-AllTraded, fill_levels-AllPositive, fill_levels-remaining_nonneg,
}
use axiotick.Engine.OrderBook.Promise.{sum_trades-trades_of}
use axiotick.Risk.Reservations.{check_order}
use axiotick.Trading.{
  OrderManager, OrderRejectReason, risk_rejected, invalid_order, duplicate_order_id,
  liquidity_unavailable, Clocks, stamp_trace,
}
use axiotick.Trading.Refusals.{OrderSubmissionResult, refuse, refuse_recorded}
use axiotick.Trading.Submit.{book_trades, submit_checked, submit_traced, rests_residual, tick_id_of}
use axiotick.Trading.Accounts.{IsAccounted, book_trades-IsAccounted, match_settled}

module _ {D : Type 0} ⦃f : Float D⦄ where
  -- The trades are those of the levels in turn, numbered from `id` on, and the lots add up.
  abbrev pub Honours : Order D → OrderSubmissionResult D → ℕ → List (Level D) → Type 0
  Honours n r id own =
      (r.trades ≡ trades_of n id (fill_levels n n.quantity_lots own).fills)
      × IsAccounted n r (fill_levels n n.quantity_lots own).remaining

  stamp_trace-order_book :
      (clocks : Clocks) (stage : ℕ) (m : OrderManager D)
      → (stamp_trace clocks stage m).order_book ≡ m.order_book
  stamp_trace-order_book clocks stage m = ground arith

  module _ (k : Capacity) (clocks : Clocks) where
    book_trades-trades :
        (n : Order D) (rest_residual : Bool) (signal tick : ℕ) (ts : List (Trade D))
        (m : OrderManager D)
        → (book_trades k clocks n rest_residual signal tick ts m).0.trades ≡ ts
    unfolding book_trades
    book_trades-trades n rest_residual signal tick ts m = refl

    -- What passes the risk manager is booked with the trades of the levels in turn.
    submit_checked-passed :
        (n : Order D) (signal tick : ℕ) (m : OrderManager D) (own other : List (Level D))
        → normalize_order_scalars n ≡ n
        → is_valid_order n ≡ true
        → Holds k m.order_book (opposite n.side) own
        → Holds k m.order_book (opposite (opposite n.side)) other
        → (check_order n m.risk_manager).0 ≡ true
        → (start : OrderManager D) × (submit_checked k clocks n signal tick m
            ≡ some (
                book_trades k clocks n
                  (rests_residual k clocks n)
                  signal
                  tick
                  (trades_of n m.order_book.next_trade_id (fill_levels n n.quantity_lots own).fills)
                  start))
    unfolding submit_checked
    submit_checked-passed n signal tick m own other e v h o passed =
        let checked =
          stamp_trace clocks risk_verdict
            (record m { risk_manager = (check_order n m.risk_manager).1 }) in
        let (b', books) =
          match_settled k n (rests_residual k clocks n) m.order_book own other e v h o in
        let same : checked.order_book ≡ m.order_book =
          stamp_trace-order_book clocks risk_verdict
            (record m { risk_manager = (check_order n m.risk_manager).1 }) in
        (record checked { order_book = b' }, rw (passed, same, books) refl)

    book_trades-Honours :
        (n : Order D) (rest_residual : Bool) (signal tick : ℕ) (b : OrderBook D)
        (own : List (Level D)) (start : OrderManager D)
        → is_valid_order n ≡ true
        → Holds k b (opposite n.side) own
        → Honours n
            (book_trades k clocks n rest_residual signal tick
              (trades_of n b.next_trade_id (fill_levels n n.quantity_lots own).fills)
              start).0
            b.next_trade_id
            own
    book_trades-Honours n rest_residual signal tick b own start v h =
        let id = b.next_trade_id in
        let out = fill_levels n n.quantity_lots own in
        let lots_pos = ((is_valid_order_iff n).0 v).lots_pos in
        (
          book_trades-trades n rest_residual signal tick (trades_of n id out.fills) start,
          book_trades-IsAccounted k clocks n signal tick rest_residual (trades_of n id out.fills)
              out.remaining start
              (trades_of-AllTraded n id out.fills
                (fill_levels-AllPositive k b _ n _ _ n.quantity_lots own h.levels))
              (rw (sum_trades-trades_of n id out.fills)
                (fill_levels-conserves n n.quantity_lots own))
              (fill_levels-remaining_nonneg n n.quantity_lots own (omega (int_laws, lots_pos)))
              lots_pos,
        )

    refuse-accepted :
        (reason : OrderRejectReason) (n : Order D) (signal tick : ℕ) (m : OrderManager D)
        → (refuse clocks reason n signal tick m).0.accepted ≡ false
    unfolding refuse
    refuse-accepted reason n signal tick m = refl

    refuse_recorded-accepted :
        (reason : OrderRejectReason) (n : Order D) (signal tick : ℕ) (m : OrderManager D)
        → (refuse_recorded clocks reason n signal tick m).0.accepted ≡ false
    unfolding refuse_recorded
    refuse_recorded-accepted reason n signal tick m = refl

    not_accepted :
        (a : OrderSubmissionResult D × OrderManager D) (m' : OrderManager D)
        (r : OrderSubmissionResult D)
        → some a ≡ some (r, m')
        → a.0.accepted ≡ false
        → r.accepted ≡ true
        → ⊥
    not_accepted a m' r e h accepted = ground (arith, e, h, accepted)

    pub submit_checked-Honours :
        (n : Order D) (signal tick : ℕ) (m m' : OrderManager D) (r : OrderSubmissionResult D)
        (own other : List (Level D))
        → normalize_order_scalars n ≡ n
        → is_valid_order n ≡ true
        → Holds k m.order_book (opposite n.side) own
        → Holds k m.order_book (opposite (opposite n.side)) other
        → submit_checked k clocks n signal tick m ≡ some (r, m')
        → r.accepted ≡ true
        → Honours n r m.order_book.next_trade_id own
    unfolding submit_checked
    submit_checked-Honours n signal tick m m' r own other e v h o runs accepted =
        elim (Bool-cases (check_order n m.risk_manager).0) [
          | inr refused ↦
              let checked =
                stamp_trace clocks risk_verdict
                  (record m { risk_manager = (check_order n m.risk_manager).1 }) in
              absurd (
                not_accepted (refuse_recorded clocks risk_rejected n signal tick checked) m' r
                  (sym (rw refused refl) ∙ runs)
                  (refuse_recorded-accepted risk_rejected n signal tick checked) accepted)
          | inl passed ↦
              let (start, books) = submit_checked-passed n signal tick m own other e v h o passed in
              subst
                (λ (a : OrderSubmissionResult D × OrderManager D).
                  Honours n a.0 m.order_book.next_trade_id own)
                (some-injective _ _ (sym books ∙ runs))
                (book_trades-Honours n (rests_residual k clocks n) signal tick m.order_book own
                  start v h)
        ]

    pub submit_checked-returns :
        (n : Order D) (signal tick : ℕ) (m : OrderManager D) (own other : List (Level D))
        → normalize_order_scalars n ≡ n
        → is_valid_order n ≡ true
        → Holds k m.order_book (opposite n.side) own
        → Holds k m.order_book (opposite (opposite n.side)) other
        → (a : OrderSubmissionResult D × OrderManager D) × (submit_checked k clocks n signal tick m
            ≡ some a)
    unfolding submit_checked
    submit_checked-returns n signal tick m own other e v h o =
        elim (Bool-cases (check_order n m.risk_manager).0) [
          | inr refused ↦
              let checked =
                stamp_trace clocks risk_verdict
                  (record m { risk_manager = (check_order n m.risk_manager).1 }) in
              (refuse_recorded clocks risk_rejected n signal tick checked, rw refused refl)
          | inl passed ↦
              let (start, books) = submit_checked-passed n signal tick m own other e v h o passed in
              (_, books)
        ]

    -- What an order comes to that is not refused before the risk manager sees it.
    abbrev pub IsChecked : Order D → OrderManager D → Type 0
    IsChecked n m =
        (is_valid_order n ≡ true)
        × ((contains n.order_id m.active_orders || contains n.order_id m.order_history) ≡ false)
        × ((n.tif == tif_fok && ltb_ℤ (executable_lots k n m.order_book) n.quantity_lots) ≡ false)

    pub submit_traced-accepted :
        (order : Order D) (signal : ℕ) (m m' : OrderManager D) (r : OrderSubmissionResult D)
        → submit_traced k clocks order signal m ≡ some (r, m')
        → r.accepted ≡ true
        → IsChecked (normalize_order_scalars order) m
          × (submit_checked k clocks (normalize_order_scalars order) signal (tick_id_of m.trace) m
              ≡ some (r, m'))
    unfolding submit_traced
    submit_traced-accepted order signal m m' r runs accepted =
        let n = normalize_order_scalars order in
        let tick = tick_id_of m.trace in
        let known = contains n.order_id m.active_orders || contains n.order_id m.order_history in
        let short = n.tif == tif_fok && ltb_ℤ (executable_lots k n m.order_book) n.quantity_lots in
        elim (Bool-cases (is_valid_order n)) [
          | inr bad ↦ absurd (
              not_accepted (refuse clocks invalid_order n signal tick m) m' r
                (sym (rw bad refl) ∙ runs) (refuse-accepted invalid_order n signal tick m) accepted)
          | inl good ↦ elim (Bool-cases known) [
            | inl again ↦ absurd (
                not_accepted (refuse clocks duplicate_order_id n signal tick m) m' r
                  (sym (rw (good, again) refl) ∙ runs)
                  (refuse-accepted duplicate_order_id n signal tick m) accepted)
            | inr fresh ↦ elim (Bool-cases short) [
              | inl lacks ↦ absurd (
                  not_accepted (refuse_recorded clocks liquidity_unavailable n signal tick m) m' r
                    (sym (rw (good, fresh, lacks) refl) ∙ runs)
                    (refuse_recorded-accepted liquidity_unavailable n signal tick m) accepted)
              | inr enough ↦ ((good, fresh, enough), sym (rw (good, fresh, enough) refl) ∙ runs)
            ]
          ]
        ]
