-- ===== src/Trading/Accounts.antt =====
-- The lots of an order that `submit_order` of backend/modules/trading/src/order_manager.cpp accepts.
use axiotick.Common.{
  ℕ, ◌≡◌, ◌↔◌, refl, sym, subst, ◌∙◌, ap, Bool, true, false, not, ◌&&◌, if◌then◌else◌, none, some,
  List, [], ◌∷◌, ℤ, pos, pos_part, neg_part, ◌≤ℤ◌, ◌<ℤ◌, ltb_ℤ, max_ℤ, ◌+ℤ◌, ◌-ℤ◌, +ℤ_parts,
  -ℤ_parts, arith, int_laws,
}
use axiotick.Core.Float.{Float}
use axiotick.Core.Order.{Order, Trade}
use axiotick.Core.FixedPoint.{normalize_order_scalars, from_quantity_lots}
use axiotick.Core.Validator.{is_valid_order}
use axiotick.Engine.OrderBook.{Capacity, OrderBook}
use axiotick.Engine.OrderBook.Resting.{get_order}
use axiotick.Engine.OrderBook.Matching.{match_order, executable_lots, opposite}
use axiotick.Engine.OrderBook.PriceTime.{Level, fill_levels, trades_of}
use axiotick.Engine.OrderBook.Represents.{Holds}
use axiotick.Engine.OrderBook.Refines.Match.{match_order_refines, settled}
use axiotick.Engine.OrderBook.Executable.{executable_lots_exact}
use axiotick.Engine.OrderBook.Fills.{sum_fills}
use axiotick.Engine.OrderBook.Positive.{AllTraded}
use axiotick.Engine.OrderBook.Promise.{sum_trades}
use axiotick.Trading.{OrderManager, filled, Clocks, read}
use axiotick.Trading.Refusals.{OrderSubmissionResult}
use axiotick.Trading.Trades.{Taking, apply_trade, apply_trades}
use axiotick.Trading.Submit.{book_trades, finish_resting, finish_done}

module _ {D : Type 0} ⦃f : Float D⦄ where
  -- What an answer says of the lots of an order, of which `left` were not traded.
  pub record IsAccounted (n : Order D) (r : OrderSubmissionResult D) (left : ℤ) : Type 0 where
    pub all_lots : sum_trades r.trades +ℤ left ≡ n.quantity_lots
    pub left_nonneg : pos 0 ≤ℤ left
    pub reported : r.remaining_quantity ≡ from_quantity_lots left
    pub rests : r.resting ≡ true → pos 0 <ℤ left
    pub whole : (r.status ≡ filled) ↔ (left ≡ pos 0)

  pub sum_trades-nonneg : (ts : List (Trade D)) → AllTraded ts → pos 0 ≤ℤ sum_trades ts
  sum_trades-nonneg [] a = omega arith
  sum_trades-nonneg (t ∷ ts) (a, rest) = omega (int_laws, sum_trades-nonneg ts rest)

  module _ (clocks : Clocks) (n : Order D) (signal tick : ℕ) where
    apply_trades-filled_lots :
        (ts : List (Trade D)) (t : Taking D)
        → (apply_trades clocks n signal tick ts t).filled_lots ≡ t.filled_lots +ℤ sum_trades ts
    unfolding apply_trades
    apply_trades-filled_lots [] t = omega int_laws
    apply_trades-filled_lots (x ∷ ts) t =
        apply_trades-filled_lots ts (apply_trade clocks n signal tick x t) ∙ omega int_laws

    apply_trades-remaining_lots :
        (ts : List (Trade D)) (t : Taking D)
        → AllTraded ts
        → sum_trades ts ≤ℤ t.remaining_lots
        → (apply_trades clocks n signal tick ts t).remaining_lots
          ≡ t.remaining_lots -ℤ sum_trades ts
    unfolding apply_trades
    apply_trades-remaining_lots [] t a h = omega int_laws
    apply_trades-remaining_lots (x ∷ ts) t (a, rest) h =
        let some_left = sum_trades-nonneg ts rest in
        let least : max_ℤ (pos 0) (t.remaining_lots -ℤ x.quantity_lots)
            ≡ t.remaining_lots -ℤ x.quantity_lots =
          ground (
            arith,
            -ℤ_parts t.remaining_lots x.quantity_lots,
            +ℤ_parts x.quantity_lots (sum_trades ts),
          ) in
        apply_trades-remaining_lots ts (apply_trade clocks n signal tick x t) rest
          (rw least (omega int_laws))
        ∙ rw least (omega int_laws)

  module _ (k : Capacity) (clocks : Clocks) where
    settles :
        (n : Order D) (signal tick : ℕ) (t : Taking D) (rests : Bool)
        → pos 0 ≤ℤ t.filled_lots
        → pos 0 ≤ℤ t.remaining_lots
        → pos 0 <ℤ t.filled_lots +ℤ t.remaining_lots
        → (rests ≡ true → pos 0 <ℤ t.remaining_lots)
        → let status =
            (if rests
              then finish_resting k clocks n signal tick t
              else finish_done k clocks n signal tick t).0 in
          (t.remaining_lots ≡ pos 0 → status ≡ filled)
          × (status ≡ filled → t.remaining_lots ≡ pos 0)
    unfolding finish_resting finish_done
    settles n signal tick t true h l q r =
        ((λ z. absurd (omega (int_laws, r refl, ap pos_part z, ap neg_part z))), ground arith)
    settles n signal tick t false h l q r =
        ((λ z. ground (arith, h, q, z, +ℤ_parts t.filled_lots t.remaining_lots)), ground arith)

    -- What `book_trades` answers for trades that are worth the order less `left`.
    pub book_trades-IsAccounted :
        (n : Order D) (signal tick : ℕ) (rest_residual : Bool) (ts : List (Trade D)) (left : ℤ)
        (m : OrderManager D)
        → AllTraded ts
        → sum_trades ts +ℤ left ≡ n.quantity_lots
        → pos 0 ≤ℤ left
        → pos 0 <ℤ n.quantity_lots
        → IsAccounted n (book_trades k clocks n rest_residual signal tick ts m).0 left
    unfolding book_trades
    book_trades-IsAccounted n signal tick rest_residual ts left m a e h l =
        let start : Taking D = record {
          manager = read clocks m;
          filled_quantity = f.nought;
          filled_lots = pos 0;
          remaining_lots = n.quantity_lots;
        } in
        let within : sum_trades ts ≤ℤ n.quantity_lots =
          omega (int_laws, ap pos_part e, ap neg_part e) in
        let booked : (apply_trades clocks n signal tick ts start).filled_lots ≡ sum_trades ts =
          apply_trades-filled_lots clocks n signal tick ts start ∙ omega int_laws in
        let stays : (apply_trades clocks n signal tick ts start).remaining_lots ≡ left =
          apply_trades-remaining_lots clocks n signal tick ts start a within
          ∙ omega (int_laws, ap pos_part e, ap neg_part e) in
        let t = apply_trades clocks n signal tick ts start in
        let stays_on =
          rest_residual
          && ltb_ℤ (pos 0) t.remaining_lots
          && not (elim (get_order k n.order_id t.manager.order_book) [
            | none ↦ true
            | some _ ↦ false
          ]) in
        let waits : stays_on ≡ true → pos 0 <ℤ t.remaining_lots = ground arith in
        let (whole, filled_whole) =
          settles n signal tick t stays_on (rw booked (sum_trades-nonneg ts a)) (rw stays h)
            (rw (booked, stays, e) l) waits in
        record {
          all_lots = e;
          left_nonneg = h;
          reported = ap from_quantity_lots stays;
          rests = λ r. subst (λ (x : ℤ). pos 0 <ℤ x) stays (waits r);
          whole = (λ z. sym stays ∙ filled_whole z, λ z. whole (stays ∙ z));
        }

  module _ (k : Capacity) where
    pub match_settled :
        (n : Order D) (rest_residual : Bool) (b : OrderBook D) (own other : List (Level D))
        → normalize_order_scalars n ≡ n
        → is_valid_order n ≡ true
        → Holds k b (opposite n.side) own
        → Holds k b (opposite (opposite n.side)) other
        → (b' : OrderBook D) × (match_order k n rest_residual b
            ≡ some (trades_of n b.next_trade_id (fill_levels n n.quantity_lots own).fills, b'))
    match_settled n rest_residual b own other e v h o =
        subst
          (λ (x : Order D).
            is_valid_order x ≡ true
            → Holds k b (opposite x.side) own
            → Holds k b (opposite (opposite x.side)) other
            → (b' : OrderBook D) × (match_order k n rest_residual b
                ≡ some (trades_of x b.next_trade_id (fill_levels x x.quantity_lots own).fills, b')))
          e
          (λ v h o.
            let (b', runs, _, _, _) = match_order_refines k n rest_residual b own other v h o in
            (
              settled k rest_residual (normalize_order_scalars n)
                  (fill_levels (normalize_order_scalars n) (normalize_order_scalars n).quantity_lots
                    own)
                  b',
              runs,
            ))
          v h o

    pub executable_settled :
        (n : Order D) (b : OrderBook D) (own : List (Level D))
        → normalize_order_scalars n ≡ n
        → is_valid_order n ≡ true
        → Holds k b (opposite n.side) own
        → executable_lots k n b ≡ sum_fills (fill_levels n n.quantity_lots own).fills
    executable_settled n b own e v h =
        subst
          (λ (x : Order D).
            is_valid_order x ≡ true
            → Holds k b (opposite x.side) own
            → executable_lots k n b ≡ sum_fills (fill_levels x x.quantity_lots own).fills)
          e (λ v h. executable_lots_exact k n b own v h) v h
