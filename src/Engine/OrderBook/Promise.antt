-- ===== src/Engine/OrderBook/Promise.antt =====
-- What a caller of `match_order` and of the best prices of engine/order_book.cpp is promised.
use axiotick.Common.{
  ℕ, ◌+◌, ◌≡◌, refl, ap, Bool, true, Option, none, some, List, [], ◌∷◌, ℤ, pos, ◌<ℤ◌, ◌≤ℤ◌, ◌+ℤ◌,
  pos_part, neg_part, int_laws, arith,
}
use axiotick.Core.Float.{Float}
use axiotick.Core.Order.{Order, Trade, side_buy, side_sell}
use axiotick.Core.FixedPoint.{normalize_order_scalars, from_price_ticks}
use axiotick.Core.Validator.{is_valid_order}
use axiotick.Engine.OrderBook.{Capacity, OrderBook}
use axiotick.Engine.OrderBook.Prices.{get_best_bid, get_best_ask}
use axiotick.Engine.OrderBook.Matching.{is_crossing_level, opposite, match_order}
use axiotick.Engine.OrderBook.PriceTime.{Level, Fill, Outcome, fill_levels, trades_of}
use axiotick.Engine.OrderBook.Represents.{Holds}
use axiotick.Engine.OrderBook.Refines.Match.{match_order_refines, settled}
use axiotick.Core.Validator.Accepts.{is_valid_order_iff}
use axiotick.Engine.OrderBook.Positive.{
  AllTraded, trades_of-AllTraded, fill_levels-AllPositive, fill_levels-remaining_nonneg,
}
use axiotick.Engine.OrderBook.Fills.{
  sum_fills, fill_levels-conserves, AllCross, fill_levels-AllCross, NoneCross,
  fill_levels-NoneCross,
}

rest_le : (a r q : ℤ) → a +ℤ r ≡ q → pos 0 ≤ℤ r → a ≤ℤ q
rest_le a r q e h = omega (int_laws, ap pos_part e, ap neg_part e, h)

module _ {D : Type 0} where
  abbrev pub sum_trades : List (Trade D) → ℤ
  sum_trades [] = pos 0
  sum_trades (t ∷ ts) = t.quantity_lots +ℤ sum_trades ts

  -- Every trade is at a price that the taker crosses, names the taker, and has the next trade id.
  abbrev pub AllReport : Order D → ℕ → List (Trade D) → Type 0
  AllReport taker id [] = Unit {0}
  AllReport taker id (t ∷ ts) =
      ((t.trade_id ≡ id)
        × (t.taker_order_id ≡ taker.order_id)
        × (t.side ≡ taker.side)
        × (is_crossing_level taker t.price_ticks ≡ true))
      × AllReport taker (id + 1) ts

module _ {D : Type 0} ⦃f : Float D⦄ where
  pub sum_trades-trades_of :
      (taker : Order D) (id : ℕ) (xs : List Fill)
      → sum_trades (trades_of taker id xs) ≡ sum_fills xs
  unfolding trades_of
  sum_trades-trades_of taker id [] = refl
  sum_trades-trades_of taker id (x ∷ xs) =
      ap (λ (s : ℤ). x.quantity_lots +ℤ s) (sum_trades-trades_of taker (id + 1) xs)

  trades_of-AllReport :
      (taker : Order D) (id : ℕ) (xs : List Fill)
      → AllCross taker xs
      → AllReport taker id (trades_of taker id xs)
  unfolding trades_of
  trades_of-AllReport taker id [] c = tt
  trades_of-AllReport taker id (x ∷ xs) (c, cs) =
      ((refl, refl, refl, c), trades_of-AllReport taker (id + 1) xs cs)

  -- On a book that holds lists of levels, a valid order makes `match_order` return trades that are
  -- numbered in sequence, name the taker, are at prices that it crosses and have a positive number of
  -- lots each. Their lots and the lots that remain, which are not negative, add up to what was asked
  -- for, so that no more is traded, and while lots remain, no level that is left on the side that
  -- trades crosses.
  pub match_order_promises :
      (k : Capacity) (incoming : Order D) (rest_residual : Bool) (b : OrderBook D)
      (own other : List (Level D))
      → is_valid_order (normalize_order_scalars incoming) ≡ true
      → Holds k b (opposite (normalize_order_scalars incoming).side) own
      → Holds k b (opposite (opposite (normalize_order_scalars incoming).side)) other
      → let taker = normalize_order_scalars incoming in
        (trades : List (Trade D)) × (out : Outcome (List (Level D))) × (b' : OrderBook D)
        × (match_order k incoming rest_residual b
            ≡ some (trades, settled k rest_residual taker out b'))
        × AllReport taker b.next_trade_id trades
        × AllTraded trades
        × (pos 0 ≤ℤ out.remaining)
        × (sum_trades trades ≤ℤ taker.quantity_lots)
        × (sum_trades trades +ℤ out.remaining ≡ taker.quantity_lots)
        × Holds k b' (opposite taker.side) out.rest
        × (pos 0 <ℤ out.remaining → NoneCross taker out.rest)
  match_order_promises k incoming rest_residual b own other valid h o =
      let taker = normalize_order_scalars incoming in
      let out = fill_levels taker taker.quantity_lots own in
      let fills = out.fills in
      let conserved : sum_trades (trades_of taker b.next_trade_id fills) +ℤ out.remaining
          ≡ taker.quantity_lots =
        rw (sum_trades-trades_of taker b.next_trade_id fills)
          (fill_levels-conserves taker taker.quantity_lots own) in
      let wanted = ((is_valid_order_iff taker).0 valid).lots_pos in
      let left : pos 0 ≤ℤ out.remaining =
        fill_levels-remaining_nonneg taker taker.quantity_lots own (omega (int_laws, wanted)) in
      let (b', run, after, _, _) =
        match_order_refines k incoming rest_residual b own other valid h o in
      (
        trades_of taker b.next_trade_id out.fills,
        out,
        b',
        run,
        trades_of-AllReport taker b.next_trade_id out.fills
            (fill_levels-AllCross taker taker.quantity_lots own),
        trades_of-AllTraded taker b.next_trade_id fills (
            fill_levels-AllPositive k b (opposite taker.side) taker _ 0 taker.quantity_lots own
              h.levels),
        left,
        rest_le (sum_trades (trades_of taker b.next_trade_id fills)) out.remaining
            taker.quantity_lots conserved left,
        conserved,
        after,
        fill_levels-NoneCross taker taker.quantity_lots own h.ranked,
      )

  -- The price of the first level, if there is one.
  abbrev pub first_price : List (Level D) → Option D
  first_price [] = none
  first_price (l ∷ ls) = some (from_price_ticks l.price)

  -- On a book that holds lists of levels for the two sides, the best bid and the best ask are the
  -- prices of the levels that come first, and there is none on a side that holds no level.
  pub get_best-Holds :
      (k : Capacity) (b : OrderBook D) (bids asks : List (Level D))
      → Holds k b side_buy bids
      → Holds k b side_sell asks
      → (get_best_bid b ≡ first_price bids) × (get_best_ask b ≡ first_price asks)
  unfolding get_best_bid get_best_ask
  get_best-Holds k b [] [] h o = ground (arith, h.levels, o.levels)
  get_best-Holds k b [] (m ∷ ms) h o = ground (arith, h.levels, o.levels.0, o.levels.1.price)
  get_best-Holds k b (l ∷ ls) [] h o = ground (arith, h.levels.0, h.levels.1.price, o.levels)
  get_best-Holds k b (l ∷ ls) (m ∷ ms) h o =
      ground (arith, h.levels.0, h.levels.1.price, o.levels.0, o.levels.1.price)
