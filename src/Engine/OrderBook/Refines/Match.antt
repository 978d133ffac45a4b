-- ===== src/Engine/OrderBook/Refines/Match.antt =====
-- `match_order` of engine/order_book.cpp as a whole, on a book that holds given lists of orders.
use axiotick.Common.{
  ◌+◌, ◌≡◌, Bool, true, ◌&&◌, if◌then◌else◌, ◌==◌, some, List, [], ltb_ℤ, pos, arith, length,
}
use axiotick.Core.Float.{Float}
use axiotick.Core.Order.{Order, order_type_limit}
use axiotick.Core.FixedPoint.{normalize_order_scalars}
use axiotick.Core.Validator.{is_valid_order}
use axiotick.Engine.OrderBook.{Capacity, OrderBook, levels_for_side}
use axiotick.Engine.OrderBook.Resting.{add_order}
use axiotick.Engine.OrderBook.Matching.{Matching, opposite, match_loops, match_order, rest_order}
use axiotick.Engine.OrderBook.PriceTime.{Level, Outcome, fill_levels, trades_of, set_lots}
use axiotick.Engine.OrderBook.Represents.{Holds}
use axiotick.Engine.OrderBook.Refines.Fuel.{AllLevels-AllShort, AllLevels-length}
use axiotick.Engine.OrderBook.Refines.Outer.{IsSwept, match_levels-Sweeps}

module _ {D : Type 0} ⦃f : Float D⦄ (k : Capacity) where
  -- The book after the loops, and after what is left of the taker has come to rest if it may.
  abbrev pub settled : Bool → Order D → Outcome (List (Level D)) → OrderBook D → OrderBook D
  settled rest_residual taker out b =
      if rest_residual && ltb_ℤ (pos 0) out.remaining && taker.type == order_type_limit
      then (add_order k (set_lots taker out.remaining) b).1
      else b

  -- The loops of `match_order` on a book that holds `own` on the side that trades and `other` on the
  -- other side: with the fuel given they end, and the book then holds what price-time priority leaves.
  pub match_loops-IsSwept :
      (taker : Order D) (b : OrderBook D) (own other : List (Level D))
      → Holds k b (opposite taker.side) own
      → let start : Matching D = record {
        book = b;
        remaining_lots = taker.quantity_lots;
        trades = [];
      } in
        (m : Matching D) × (match_loops k taker b ≡ some m)
        × IsSwept k taker start m (fill_levels taker taker.quantity_lots own)
  unfolding match_loops
  match_loops-IsSwept taker b own other h =
      let set = levels_for_side (opposite taker.side) b in
      match_levels-Sweeps k taker set.size k.order_nodes _ own
        (omega (arith, AllLevels-length k b (opposite taker.side) set 0 own h.levels))
        (AllLevels-AllShort k b (opposite taker.side) set 0 own h.levels) h

  -- On a book whose two sides hold lists of levels, best price first and oldest order first, a valid
  -- order makes `match_order` return the trades that price-time priority over those lists prescribes,
  -- numbered from the book's next trade id. Before a residual rests, the side that trades holds what
  -- price-time priority leaves, the other side holds what it held, and the next trade id has gone up
  -- by the number of trades.
  pub match_order_refines :
      (incoming : Order D) (rest_residual : Bool) (b : OrderBook D) (own other : List (Level D))
      → is_valid_order (normalize_order_scalars incoming) ≡ true
      → Holds k b (opposite (normalize_order_scalars incoming).side) own
      → Holds k b (opposite (opposite (normalize_order_scalars incoming).side)) other
      → let taker = normalize_order_scalars incoming in
        let out = fill_levels taker taker.quantity_lots own in
        (b' : OrderBook D) × (match_order k incoming rest_residual b
          ≡ some (trades_of taker b.next_trade_id out.fills, settled rest_residual taker out b'))
        × Holds k b' (opposite taker.side) out.rest
        × Holds k b' (opposite (opposite taker.side)) other
        × (b'.next_trade_id ≡ b.next_trade_id + length out.fills)
  unfolding match_order rest_order
  match_order_refines incoming rest_residual b own other valid h o =
      let taker = normalize_order_scalars incoming in
      let (m, run, swept) = match_loops-IsSwept taker b own other h in
      (
        m.book,
        ground (arith, valid, run, swept.reports.trades, swept.remaining),
        swept.holds,
        swept.reports.other other o,
        swept.reports.ids,
      )
