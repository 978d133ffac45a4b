-- ===== src/Engine/OrderBook/Matching.antt =====
-- `match_order` of engine/order_book.cpp and the queries that walk the levels.
use axiotick.Common.{
  ℕ, zero, suc, ◌+◌, Bool, true, false, ◌&&◌, if◌then◌else◌, ltb, ◌==◌, Option, none, some, List,
  [], ◌∷◌, ◌++◌, ℤ, pos, leb_ℤ, ltb_ℤ, min_ℤ, ◌+ℤ◌, ◌-ℤ◌,
}
use mathlib.Core.Option
use axiotick.Core.Float.{Float}
use axiotick.Core.Order.{Order, Trade, side_buy, side_sell, order_type_limit}
use axiotick.Core.FixedPoint.{normalize_order_scalars, from_quantity_lots, from_price_ticks}
use axiotick.Core.Validator.{is_valid_order}
use axiotick.Engine.PoolAllocator.{at}
use axiotick.Engine.PriceLevels.{PriceLevelSet}
use axiotick.Engine.OrderBook.{
  Capacity, OrderBook, levels_for_side, set_levels, set_level, set_node, remove_node, unlink_node,
}
use axiotick.Engine.OrderBook.Resting.{add_order}

unfoldable pub is_crossing_level : {D : Type 0} → Order D → ℤ → Bool
is_crossing_level incoming level_price =
    if incoming.type == order_type_limit
    then if incoming.side == side_buy
      then leb_ℤ level_price incoming.price_ticks
      else leb_ℤ incoming.price_ticks level_price
    else true

-- The side of the book that an order of a side trades with.
abbrev pub opposite : ℕ → ℕ
opposite side = if side == side_buy then side_sell else side_buy

-- What the loops of `match_order` change: the book, the lots still wanted and the trades so far.
pub record Matching (D : Type 0) : Type 0 where
  pub book : OrderBook D
  pub remaining_lots : ℤ
  pub trades : List (Trade D)

module _ {D : Type 0} ⦃f : Float D⦄ (k : Capacity) (taker : Order D) where
  -- One round of the inner loop up to the test of the maker's lots: the trade and the bookings.
  unfoldable pub fill_maker : ℕ → ℕ → Matching D → Matching D
  fill_maker i n m =
      let b = m.book in
      let set = levels_for_side (opposite taker.side) b in
      let level = set.levels i in
      let maker = at b.order_nodes n in
      let fill_lots = min_ℤ m.remaining_lots maker.order.quantity_lots in
      let left = maker.order.quantity_lots -ℤ fill_lots in
      let trade : Trade D = record {
        trade_id = b.next_trade_id;
        maker_order_id = maker.order.order_id;
        taker_order_id = taker.order_id;
        timestamp_ns = taker.timestamp_ns;
        price = from_price_ticks level.price_ticks;
        quantity = from_quantity_lots fill_lots;
        price_ticks = level.price_ticks;
        quantity_lots = fill_lots;
        side = taker.side;
      } in
      record {
        book =
            set_levels (opposite taker.side)
              (set_level set i (record level { total_lots = level.total_lots -ℤ fill_lots }))
              (record b {
                order_nodes =
                    set_node n
                      (record maker {
                        order = record (maker.order) {
                          quantity_lots = left;
                          quantity = from_quantity_lots left;
                        };
                      })
                      b.order_nodes;
                next_trade_id = b.next_trade_id + 1;
              });
        remaining_lots = m.remaining_lots -ℤ fill_lots;
        trades = m.trades ++ trade ∷ [];
      }

  -- The rest of the round: a maker with no lots left goes, and the answer says whether its level
  -- went with it.
  unfoldable pub drop_filled : ℕ → ℕ → Matching D → Bool × Matching D
  drop_filled i n m =
      let maker = at m.book.order_nodes n in
      let set = levels_for_side (opposite taker.side) m.book in
      let (level, _) = unlink_node k (set.levels i) n m.book.order_nodes in
      if leb_ℤ maker.order.quantity_lots (pos 0)
      then (
        level.order_count == 0,
        record m { book = remove_node k (opposite taker.side) i n maker.order.order_id m.book },
      )
      else (false, m)

  -- The inner loop, along the list of level `i` from a node on. The answer says whether the level was
  -- removed; `none` means that the fuel ran out.
  unfoldable pub match_level : ℕ → ℕ → Option ℕ → Matching D → Option (Bool × Matching D)
  unfolding fill_maker drop_filled
  match_level fuel i none m = some (false, m)
  match_level zero i (some n) m = if ltb_ℤ (pos 0) m.remaining_lots then none else some (false, m)
  match_level (suc fuel) i (some n) m =
      let next = (at m.book.order_nodes n).next in
      let (removed, m') = drop_filled i n (fill_maker i n m) in
      let rest = match_level fuel i next m' in
      if ltb_ℤ (pos 0) m.remaining_lots
      then if removed then some (true, m') else rest
      else some (false, m)

  -- The outer loop, from a level on. A level is left with none of the incoming lots or none of its
  -- own, so each round takes one level; `rounds` counts the levels to go, and `fuel` is what each
  -- inner loop is given.
  unfoldable pub match_levels : ℕ → ℕ → ℕ → Matching D → Option (Matching D)
  unfolding match_level
  match_levels zero fuel i m = some m
  match_levels (suc rounds) fuel i m =
      let set = levels_for_side (opposite taker.side) m.book in
      let level = set.levels i in
      elim (ltb i set.size
        && ltb_ℤ (pos 0) m.remaining_lots
        && is_crossing_level taker level.price_ticks) [
          | false ↦ some m
          | true ↦ elim (match_level fuel i level.head m) [
            | none ↦ none
            | some (removed, m') ↦ match_levels rounds fuel (if removed then i else i + 1) m'
          ]
        ]

module _ {D : Type 0} ⦃f : Float D⦄ (k : Capacity) where
  -- The end of `match_order`: what is left of a limit order may rest.
  unfoldable pub rest_order : Bool → Order D → Matching D → List (Trade D) × OrderBook D
  rest_order rest_residual taker m =
      let residual : Order D = record taker {
        quantity_lots = m.remaining_lots;
        quantity = from_quantity_lots m.remaining_lots;
      } in
      if rest_residual && ltb_ℤ (pos 0) m.remaining_lots && taker.type == order_type_limit
      then (m.trades, (add_order k residual m.book).1)
      else (m.trades, m.book)

  -- The two loops, with as much fuel as there are levels and nodes.
  unfoldable pub match_loops : Order D → OrderBook D → Option (Matching D)
  unfolding match_levels
  match_loops taker b =
      match_levels k taker (levels_for_side (opposite taker.side) b).size k.order_nodes 0
        (record { book = b; remaining_lots = taker.quantity_lots; trades = [] })

  unfoldable pub match_order : Order D → Bool → OrderBook D → Option (List (Trade D) × OrderBook D)
  unfolding match_loops rest_order
  match_order incoming rest_residual b =
      let normalized = normalize_order_scalars incoming in
      if is_valid_order normalized
      then Option.map (rest_order rest_residual normalized) (match_loops normalized b)
      else some ([], b)

  -- The loop of `executable_lots`, with the lots still wanted and the lots found.
  unfoldable pub executable_from : ℕ → ℕ → Order D → PriceLevelSet → ℤ → ℤ → ℤ
  executable_from zero i incoming set remaining filled = filled
  executable_from (suc rounds) i incoming set remaining filled =
      let level = set.levels i in
      let take_lots = min_ℤ remaining level.total_lots in
      let rest =
        executable_from rounds (i + 1) incoming set (remaining -ℤ take_lots)
          (filled +ℤ take_lots) in
      if ltb_ℤ (pos 0) remaining && is_crossing_level incoming level.price_ticks
      then rest
      else filled

  unfoldable pub executable_lots : Order D → OrderBook D → ℤ
  unfolding executable_from
  executable_lots incoming b =
      let normalized = normalize_order_scalars incoming in
      let set = levels_for_side (opposite normalized.side) b in
      if is_valid_order normalized
      then executable_from set.size 0 normalized set normalized.quantity_lots (pos 0)
      else pos 0
