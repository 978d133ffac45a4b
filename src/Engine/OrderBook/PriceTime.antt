-- ===== src/Engine/OrderBook/PriceTime.antt =====
-- The matching of engine/order_book.cpp as price-time priority over plain lists: the best level
-- first, and in a level the oldest order first. No index, link or count is in sight.
use axiotick.Common.{
  ℕ, ◌+◌, Bool, true, false, ◌&&◌, if◌then◌else◌, List, [], ◌∷◌, ◌++◌, ℤ, pos, leb_ℤ, ltb_ℤ, ◌-ℤ◌,
}
use axiotick.Core.Float.{Float}
use axiotick.Core.Order.{Order, Trade}
use axiotick.Core.FixedPoint.{from_quantity_lots, from_price_ticks}
use axiotick.Engine.OrderBook.Matching.{is_crossing_level}

-- A resting order with the index of its node.
pub record Resting (D : Type 0) : Type 0 where
  pub index : ℕ
  pub order : Order D

-- A price and the orders that rest at it, oldest first.
pub record Level (D : Type 0) : Type 0 where
  pub price : ℤ
  pub queue : List (Resting D)

-- One fill: the maker, the price and the lots.
pub record Fill : Type 0 where
  pub maker_order_id : ℕ
  pub price_ticks : ℤ
  pub quantity_lots : ℤ

-- The fills, the lots still wanted, and what is left in the book.
pub record Outcome (A : Type 0) : Type 0 where
  pub fills : List Fill
  pub remaining : ℤ
  pub rest : A

abbrev pub fill_at : {D : Type 0} → ℤ → Order D → ℤ → Fill
fill_at price maker lots = record {
  maker_order_id = maker.order_id;
  price_ticks = price;
  quantity_lots = lots;
}

module _ {D : Type 0} ⦃f : Float D⦄ where
  abbrev pub set_lots : Order D → ℤ → Order D
  set_lots o lots = record o { quantity_lots = lots; quantity = from_quantity_lots lots }

  -- Fills from the front of one queue.
  unfoldable pub fill_queue : ℤ → ℤ → List (Resting D) → Outcome (List (Resting D))
  fill_queue price r [] = record { fills = []; remaining = r; rest = [] }
  fill_queue price r (m ∷ ms) =
      let lots = m.order.quantity_lots in
      let later = fill_queue price (r -ℤ lots) ms in
      if ltb_ℤ (pos 0) r
      then if leb_ℤ lots r
        then record later { fills = fill_at price m.order lots ∷ later.fills }
        else record {
          fills = fill_at price m.order r ∷ [];
          remaining = pos 0;
          rest = record m { order = set_lots m.order (lots -ℤ r) } ∷ ms;
        }
      else record { fills = []; remaining = r; rest = m ∷ ms }

  abbrev pub is_empty : List (Resting D) → Bool
  is_empty [] = true
  is_empty (_ ∷ _) = false

  -- Fills level by level, as long as lots are wanted and the level crosses.
  unfoldable pub fill_levels : Order D → ℤ → List (Level D) → Outcome (List (Level D))
  fill_levels taker r [] = record { fills = []; remaining = r; rest = [] }
  fill_levels taker r (l ∷ ls) =
      let here = fill_queue l.price r l.queue in
      let later = fill_levels taker here.remaining ls in
      if ltb_ℤ (pos 0) r && is_crossing_level taker l.price
      then if is_empty here.rest
        then record later { fills = here.fills ++ later.fills }
        else record {
          fills = here.fills;
          remaining = here.remaining;
          rest = record l { queue = here.rest } ∷ ls;
        }
      else record { fills = []; remaining = r; rest = l ∷ ls }

  -- The trades that report the fills of a taker, numbered from an id on.
  unfoldable pub trades_of : Order D → ℕ → List Fill → List (Trade D)
  trades_of taker id [] = []
  trades_of taker id (x ∷ xs) =
      record {
        trade_id = id;
        maker_order_id = x.maker_order_id;
        taker_order_id = taker.order_id;
        timestamp_ns = taker.timestamp_ns;
        price = from_price_ticks x.price_ticks;
        quantity = from_quantity_lots x.quantity_lots;
        price_ticks = x.price_ticks;
        quantity_lots = x.quantity_lots;
        side = taker.side;
      }
      ∷ trades_of taker (id + 1) xs
