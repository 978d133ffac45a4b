-- ===== src/Engine/OrderBook/Examples.antt =====
-- Tests of the order book on a small capacity, over whole-number floats.
pub mod Held
mod Applied
use axiotick.Common.{ℕ, ◌≡◌, refl, true, Option, none, some, List, [], ◌∷◌, map, ℤ, pos, ◌-ℤ◌}
use axiotick.Core.FixedPoint.{normalize_order_scalars}
use axiotick.Core.Validator.{is_valid_order}
use axiotick.Engine.PoolAllocator.{try_emplace, reset, at, in_use, deallocate}
use axiotick.Engine.PriceLevels.{find_or_create_level, find_level_index, erase_level}
use axiotick.Core.Float.Whole.{whole_float}
use axiotick.Core.Order.{Order, Trade, side_buy, side_sell, order_type_limit, tif_gtc}
use axiotick.Engine.OrderBook.{Capacity, OrderBook, new_book, unlink_node, remove_node}
use axiotick.Engine.OrderBook.Resting.{add_order}
use axiotick.Engine.OrderBook.Matching.{match_order, is_crossing_level}

abbrev pub small : Capacity
small = record { price_levels = 3; order_nodes = 4 }

abbrev pub limit_order : ℕ → ℕ → ℕ → ℕ → Order ℤ
limit_order id side ticks lots = record {
  order_id = id;
  client_id = 1;
  timestamp_ns = 9;
  price = pos ticks;
  quantity = pos lots;
  price_ticks = pos ticks;
  quantity_lots = pos lots;
  symbol = [];
  side = side;
  type = order_type_limit;
  tif = tif_gtc;
}

abbrev pub with_order : Order ℤ → OrderBook ℤ → OrderBook ℤ
with_order order b = (add_order small order b).1

-- Two asks at 40, the older of 5 lots and the younger of 2, and one at 50.
abbrev pub three_asks : OrderBook ℤ
three_asks = with_order (limit_order 4 side_sell 40 2) (
    with_order (limit_order 2 side_sell 50 7)
      (with_order (limit_order 1 side_sell 40 5) (new_book small)))

abbrev pub buyer : Order ℤ
buyer = limit_order 3 side_buy 50 8

abbrev fills : Option (List (Trade ℤ) × OrderBook ℤ) → Option (List (ℕ × ℤ × ℤ))
fills none = none
fills (some (trades, b)) =
    some (map (λ t. (t.maker_order_id, t.price_ticks, t.quantity_lots)) trades)

sweep :
    fills (match_order small buyer true three_asks)
    ≡ some ((1, pos 40, pos 5) ∷ (4, pos 40, pos 2) ∷ (2, pos 50, pos 1) ∷ [])
unfolding match_order add_order new_book is_valid_order normalize_order_scalars try_emplace reset
    find_or_create_level find_level_index is_crossing_level at ◌-ℤ◌ unlink_node in_use remove_node
    erase_level deallocate
sweep = refl
