-- ===== src/Engine/OrderBook/Examples/Applied.antt =====
-- The theorems on matching, applied to the test book.
use axiotick.Common.{◌+◌, ◌≡◌, true, some, List, [], ℤ, pos, ◌<ℤ◌, ◌≤ℤ◌, ◌+ℤ◌, length}
use axiotick.Core.FixedPoint.{normalize_order_scalars}
use axiotick.Core.Float.Whole.{whole_float}
use axiotick.Core.Order.{Order, Trade, side_buy, side_sell}
use axiotick.Engine.OrderBook.Matching.{match_order, executable_lots}
use axiotick.Engine.OrderBook.{OrderBook, new_book}
use axiotick.Engine.OrderBook.Resting.{add_order, get_order}
use axiotick.Engine.OrderBook.Resting.Lookup.{add_order-get_order}
use axiotick.Engine.OrderBook.Resting.Refused.{IsSameBook, add_order_refused}
use axiotick.Engine.OrderBook.PriceTime.{Level, Outcome, fill_levels, trades_of}
use axiotick.Engine.OrderBook.Represents.{Holds}
use axiotick.Engine.OrderBook.Fills.{sum_fills, NoneCross}
use axiotick.Engine.OrderBook.Refines.Match.{match_order_refines, settled}
use axiotick.Engine.OrderBook.Executable.{executable_lots_exact}
use axiotick.Engine.OrderBook.Positive.{AllTraded}
use axiotick.Engine.OrderBook.Promise.{match_order_promises, AllReport, sum_trades}
use axiotick.Engine.OrderBook.Examples.{small, three_asks, limit_order, buyer}
use axiotick.Engine.OrderBook.Examples.Held.{
  asks_held, asks-Holds, bids-Holds, buyer-is_valid, empty-IsReady, buyer-added, copy-refused,
}

abbrev taker : Order ℤ
taker = normalize_order_scalars buyer

abbrev expected : Outcome (List (Level ℤ))
expected = fill_levels taker taker.quantity_lots asks_held

match_order_refines_example :
    (b' : OrderBook ℤ) × (match_order small buyer true three_asks
      ≡ some (
        trades_of taker three_asks.next_trade_id expected.fills,
        settled small true taker expected b',
      ))
    × Holds small b' side_sell expected.rest
    × Holds small b' side_buy []
    × (b'.next_trade_id ≡ three_asks.next_trade_id + length expected.fills)
unfolding normalize_order_scalars
match_order_refines_example =
    match_order_refines small buyer true three_asks asks_held [] buyer-is_valid asks-Holds
      bids-Holds

match_order_promises_example :
    (trades : List (Trade ℤ)) × (out : Outcome (List (Level ℤ))) × (b' : OrderBook ℤ) × (match_order
        small buyer true three_asks
      ≡ some (trades, settled small true taker out b'))
    × AllReport taker three_asks.next_trade_id trades
    × AllTraded trades
    × (pos 0 ≤ℤ out.remaining)
    × (sum_trades trades ≤ℤ taker.quantity_lots)
    × (sum_trades trades +ℤ out.remaining ≡ taker.quantity_lots)
    × Holds small b' side_sell out.rest
    × (pos 0 <ℤ out.remaining → NoneCross taker out.rest)
unfolding normalize_order_scalars
match_order_promises_example =
    match_order_promises small buyer true three_asks asks_held [] buyer-is_valid asks-Holds
      bids-Holds

executable_lots_exact_example : executable_lots small buyer three_asks ≡ sum_fills expected.fills
unfolding normalize_order_scalars
executable_lots_exact_example =
    executable_lots_exact small buyer three_asks asks_held buyer-is_valid asks-Holds

add_order-get_order_example :
    get_order small taker.order_id (add_order small buyer (new_book small)).1 ≡ some taker
add_order-get_order_example =
    add_order-get_order small buyer (new_book small) empty-IsReady buyer-added

add_order_refused_example :
    IsSameBook three_asks (add_order small (limit_order 1 side_sell 40 5) three_asks).1
add_order_refused_example =
    add_order_refused small (limit_order 1 side_sell 40 5) three_asks copy-refused
