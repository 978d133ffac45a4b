-- ===== src/Engine/OrderBook/Prices.antt =====
-- The prices that engine/order_book.cpp reports: best bid and ask, spread, and the average for a size.
use axiotick.Common.{
  ℕ, zero, suc, ◌+◌, if◌then◌else◌, ◌==◌, Option, none, some, ℤ, pos, ◌||◌, ◌==ℤ◌, int64_max, leb_ℤ,
  ltb_ℤ, min_ℤ, ◌-ℤ◌,
}
use axiotick.Core.Float.{Float}
use axiotick.Core.FixedPoint.{from_price_ticks, to_quantity_lots, to_notional_units}
use axiotick.Engine.PriceLevels.{PriceLevelSet}
use axiotick.Engine.OrderBook.{OrderBook, levels_for_side}
use axiotick.Engine.OrderBook.Matching.{opposite}

-- The loop of `vwap`, with the lots still wanted and the notional so far.
vwap_from : {D : Type 0} (f : Float D) → ℕ → ℕ → PriceLevelSet → ℤ → f.Long → ℤ × f.Long
vwap_from f zero i set remaining notional = (remaining, notional)
vwap_from f (suc rounds) i set remaining notional =
    let level = set.levels i in
    let take_lots = min_ℤ remaining level.total_lots in
    let units = f.long_of_int (to_notional_units f level.price_ticks take_lots) in
    let rest =
      vwap_from f rounds (i + 1) set (remaining -ℤ take_lots) (f.long_add notional units) in
    if ltb_ℤ (pos 0) remaining then rest else (remaining, notional)

module _ {D : Type 0} ⦃f : Float D⦄ where
  unfoldable pub get_best_bid : OrderBook D → Option D
  get_best_bid b =
      if b.bids.size == 0 then none else some (from_price_ticks (b.bids.levels 0).price_ticks)

  unfoldable pub get_best_ask : OrderBook D → Option D
  get_best_ask b =
      if b.asks.size == 0 then none else some (from_price_ticks (b.asks.levels 0).price_ticks)

  unfoldable pub get_spread : OrderBook D → Option D
  get_spread b = elim (get_best_bid b) [
    | none ↦ none
    | some bid ↦ elim (get_best_ask b) [ none ↦ none | some ask ↦ some (f.sub ask bid) ]
  ]

  unfoldable pub vwap : ℕ → D → OrderBook D → Option D
  unfolding vwap_from
  vwap side quantity b =
      let target_lots = to_quantity_lots quantity in
      let set = levels_for_side (opposite side) b in
      let (remaining, notional) = vwap_from f set.size 0 set target_lots (f.long_of_int (pos 0)) in
      if leb_ℤ target_lots (pos 0) || target_lots ==ℤ int64_max
      then none
      else if ltb_ℤ (pos 0) remaining
      then none
      else some (from_price_ticks (f.llround (f.long_div notional (f.long_of_int target_lots))))
