-- ===== src/Engine/OrderBook/Positive.antt =====
-- The sizes of the fills that `match_order` of engine/order_book.cpp reports.
use axiotick.Common.{
  ℕ, ◌+◌, inl, inr, Bool-cases, ◌&&◌, List, [], ◌∷◌, ◌++◌, ℤ, pos, ◌≤ℤ◌, ◌<ℤ◌, ltb_ℤ, ◌-ℤ◌,
  -ℤ_parts, arith,
}
use axiotick.Core.Float.{Float}
use axiotick.Core.Order.{Order, Trade}
use axiotick.Engine.PriceLevels.{PriceLevelSet}
use axiotick.Engine.OrderBook.{Capacity, OrderBook}
use axiotick.Engine.OrderBook.Matching.{is_crossing_level}
use axiotick.Engine.OrderBook.PriceTime.{
  Resting, Level, Fill, fill_queue, fill_levels, is_empty, trades_of,
}
use axiotick.Engine.OrderBook.Represents.{AllMakers, AllLevels}

abbrev pub AllPositive : List Fill → Type 0
AllPositive [] = Unit {0}
AllPositive (x ∷ xs) = (pos 0 <ℤ x.quantity_lots) × AllPositive xs

abbrev pub AllTraded : {D : Type 0} → List (Trade D) → Type 0
AllTraded [] = Unit {0}
AllTraded (t ∷ ts) = (pos 0 <ℤ t.quantity_lots) × AllTraded ts

AllPositive-append : (xs ys : List Fill) → AllPositive xs → AllPositive ys → AllPositive (xs ++ ys)
AllPositive-append [] ys a b = b
AllPositive-append (x ∷ xs) ys (a, rest) b = (a, AllPositive-append xs ys rest b)

module _ {D : Type 0} ⦃f : Float D⦄ where
  pub trades_of-AllTraded :
      (taker : Order D) (id : ℕ) (xs : List Fill)
      → AllPositive xs
      → AllTraded (trades_of taker id xs)
  unfolding trades_of
  trades_of-AllTraded taker id [] a = tt
  trades_of-AllTraded taker id (x ∷ xs) (a, rest) = (a, trades_of-AllTraded taker (id + 1) xs rest)

  fill_queue-remaining_nonneg :
      (price r : ℤ) (ms : List (Resting D))
      → pos 0 ≤ℤ r
      → pos 0 ≤ℤ (fill_queue price r ms).remaining
  unfolding fill_queue
  fill_queue-remaining_nonneg price r [] h = h
  fill_queue-remaining_nonneg price r (m ∷ ms) h = ground (
    arith,
    -ℤ_parts r m.order.quantity_lots,
    fill_queue-remaining_nonneg price (r -ℤ m.order.quantity_lots) ms,
  )

  module _ (k : Capacity) (b : OrderBook D) (side : ℕ) where
    fill_queue-AllPositive :
        (price r : ℤ) (ms : List (Resting D))
        → AllMakers k b side price ms
        → AllPositive (fill_queue price r ms).fills
    unfolding fill_queue
    fill_queue-AllPositive price r [] v = tt
    fill_queue-AllPositive price r (m ∷ ms) (v, vs) =
        ground (arith, v.lots_pos, fill_queue-AllPositive price (r -ℤ m.order.quantity_lots) ms vs)

    pub fill_levels-AllPositive :
        (taker : Order D) (set : PriceLevelSet) (i : ℕ) (r : ℤ) (ls : List (Level D))
        → AllLevels k b side set i ls
        → AllPositive (fill_levels taker r ls).fills
    unfolding fill_levels
    fill_levels-AllPositive taker set i r [] v = tt
    fill_levels-AllPositive taker set i r (l ∷ ls) (_, v, vs) =
        let here = fill_queue l.price r l.queue in
        let rest = fill_levels taker here.remaining ls in
        let first = fill_queue-AllPositive l.price r l.queue v.makers in
        let later = fill_levels-AllPositive taker set (i + 1) here.remaining ls vs in
        elim (Bool-cases (ltb_ℤ (pos 0) r && is_crossing_level taker l.price)) [
          | inr stop ↦ rw stop tt
          | inl on ↦ elim (Bool-cases (is_empty here.rest)) [
            | inr left ↦ rw (on, left) first
            | inl empty ↦ rw (on, empty) (AllPositive-append here.fills rest.fills first later)
          ]
        ]

  pub fill_levels-remaining_nonneg :
      (taker : Order D) (r : ℤ) (ls : List (Level D))
      → pos 0 ≤ℤ r
      → pos 0 ≤ℤ (fill_levels taker r ls).remaining
  unfolding fill_levels
  fill_levels-remaining_nonneg taker r [] h = h
  fill_levels-remaining_nonneg taker r (l ∷ ls) h =
      let here = fill_queue l.price r l.queue in
      ground (
        arith,
        fill_queue-remaining_nonneg l.price r l.queue h,
        fill_levels-remaining_nonneg taker here.remaining ls,
      )
