-- ===== src/Engine/OrderBook/Executable.antt =====
-- `executable_lots` of engine/order_book.cpp, which the order manager asks before a fill-or-kill
-- order, against what `match_order` then fills.
use axiotick.Common.{
  ℕ, zero, suc, ◌+◌, ◌≡◌, refl, ap, ◌∙◌, inl, inr, true, false, Bool-cases, ◌&&◌, List, [], ◌∷◌, ℤ,
  pos, pos_part, neg_part, ◌≤ℤ◌, ◌<ℤ◌, ltb_ℤ, leb_ℤ, min_ℤ, ◌+ℤ◌, ◌-ℤ◌, arith, int_laws, length,
}
use axiotick.Core.Float.{Float}
use axiotick.Core.Order.{Order}
use axiotick.Core.FixedPoint.{normalize_order_scalars}
use axiotick.Core.Validator.{is_valid_order}
use axiotick.Core.Validator.Accepts.{is_valid_order_iff}
use axiotick.Engine.OrderBook.Fills.{sum_fills, fill_levels-conserves}
use axiotick.Engine.PriceLevels.{PriceLevelSet}
use axiotick.Engine.OrderBook.{Capacity, OrderBook, levels_for_side}
use axiotick.Engine.OrderBook.Matching.{
  is_crossing_level, opposite, executable_from, executable_lots,
}
use axiotick.Engine.OrderBook.PriceTime.{Resting, Level, Outcome, fill_queue, fill_levels, is_empty}
use axiotick.Engine.OrderBook.Represents.{sum_lots, AllMakers, AllLevels, Holds}
use axiotick.Engine.OrderBook.Refines.Fuel.{AllLevels-length}

module _ {D : Type 0} ⦃f : Float D⦄ (k : Capacity) (b : OrderBook D) (side : ℕ) where
  sum_lots-nonneg :
      (price : ℤ) (ms : List (Resting D)) → AllMakers k b side price ms → pos 0 ≤ℤ sum_lots ms
  sum_lots-nonneg price [] v = omega arith
  sum_lots-nonneg price (m ∷ ms) (v, vs) = omega (int_laws, v.lots_pos, sum_lots-nonneg price ms vs)

  -- A queue gives what it has or what is wanted, whichever is less.
  record IsTaken (r total : ℤ) (out : Outcome (List (Resting D))) : Type 0 where
    all : total ≤ℤ r → out.remaining ≡ r -ℤ total
    some_left : r ≤ℤ total → out.remaining ≡ pos 0
    empty : is_empty out.rest ≡ true → total ≤ℤ r
    occupied : is_empty out.rest ≡ false → r ≤ℤ total

  fill_queue-IsTaken :
      (price r : ℤ) (ms : List (Resting D))
      → pos 0 ≤ℤ r
      → AllMakers k b side price ms
      → IsTaken r (sum_lots ms) (fill_queue price r ms)
  unfolding fill_queue
  fill_queue-IsTaken price r [] h v = record {
    all = λ e. omega int_laws;
    some_left = λ e. omega int_laws;
    empty = λ e. h;
    occupied = λ e. cc;
  }
  fill_queue-IsTaken price r (m ∷ ms) h (v, vs) =
      let rest = sum_lots-nonneg price ms vs in
      elim (Bool-cases (ltb_ℤ (pos 0) r)) [
        | inr done ↦
            let zero_lots : r ≤ℤ pos 0 = ground arith in
            rw done (record {
              all = λ e. omega (int_laws, v.lots_pos);
              some_left = λ e. omega int_laws;
              empty = λ e. cc;
              occupied = λ e. omega (int_laws, v.lots_pos);
            })
        | inl wanted ↦ elim (Bool-cases (leb_ℤ m.order.quantity_lots r)) [
          | inl enough ↦
              let fits : m.order.quantity_lots ≤ℤ r = ground arith in
              let left : pos 0 ≤ℤ r -ℤ m.order.quantity_lots = omega int_laws in
              let ih = fill_queue-IsTaken price (r -ℤ m.order.quantity_lots) ms left vs in
              rw (wanted, enough)
                (record {
                  all = λ e. ih.all (omega int_laws) ∙ omega int_laws;
                  some_left = λ e. ih.some_left (omega int_laws);
                  empty = λ e. let i = ih.empty e in omega int_laws;
                  occupied = λ e. let i = ih.occupied e in omega int_laws;
                })
          | inr more ↦
              let exceeds : r <ℤ m.order.quantity_lots = ground arith in
              rw (wanted, more)
                (record {
                  all = λ e. absurd (omega int_laws);
                  some_left = λ e. refl;
                  empty = λ e. cc;
                  occupied = λ e. omega int_laws;
                })
        ]
      ]

  executable_from-done :
      (rounds i : ℕ) (taker : Order D) (set : PriceLevelSet) (r filled : ℤ)
      → r ≤ℤ pos 0
      → executable_from k rounds i taker set r filled ≡ filled
  unfolding executable_from
  executable_from-done zero i taker set r filled h = refl
  executable_from-done (suc rounds) i taker set r filled h = ground arith

  -- The loop counts what the fills will take.
  executable_from-eq :
      (rounds i : ℕ) (taker : Order D) (set : PriceLevelSet) (r filled : ℤ) (ls : List (Level D))
      → rounds ≡ length ls
      → pos 0 ≤ℤ r
      → AllLevels k b side set i ls
      → executable_from k rounds i taker set r filled
        ≡ filled +ℤ (r -ℤ (fill_levels taker r ls).remaining)
  unfolding executable_from fill_levels
  executable_from-eq zero i taker set r filled [] e h v = omega int_laws
  executable_from-eq zero i taker set r filled (l ∷ ls) e h v = absurd (omega arith)
  executable_from-eq (suc rounds) i taker set r filled [] e h v = absurd (omega arith)
  executable_from-eq (suc rounds) i taker set r filled (l ∷ ls) e h (_, v, vs) =
      let here = fill_queue l.price r l.queue in
      let taken = fill_queue-IsTaken l.price r l.queue h v.makers in
      elim (Bool-cases (ltb_ℤ (pos 0) r && is_crossing_level taker l.price)) [
        | inr stop ↦ rw (v.price, stop) (omega int_laws)
        | inl on ↦ elim (Bool-cases (is_empty here.rest)) [
          | inl empty ↦
              let fits = taken.empty empty in
              let left = taken.all fits in
              let took : min_ℤ r (sum_lots l.queue) ≡ sum_lots l.queue = ground arith in
              let ih =
                executable_from-eq rounds (i + 1) taker set (r -ℤ sum_lots l.queue)
                  (filled +ℤ sum_lots l.queue) ls (omega arith) (omega int_laws) vs in
              rw (v.price, v.total, on, empty, took, left) (ih ∙ omega int_laws)
          | inr rest ↦
              let exceeds = taken.occupied rest in
              let left = taken.some_left exceeds in
              let took : min_ℤ r (sum_lots l.queue) ≡ r = ground arith in
              let over =
                executable_from-done rounds (i + 1) taker set (r -ℤ r) (filled +ℤ r)
                  (omega int_laws) in
              rw (v.price, v.total, on, rest, took, left) (over ∙ omega int_laws)
        ]
      ]

module _ {D : Type 0} ⦃f : Float D⦄ (k : Capacity) where
  -- On a book that holds a list of levels on the side that trades, a valid order finds as many
  -- executable lots as price-time priority over that list fills of it.
  pub executable_lots_exact :
      (incoming : Order D) (b : OrderBook D) (own : List (Level D))
      → is_valid_order (normalize_order_scalars incoming) ≡ true
      → Holds k b (opposite (normalize_order_scalars incoming).side) own
      → executable_lots k incoming b
        ≡ sum_fills
            (fill_levels
              (normalize_order_scalars incoming)
              (normalize_order_scalars incoming).quantity_lots
              own).fills
  unfolding executable_lots
  executable_lots_exact incoming b own valid h =
      let taker = normalize_order_scalars incoming in
      let side = opposite taker.side in
      let set = levels_for_side side b in
      let lots : pos 0 <ℤ taker.quantity_lots = ((is_valid_order_iff taker).0 valid).lots_pos in
      let kept = fill_levels-conserves taker taker.quantity_lots own in
      let loop =
        executable_from-eq k b side set.size 0 taker set taker.quantity_lots (pos 0) own
          (omega (arith, AllLevels-length k b side set 0 own h.levels)) (omega int_laws) h.levels in
      rw (valid, loop) (omega (int_laws, ap pos_part kept, ap neg_part kept))
