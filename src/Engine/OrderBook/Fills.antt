-- ===== src/Engine/OrderBook/Fills.antt =====
-- What price-time priority promises of the fills that `match_order` of engine/order_book.cpp reports.
use axiotick.Common.{
  ◌≡◌, inl, inr, true, false, Bool-cases, ◌&&◌, List, [], ◌∷◌, ◌++◌, ℤ, pos, ◌≤ℤ◌, ◌<ℤ◌, ltb_ℤ,
  leb_ℤ, ◌+ℤ◌, ◌-ℤ◌, pos_part, neg_part, ap, arith, int_laws,
}
use axiotick.Core.Float.{Float}
use axiotick.Core.Order.{Order}
use axiotick.Engine.PriceLevels.Sorted.{better}
use axiotick.Engine.OrderBook.Matching.{is_crossing_level, opposite}
use axiotick.Engine.OrderBook.PriceTime.{Resting, Level, Fill, fill_queue, fill_levels, is_empty}
use axiotick.Engine.OrderBook.Represents.{AllBehind, Ranked}

abbrev pub sum_fills : List Fill → ℤ
sum_fills [] = pos 0
sum_fills (x ∷ xs) = x.quantity_lots +ℤ sum_fills xs

sum_fills-append : (xs ys : List Fill) → sum_fills (xs ++ ys) ≡ sum_fills xs +ℤ sum_fills ys
sum_fills-append [] ys = omega int_laws
sum_fills-append (x ∷ xs) ys = let ih = sum_fills-append xs ys in rw ih (omega int_laws)

-- What is left of a side crosses no more.
abbrev pub NoneCross : {D : Type 0} → Order D → List (Level D) → Type 0
NoneCross taker [] = Unit {0}
NoneCross taker (l ∷ ls) = (is_crossing_level taker l.price ≡ false) × NoneCross taker ls

abbrev pub AllCross : {D : Type 0} → Order D → List Fill → Type 0
AllCross taker [] = Unit {0}
AllCross taker (x ∷ xs) = (is_crossing_level taker x.price_ticks ≡ true) × AllCross taker xs

AllCross-append :
    {D : Type 0} (taker : Order D) (xs ys : List Fill)
    → AllCross taker xs
    → AllCross taker ys
    → AllCross taker (xs ++ ys)
AllCross-append taker [] ys a b = b
AllCross-append taker (x ∷ xs) ys (a, rest) b = (a, AllCross-append taker xs ys rest b)

-- A price that ranks behind one that does not cross does not cross.
is_crossing_level_behind :
    {D : Type 0} (taker : Order D) (p q : ℤ)
    → better (opposite taker.side) p q ≡ true
    → is_crossing_level taker p ≡ false
    → is_crossing_level taker q ≡ false
unfolding is_crossing_level
is_crossing_level_behind taker p q b e = ground arith

NoneCross-behind :
    {D : Type 0} (taker : Order D) (p : ℤ) (ls : List (Level D))
    → is_crossing_level taker p ≡ false
    → AllBehind (opposite taker.side) p ls
    → NoneCross taker ls
NoneCross-behind taker p [] e b = tt
NoneCross-behind taker p (l ∷ ls) e (b, rest) =
    (is_crossing_level_behind taker p l.price b e, NoneCross-behind taker p ls e rest)

module _ {D : Type 0} ⦃f : Float D⦄ where
  fill_queue-conserves :
      (price r : ℤ) (ms : List (Resting D))
      → let out = fill_queue price r ms in sum_fills out.fills +ℤ out.remaining ≡ r
  unfolding fill_queue
  fill_queue-conserves price r [] = omega int_laws
  fill_queue-conserves price r (m ∷ ms) =
      let ih = fill_queue-conserves price (r -ℤ m.order.quantity_lots) ms in
      elim (Bool-cases (ltb_ℤ (pos 0) r)) [
        | inr done ↦ rw done (omega int_laws)
        | inl wanted ↦ elim (Bool-cases (leb_ℤ m.order.quantity_lots r)) [
          | inl enough ↦ rw (wanted, enough) (omega (int_laws, ap pos_part ih, ap neg_part ih))
          | inr more ↦ rw (wanted, more) (omega int_laws)
        ]
      ]

  fill_queue-cross :
      (taker : Order D) (price r : ℤ) (ms : List (Resting D))
      → is_crossing_level taker price ≡ true
      → AllCross taker (fill_queue price r ms).fills
  unfolding fill_queue
  fill_queue-cross taker price r [] e = tt
  fill_queue-cross taker price r (m ∷ ms) e =
      ground (arith, fill_queue-cross taker price (r -ℤ m.order.quantity_lots) ms e)

  fill_queue-spent :
      (price r : ℤ) (ms : List (Resting D))
      → let out = fill_queue price r ms in is_empty out.rest ≡ false → out.remaining ≤ℤ pos 0
  unfolding fill_queue
  fill_queue-spent price r [] e = cc
  fill_queue-spent price r (m ∷ ms) e =
      ground (arith, fill_queue-spent price (r -ℤ m.order.quantity_lots) ms)

  pub fill_levels-conserves :
      (taker : Order D) (r : ℤ) (ls : List (Level D))
      → let out = fill_levels taker r ls in sum_fills out.fills +ℤ out.remaining ≡ r
  unfolding fill_levels
  fill_levels-conserves taker r [] = omega int_laws
  fill_levels-conserves taker r (l ∷ ls) =
      let here = fill_queue l.price r l.queue in
      let first = fill_queue-conserves l.price r l.queue in
      let later = fill_levels-conserves taker here.remaining ls in
      let both = sum_fills-append here.fills (fill_levels taker here.remaining ls).fills in
      elim (Bool-cases (ltb_ℤ (pos 0) r && is_crossing_level taker l.price)) [
        | inr stop ↦ rw stop (omega int_laws)
        | inl on ↦ elim (Bool-cases (is_empty here.rest)) [
          | inr left ↦ rw (on, left) first
          | inl empty ↦
              rw (on, empty, both)
                (omega (
                  int_laws,
                  ap pos_part first,
                  ap neg_part first,
                  ap pos_part later,
                  ap neg_part later,
                ))
        ]
      ]

  pub fill_levels-AllCross :
      (taker : Order D) (r : ℤ) (ls : List (Level D))
      → AllCross taker (fill_levels taker r ls).fills
  unfolding fill_levels
  fill_levels-AllCross taker r [] = tt
  fill_levels-AllCross taker r (l ∷ ls) =
      let here = fill_queue l.price r l.queue in
      let rest = fill_levels taker here.remaining ls in
      ground (
        arith,
        fill_queue-cross taker l.price r l.queue,
        AllCross-append taker here.fills rest.fills,
        fill_levels-AllCross taker here.remaining ls,
      )

  pub fill_levels-NoneCross :
      (taker : Order D) (r : ℤ) (ls : List (Level D))
      → Ranked (opposite taker.side) ls
      → let out = fill_levels taker r ls in pos 0 <ℤ out.remaining → NoneCross taker out.rest
  unfolding fill_levels
  fill_levels-NoneCross taker r [] k h = tt
  fill_levels-NoneCross taker r (l ∷ ls) k h =
      let here = fill_queue l.price r l.queue in
      ground (
        arith,
        fill_queue-spent l.price r l.queue,
        NoneCross-behind taker l.price ls,
        fill_levels-NoneCross taker here.remaining ls k.1,
      )
