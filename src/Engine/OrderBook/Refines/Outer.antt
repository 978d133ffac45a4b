-- ===== src/Engine/OrderBook/Refines/Outer.antt =====
-- The outer loop of `match_order` in engine/order_book.cpp against the plain levels.
use axiotick.Common.{
  ℕ, zero, suc, ◌+◌, ◌≤◌, ◌≡◌, refl, subst, ◌∙◌, inl, inr, Bool, true, false, Bool-cases,
  if◌then◌else◌, ◌&&◌, some, List, [], ◌∷◌, ℤ, pos, ◌≤ℤ◌, ltb_ℤ, ◌-ℤ◌, arith, length,
}
use axiotick.Core.Float.{Float}
use axiotick.Core.Order.{Order}
use axiotick.Engine.OrderBook.{Capacity}
use axiotick.Engine.OrderBook.Matching.{
  Matching, opposite, is_crossing_level, match_level, match_levels,
}
use axiotick.Engine.OrderBook.PriceTime.{Resting, Level, Outcome, fill_queue, fill_levels, is_empty}
use axiotick.Engine.OrderBook.Represents.{head_of, Holds}
use axiotick.Engine.OrderBook.Refines.{Reports, Reports-none, Reports-append, IsFilled, behind}
use axiotick.Engine.OrderBook.Refines.Inner.{match_level-Ends}
use axiotick.Engine.OrderBook.Refines.Fuel.{AllShort}

-- A queue is left with orders only when no more lots are wanted.
fill_queue-spent :
    {D : Type 0} ⦃f : Float D⦄ (price r : ℤ) (ms : List (Resting D))
    → let out = fill_queue price r ms in is_empty out.rest ≡ false → out.remaining ≤ℤ pos 0
unfolding fill_queue
fill_queue-spent price r [] e = cc
fill_queue-spent price r (m ∷ ms) e =
    ground (arith, fill_queue-spent price (r -ℤ m.order.quantity_lots) ms)

module _ {D : Type 0} ⦃f : Float D⦄ (k : Capacity) (taker : Order D) where
  abbrev side : ℕ
  side = opposite taker.side

  -- The outer loop did what the outcome of the levels says.
  pub record IsSwept (m m' : Matching D) (out : Outcome (List (Level D))) : Type 0 where
    pub reports : Reports k taker m m' out.fills
    pub remaining : m'.remaining_lots ≡ out.remaining
    pub holds : Holds k m'.book side out.rest

  match_levels_done :
      (rounds fuel i : ℕ) (m : Matching D)
      → m.remaining_lots ≤ℤ pos 0
      → match_levels k taker rounds fuel i m ≡ some m
  unfolding match_levels
  match_levels_done zero fuel i m h = refl
  match_levels_done (suc rounds) fuel i m h = ground arith

  abbrev Sweeps : ℕ → ℕ → Matching D → List (Level D) → Type 0
  Sweeps rounds fuel m ls =
      let out = fill_levels taker m.remaining_lots ls in
      (m' : Matching D) × (match_levels k taker rounds fuel 0 m ≡ some m') × IsSwept m m' out

  -- The test of the outer loop, at the first level.
  abbrev goes_on : Matching D → ℤ → Bool
  goes_on m price = ltb_ℤ (pos 0) m.remaining_lots && is_crossing_level taker price

  Sweeps-stop :
      (rounds fuel : ℕ) (m : Matching D) (l : Level D) (ls : List (Level D))
      → Holds k m.book side (l ∷ ls)
      → goes_on m l.price ≡ false
      → Sweeps (suc rounds) fuel m (l ∷ ls)
  unfolding fill_levels match_levels
  Sweeps-stop rounds fuel m l ls h stop = rw stop (
    m,
    ground (arith, h.levels.1.price, stop),
    record { reports = Reports-none k taker m; remaining = refl; holds = h },
  )

  Sweeps-nil : (rounds fuel : ℕ) (m : Matching D) → Holds k m.book side [] → Sweeps rounds fuel m []
  unfolding fill_levels match_levels
  Sweeps-nil zero fuel m h =
      (m, refl, record { reports = Reports-none k taker m; remaining = refl; holds = h })
  Sweeps-nil (suc rounds) fuel m h = (
    m,
    ground (arith, h.levels),
    record { reports = Reports-none k taker m; remaining = refl; holds = h },
  )

  match_levels_step :
      (rounds fuel : ℕ) (m m' : Matching D) (l : Level D) (ls : List (Level D)) (removed : Bool)
      → Holds k m.book side (l ∷ ls)
      → goes_on m l.price ≡ true
      → match_level k taker fuel 0 (head_of l.queue) m ≡ some (removed, m')
      → match_levels k taker (suc rounds) fuel 0 m
        ≡ match_levels k taker rounds fuel (if removed then 0 else 0 + 1) m'
  unfolding match_levels
  match_levels_step rounds fuel m m' l ls removed h on run =
      ground (arith, h.levels.0, h.levels.1.price, h.levels.1.head)

  behind-empty :
      (price : ℤ) (ms : List (Resting D)) (ls : List (Level D))
      → is_empty ms ≡ true
      → behind k taker price ms ls ≡ ls
  behind-empty price [] ls e = refl
  behind-empty price (x ∷ ms) ls e = cc

  behind-occupied :
      (price : ℤ) (ms : List (Resting D)) (ls : List (Level D))
      → is_empty ms ≡ false
      → behind k taker price ms ls ≡ record { price = price; queue = ms } ∷ ls
  behind-occupied price [] ls e = cc
  behind-occupied price (x ∷ ms) ls e = refl

  module _ (rounds fuel : ℕ) (m m' : Matching D) (l : Level D) (ls : List (Level D))
      (h : Holds k m.book side (l ∷ ls)) (on : goes_on m l.price ≡ true) where
    abbrev out : Outcome (List (Resting D))
    out = fill_queue l.price m.remaining_lots l.queue

    -- The first level is used up, and the loop goes on with the next.
    Sweeps-erased :
        is_empty out.rest ≡ true
        → match_level k taker fuel 0 (head_of l.queue) m ≡ some (true, m')
        → IsFilled k taker m m' l.price ls out
        → Sweeps rounds fuel m' ls
        → Sweeps (suc rounds) fuel m (l ∷ ls)
    unfolding fill_levels
    Sweeps-erased empty run good (m'', more, swept) =
        rw (on, empty, ← good.remaining)
          (
            m'',
            match_levels_step rounds fuel m m' l ls true h on run ∙ more,
            record {
              reports = Reports-append k taker m m' m'' _ _ good.reports swept.reports;
              remaining = swept.remaining;
              holds = swept.holds;
            },
          )

    -- Some of the first level is left, and no lots are wanted any more.
    Sweeps-left :
        is_empty out.rest ≡ false
        → match_level k taker fuel 0 (head_of l.queue) m ≡ some (false, m')
        → IsFilled k taker m m' l.price ls out
        → Sweeps (suc rounds) fuel m (l ∷ ls)
    unfolding fill_levels
    Sweeps-left some_left run good =
        let spent : m'.remaining_lots ≤ℤ pos 0 =
          rw good.remaining (fill_queue-spent l.price m.remaining_lots l.queue some_left) in
        rw (on, some_left)
          (
            m',
            match_levels_step rounds fuel m m' l ls false h on run
                ∙ match_levels_done rounds fuel 1 m' spent,
            record {
              reports = good.reports;
              remaining = good.remaining;
              holds =
                  subst (λ (z : List (Level D)). Holds k m'.book side z)
                    (behind-occupied l.price out.rest ls some_left) good.holds;
            },
          )

  -- The first level, with its queue taken apart.
  Sweeps-level :
      (rounds fuel : ℕ) (m : Matching D) (price : ℤ) (queue : List (Resting D))
      (ls : List (Level D))
      → length queue ≤ fuel
      → Holds k m.book side (record { price = price; queue = queue } ∷ ls)
      → ((m' : Matching D) → Holds k m'.book side ls → Sweeps rounds fuel m' ls)
      → Sweeps (suc rounds) fuel m (record { price = price; queue = queue } ∷ ls)
  Sweeps-level rounds fuel m price [] ls short h later = absurd (omega (arith, h.levels.1.occupied))
  Sweeps-level rounds fuel m price (x ∷ ms) ls short h later =
      let l : Level D = record { price = price; queue = x ∷ ms } in
      let rest = (fill_queue price m.remaining_lots (x ∷ ms)).rest in
      let (m', run, good) = match_level-Ends k taker fuel m price x ms ls short h in
      elim (Bool-cases (goes_on m price)) [
        | inr stop ↦ Sweeps-stop rounds fuel m l ls h stop
        | inl on ↦ elim (Bool-cases (is_empty rest)) [
          | inl empty ↦ Sweeps-erased rounds fuel m m' l ls h on empty (run ∙ (rw empty)) good (
              later m' (
                subst (λ (z : List (Level D)). Holds k m'.book side z)
                  (behind-empty price rest ls empty) good.holds))
          | inr left ↦ Sweeps-left rounds fuel m m' l ls h on left (run ∙ (rw left)) good
        ]
      ]

  pub match_levels-Sweeps :
      (rounds fuel : ℕ) (m : Matching D) (ls : List (Level D))
      → length ls ≤ rounds
      → AllShort fuel ls
      → Holds k m.book side ls
      → let out = fill_levels taker m.remaining_lots ls in
        (m' : Matching D) × (match_levels k taker rounds fuel 0 m ≡ some m') × IsSwept m m' out
  match_levels-Sweeps rounds fuel m [] e short h = Sweeps-nil rounds fuel m h
  match_levels-Sweeps zero fuel m (l ∷ ls) e short h = absurd (omega arith)
  match_levels-Sweeps (suc rounds) fuel m (l ∷ ls) e (short, shorts) h =
      Sweeps-level rounds fuel m l.price l.queue ls short h
        λ m' h'. match_levels-Sweeps rounds fuel m' ls (omega arith) shorts h'
