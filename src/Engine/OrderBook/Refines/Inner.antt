-- ===== src/Engine/OrderBook/Refines/Inner.antt =====
-- The inner loop of `match_order` in engine/order_book.cpp against one plain queue.
use axiotick.Common.{
  ℕ, zero, suc, ◌≤◌, ◌≡◌, refl, ap, inl, inr, Bool-cases, Option, some, List, [], ◌∷◌, ℤ, pos, ◌<ℤ◌,
  ◌≤ℤ◌, ltb_ℤ, leb_ℤ, arith, length,
}
use axiotick.Core.Float.{Float}
use axiotick.Core.Order.{Order}
use axiotick.Engine.PoolAllocator.{at}
use axiotick.Engine.OrderBook.{Capacity, OrderNode}
use axiotick.Engine.OrderBook.Matching.{Matching, opposite, match_level}
use axiotick.Engine.OrderBook.PriceTime.{Resting, Level, Outcome, fill_queue, is_empty}
use axiotick.Engine.OrderBook.Represents.{head_of, Holds}
use axiotick.Engine.OrderBook.Round.Rest.{erased-Holds, kept-Holds}
use axiotick.Engine.OrderBook.Round.Drop.{drop_filled-partial, drop_filled-whole}
use axiotick.Engine.OrderBook.Refines.{
  Reports-none, Reports-append, IsFilled, match_level_done, match_level_step, filled, removed,
  partial-IsFilled, removed-Reports, removed-remaining, fill_queue-done, fill_queue-partial,
  fill_queue-whole,
}

module _ {D : Type 0} ⦃f : Float D⦄ (k : Capacity) (taker : Order D) where
  abbrev side : ℕ
  side = opposite taker.side

  -- With this fuel the inner loop ends, and it does what an outcome says.
  abbrev pub Ends :
      ℕ → Matching D → ℤ → Option ℕ → List (Level D) → Outcome (List (Resting D)) → Type 0
  Ends fuel m price node ls out =
      (m' : Matching D) × (match_level k taker fuel 0 node m ≡ some (is_empty out.rest, m'))
      × IsFilled k taker m m' price ls out

  module _ (m : Matching D) (price : ℤ) (x : Resting D) (ls : List (Level D)) where
    next_lem :
        (ms : List (Resting D))
        → Holds k m.book side (record { price = price; queue = x ∷ ms } ∷ ls)
        → (at m.book.order_nodes x.index).next ≡ head_of ms
    unfolding at
    next_lem ms h = ap (λ (n : OrderNode D). n.next) h.levels.1.chain.0

    Ends-done :
        (fuel : ℕ) (ms : List (Resting D))
        → Holds k m.book side (record { price = price; queue = x ∷ ms } ∷ ls)
        → m.remaining_lots ≤ℤ pos 0
        → Ends fuel m price (some x.index) ls (fill_queue price m.remaining_lots (x ∷ ms))
    Ends-done fuel ms h done = rw (fill_queue-done price m.remaining_lots x ms done) (
      m,
      match_level_done k taker fuel 0 (some x.index) m done,
      record { reports = Reports-none k taker m; remaining = refl; holds = h },
    )

    Ends-partial :
        (fuel : ℕ) (ms : List (Resting D))
        → Holds k m.book side (record { price = price; queue = x ∷ ms } ∷ ls)
        → pos 0 <ℤ m.remaining_lots
        → m.remaining_lots <ℤ x.order.quantity_lots
        → Ends (suc fuel) m price (some x.index) ls (fill_queue price m.remaining_lots (x ∷ ms))
    Ends-partial fuel ms h wanted more =
        let m' = filled k taker m price x ms ls h in
        let spec = fill_queue-partial price m.remaining_lots x ms wanted more in
        let good = partial-IsFilled k taker m price x ms ls h wanted more in
        let over : m'.remaining_lots ≤ℤ pos 0 = rw (good.remaining, spec) (omega arith) in
        let step = match_level_step k taker fuel 0 x.index m wanted in
        let drop = drop_filled-partial k taker m price x ms ls h wanted more in
        let next = (at m.book.order_nodes x.index).next in
        (m', ground (arith, step, drop, spec, match_level_done k taker fuel 0 next m' over), good)

    Ends-erased :
        (fuel : ℕ)
        → Holds k m.book side (record { price = price; queue = x ∷ [] } ∷ ls)
        → pos 0 <ℤ m.remaining_lots
        → x.order.quantity_lots ≤ℤ m.remaining_lots
        → Ends (suc fuel) m price (some x.index) ls (fill_queue price m.remaining_lots (x ∷ []))
    unfolding fill_queue
    Ends-erased fuel h wanted enough =
        let m' = removed k taker m price x [] ls h in
        let spec = fill_queue-whole price m.remaining_lots x [] wanted enough in
        let step = match_level_step k taker fuel 0 x.index m wanted in
        let drop = drop_filled-whole k taker m price x [] ls h enough in
        rw spec (
          m',
          ground (arith, step, drop),
          record {
            reports = removed-Reports k taker m price x [] ls h enough;
            remaining = removed-remaining k taker m price x [] ls h enough;
            holds = erased-Holds k taker m price x ls h enough;
          },
        )

    -- The loop goes on with the next order of the queue.
    Ends-kept :
        (fuel : ℕ) (y : Resting D) (ys : List (Resting D))
        (h : Holds k m.book side (record { price = price; queue = x ∷ y ∷ ys } ∷ ls))
        → pos 0 <ℤ m.remaining_lots
        → x.order.quantity_lots ≤ℤ m.remaining_lots
        → (let m' = removed k taker m price x (y ∷ ys) ls h in
            Ends fuel m' price (some y.index) ls (fill_queue price m'.remaining_lots (y ∷ ys)))
        → Ends (suc fuel) m price (some x.index) ls (fill_queue price m.remaining_lots (x ∷ y ∷ ys))
    Ends-kept fuel y ys h wanted enough (m'', run, good) =
        let m' = removed k taker m price x (y ∷ ys) ls h in
        let same = removed-remaining k taker m price x (y ∷ ys) ls h enough in
        let spec = fill_queue-whole price m.remaining_lots x (y ∷ ys) wanted enough in
        let step = match_level_step k taker fuel 0 x.index m wanted in
        let drop = drop_filled-whole k taker m price x (y ∷ ys) ls h enough in
        let next = next_lem (y ∷ ys) h in
        rw (spec, ← same)
          (
            m'',
            ground (arith, step, drop, next, run),
            record {
              reports =
                  Reports-append k taker m m' m'' _ _
                    (removed-Reports k taker m price x (y ∷ ys) ls h enough) good.reports;
              remaining = good.remaining;
              holds = good.holds;
            },
          )

  -- Fuel for each order of the queue is enough for the inner loop.
  pub match_level-Ends :
      (fuel : ℕ) (m : Matching D) (price : ℤ) (x : Resting D) (ms : List (Resting D))
      (ls : List (Level D))
      → length (x ∷ ms) ≤ fuel
      → Holds k m.book side (record { price = price; queue = x ∷ ms } ∷ ls)
      → Ends fuel m price (some x.index) ls (fill_queue price m.remaining_lots (x ∷ ms))
  match_level-Ends zero m price x ms ls e h = absurd (omega arith)
  match_level-Ends (suc fuel) m price x [] ls e h =
      elim (Bool-cases (ltb_ℤ (pos 0) m.remaining_lots)) [
        | inr done ↦ Ends-done m price x ls (suc fuel) [] h (ground arith)
        | inl wanted ↦ elim (Bool-cases (leb_ℤ x.order.quantity_lots m.remaining_lots)) [
          | inl enough ↦ Ends-erased m price x ls fuel h (ground arith) (ground arith)
          | inr more ↦ Ends-partial m price x ls fuel [] h (ground arith) (ground arith)
        ]
      ]
  match_level-Ends (suc fuel) m price x (y ∷ ys) ls e h =
      elim (Bool-cases (ltb_ℤ (pos 0) m.remaining_lots)) [
        | inr done ↦ Ends-done m price x ls (suc fuel) (y ∷ ys) h (ground arith)
        | inl wanted ↦ elim (Bool-cases (leb_ℤ x.order.quantity_lots m.remaining_lots)) [
          | inl enough ↦ Ends-kept m price x ls fuel y ys h (ground arith) (ground arith) (
              match_level-Ends fuel (removed k taker m price x (y ∷ ys) ls h) price y ys ls
                (omega arith) (kept-Holds k taker m price x ls y ys h (ground arith)))
          | inr more ↦ Ends-partial m price x ls fuel (y ∷ ys) h (ground arith) (ground arith)
        ]
      ]
