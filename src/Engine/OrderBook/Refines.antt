-- ===== src/Engine/OrderBook/Refines.antt =====
-- `match_order` of engine/order_book.cpp against price-time priority over lists: one maker.
pub mod Inner
pub mod Fuel
pub mod Outer
pub mod Match
use axiotick.Common.{
  ℕ, zero, suc, ◌+◌, ◌≤◌, ◌<◌, ◌≡◌, refl, sym, ap, subst, ◌∙◌, inl, inr, Bool, true, false,
  Bool-cases, if◌then◌else◌, Option, none, some, List, [], ◌∷◌, ◌++◌, ℤ, pos, ◌<ℤ◌, ◌≤ℤ◌, ltb_ℤ,
  leb_ℤ, ◌-ℤ◌, min_ℤ, arith, int_laws, length, length-append,
}
use mathlib.Core.List.{append_assoc, append-nil}
use axiotick.Core.Float.{Float}
use axiotick.Core.Order.{Order, Trade}
use axiotick.Engine.PoolAllocator.{at}
use axiotick.Engine.OrderBook.{Capacity, OrderBook, levels_for_side, remove_node}
use axiotick.Engine.OrderBook.Matching.{Matching, opposite, fill_maker, drop_filled, match_level}
use axiotick.Engine.OrderBook.PriceTime.{
  Resting, Level, Fill, Outcome, fill_queue, fill_at, set_lots, is_empty, trades_of,
}
use axiotick.Engine.OrderBook.Represents.{head_of, Holds}
use axiotick.Engine.OrderBook.Round
use axiotick.Engine.OrderBook.Round.Reduced.{reduced-Holds, other-Holds, fill_maker-Frame}
use axiotick.Engine.OrderBook.Round.Removed
use axiotick.Engine.OrderBook.Round.Rest.{erased-Holds, kept-Holds}
use axiotick.Engine.OrderBook.Round.Drop.{drop_filled-partial, drop_filled-whole}

trades_of-append :
    {D : Type 0} ⦃f : Float D⦄ (taker : Order D) (xs ys : List Fill) (id id' : ℕ)
    → id' ≡ id + length xs
    → trades_of taker id (xs ++ ys) ≡ trades_of taker id xs ++ trades_of taker id' ys
unfolding trades_of
trades_of-append taker [] ys id id' e = ap (λ (z : ℕ). trades_of taker z ys) (omega arith)
trades_of-append taker (x ∷ xs) ys id id' e =
    rw (trades_of-append taker xs ys (id + 1) id' (omega arith))

module _ {D : Type 0} ⦃f : Float D⦄ (price r : ℤ) (x : Resting D) (ms : List (Resting D)) where
  fill_queue-done :
      r ≤ℤ pos 0 → fill_queue price r (x ∷ ms) ≡ record { fills = []; remaining = r; rest = x ∷ ms }
  unfolding fill_queue
  fill_queue-done h = ground arith

  fill_queue-partial :
      pos 0 <ℤ r
      → r <ℤ x.order.quantity_lots
      → fill_queue price r (x ∷ ms) ≡ record {
        fills = fill_at price x.order r ∷ [];
        remaining = pos 0;
        rest = record x { order = set_lots x.order (x.order.quantity_lots -ℤ r) } ∷ ms;
      }
  unfolding fill_queue
  fill_queue-partial h k = ground arith

  fill_queue-whole :
      pos 0 <ℤ r
      → x.order.quantity_lots ≤ℤ r
      → fill_queue price r (x ∷ ms) ≡ (
          let later = fill_queue price (r -ℤ x.order.quantity_lots) ms in
          record later { fills = fill_at price x.order x.order.quantity_lots ∷ later.fills })
  unfolding fill_queue
  fill_queue-whole h k = ground arith

module _ {D : Type 0} ⦃f : Float D⦄ (k : Capacity) (taker : Order D) where
  abbrev pub side : ℕ
  side = opposite taker.side

  -- What the loops do besides the side that trades: the trades report the fills, the trade ids go on
  -- by their number, and the other side holds what it held.
  pub record Reports (m m' : Matching D) (fills : List Fill) : Type 0 where
    pub trades : m'.trades ≡ m.trades ++ trades_of taker m.book.next_trade_id fills
    pub ids : m'.book.next_trade_id ≡ m.book.next_trade_id + length fills
    pub other :
        (rest : List (Level D))
        → Holds k m.book (opposite side) rest
        → Holds k m'.book (opposite side) rest

  Reports-none : (m : Matching D) → Reports m m []
  unfolding trades_of
  Reports-none m = record {
    trades = sym (append-nil m.trades);
    ids = omega arith;
    other = λ rest v. v;
  }

  Reports-append :
      (m m' m'' : Matching D) (xs ys : List Fill)
      → Reports m m' xs
      → Reports m' m'' ys
      → Reports m m'' (xs ++ ys)
  Reports-append m m' m'' xs ys a b = record {
    trades =
        b.trades
        ∙ ap (λ (t : List (Trade D)). t ++ trades_of taker m'.book.next_trade_id ys) a.trades
        ∙ append_assoc m.trades _ _
        ∙ ap (◌++◌ m.trades) (sym (trades_of-append taker xs ys m.book.next_trade_id _ a.ids));
    ids = omega (arith, a.ids, b.ids, length-append xs ys);
    other = λ rest v. b.other rest (a.other rest v);
  }

  -- What is left of the side when the first queue has been filled from.
  abbrev pub behind : ℤ → List (Resting D) → List (Level D) → List (Level D)
  behind price [] ls = ls
  behind price (x ∷ xs) ls = record { price = price; queue = x ∷ xs } ∷ ls

  -- The inner loop did what the outcome of a queue says.
  pub record IsFilled (m m' : Matching D) (price : ℤ) (ls : List (Level D))
      (out : Outcome (List (Resting D))) : Type 0 where
    pub reports : Reports m m' out.fills
    pub remaining : m'.remaining_lots ≡ out.remaining
    pub holds : Holds k m'.book side (behind price out.rest ls)

  match_level_done :
      (fuel i : ℕ) (node : Option ℕ) (m : Matching D)
      → m.remaining_lots ≤ℤ pos 0
      → match_level k taker fuel i node m ≡ some (false, m)
  unfolding match_level
  match_level_done fuel i none m h = refl
  match_level_done zero i (some n) m h = ground arith
  match_level_done (suc fuel) i (some n) m h = ground arith

  match_level_step :
      (fuel i n : ℕ) (m : Matching D)
      → pos 0 <ℤ m.remaining_lots
      → match_level k taker (suc fuel) i (some n) m ≡ (
          let (removed, m') = drop_filled k taker i n (fill_maker k taker i n m) in
          if removed
          then some (true, m')
          else match_level k taker fuel i (at m.book.order_nodes n).next m')
  unfolding match_level
  match_level_step fuel i n m h = ground arith

  module _ (m : Matching D) (price : ℤ) (x : Resting D) (ms : List (Resting D))
      (ls : List (Level D))
      (h : Holds k m.book side (record { price = price; queue = x ∷ ms } ∷ ls)) where
    abbrev pub filled : Matching D
    filled = fill_maker k taker 0 x.index m

    abbrev pub lots : ℤ
    lots = min_ℤ m.remaining_lots x.order.quantity_lots

    fill_maker-Reports : Reports m filled (fill_at price x.order lots ∷ [])
    fill_maker-Reports =
        let front = h.levels.1.chain.0 in
        record {
          trades =
              Round.fill_maker-trades k taker m 0 x.index x.order (head_of ms) front price
                h.levels.1.price;
          ids = Round.fill_maker-trade_id k taker m 0 x.index x.order (head_of ms) front;
          other = λ rest v.
              other-Holds k taker m price x ms ls h filled.book rest
                (fill_maker-Frame k taker m price x ms ls h)
                (Round.fill_maker-other k taker m 0 x.index x.order (head_of ms) front) v;
        }

    remaining_filled : filled.remaining_lots ≡ m.remaining_lots -ℤ lots
    remaining_filled =
        Round.fill_maker-remaining k taker m 0 x.index x.order (head_of ms) h.levels.1.chain.0

    -- The maker has more than is wanted.
    partial-IsFilled :
        pos 0 <ℤ m.remaining_lots
        → m.remaining_lots <ℤ x.order.quantity_lots
        → IsFilled m filled price ls (fill_queue price m.remaining_lots (x ∷ ms))
    partial-IsFilled wanted more =
        let lots_lem : lots ≡ m.remaining_lots = ground arith in
        rw (fill_queue-partial price m.remaining_lots x ms wanted more) (record {
          reports =
              subst (λ (z : ℤ). Reports m filled (fill_at price x.order z ∷ [])) lots_lem
                fill_maker-Reports;
          remaining = remaining_filled ∙ (rw lots_lem (omega int_laws));
          holds = reduced-Holds k taker m price x ms ls h wanted more;
        })

    abbrev pub removed : Matching D
    removed = record filled { book = remove_node k side 0 x.index x.order.order_id filled.book }

    removed-Reports :
        x.order.quantity_lots ≤ℤ m.remaining_lots
        → Reports m removed (fill_at price x.order x.order.quantity_lots ∷ [])
    removed-Reports enough =
        let same = Removed.min_lots k taker m price x ms ls h enough in
        record {
          trades =
              subst
                (λ (z : ℤ).
                  filled.trades
                  ≡ m.trades ++ trades_of taker m.book.next_trade_id (fill_at price x.order z ∷ []))
                same fill_maker-Reports.trades;
          ids = Removed.after-trade_id k taker m price x ms ls h enough;
          other = λ rest v.
              other-Holds k taker m price x ms ls h removed.book rest
                (Removed.after-Frame k taker m price x ms ls h enough)
                (Removed.after-other k taker m price x ms ls h enough) v;
        }

    removed-remaining :
        x.order.quantity_lots ≤ℤ m.remaining_lots
        → removed.remaining_lots ≡ m.remaining_lots -ℤ x.order.quantity_lots
    removed-remaining enough =
        remaining_filled ∙ (rw (Removed.min_lots k taker m price x ms ls h enough))
