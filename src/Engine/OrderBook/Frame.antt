-- ===== src/Engine/OrderBook/Frame.antt =====
-- A change to one level of a book of engine/order_book.cpp leaves every other level as it was: the
-- nodes and locators of a level are told by the side and the price that they hold.
use axiotick.Common.{
  ℕ, ◌+◌, ◌≤◌, ◌<◌, ◌≡◌, ◌≢◌, ◌⊎◌, inl, inr, true, Option, some, List, [], ◌∷◌, ℤ, arith, sym,
  subst, ◌∙◌, refl,
}
use axiotick.Engine.PriceLevels.{PriceLevel, PriceLevelSet}
use axiotick.Engine.PriceLevels.Sorted.{better}
use axiotick.Engine.OrderBook.{Capacity, OrderLocator, OrderBook}
use axiotick.Engine.OrderBook.PriceTime.{Resting, Level}
use axiotick.Engine.OrderBook.Represents.{Chain, AllMakers, IsLevel, AllLevels, AllBehind}

abbrev pub Apart : ℕ → ℤ → ℕ → ℤ → Type 0
Apart side price side' price' = (side ≢ side') ⊎ (price ≢ price')

module _ {D : Type 0} where
  -- Only nodes and locators of the level at a price of a side have changed.
  pub record Frame (b b' : OrderBook D) (side : ℕ) (price : ℤ) : Type 0 where
    pub slots :
        (n : ℕ)
        → let o = (b.order_nodes.slots n).order in
          Apart side price o.side o.price_ticks → b'.order_nodes.slots n ≡ b.order_nodes.slots n
    pub used :
        (n : ℕ)
        → let o = (b.order_nodes.slots n).order in
          Apart side price o.side o.price_ticks → b'.order_nodes.used n ≡ b.order_nodes.used n
    pub lookup :
        (id : ℕ) (locator : OrderLocator)
        → b.order_lookup id ≡ some locator
        → Apart side price locator.side locator.price_ticks
        → b'.order_lookup id ≡ some locator

  abbrev pub AllApart : ℕ → ℤ → ℕ → List (Level D) → Type 0
  AllApart side price side' [] = Unit {0}
  AllApart side price side' (l ∷ ls) = Apart side price side' l.price × AllApart side price side' ls

  pub AllBehind-AllApart :
      (side : ℕ) (price : ℤ) (ls : List (Level D))
      → AllBehind side price ls
      → AllApart side price side ls
  AllBehind-AllApart side price [] h = tt
  AllBehind-AllApart side price (l ∷ ls) h =
      (inr (λ e. behind l.price h.0 e), AllBehind-AllApart side price ls h.1)
    where
      behind : (q : ℤ) → better side price q ≡ true → price ≢ q
      behind q h e = ground arith

  pub side-AllApart :
      (side side' : ℕ) (price : ℤ) (ls : List (Level D))
      → side ≢ side'
      → AllApart side price side' ls
  side-AllApart side side' price [] h = tt
  side-AllApart side side' price (l ∷ ls) h = (inl h, side-AllApart side side' price ls h)

  module _ (k : Capacity) (b b' : OrderBook D) (side : ℕ) (price : ℤ)
      (fr : Frame b b' side price) where
    Chain-Frame :
        (side' : ℕ) (price' : ℤ) (prev : Option ℕ) (ms : List (Resting D))
        → Apart side price side' price'
        → AllMakers k b side' price' ms
        → Chain b.order_nodes.slots prev ms
        → Chain b'.order_nodes.slots prev ms
    Chain-Frame side' price' prev [] a v c = tt
    Chain-Frame side' price' prev (m ∷ ms) a (v, vs) (c, cs) =
        (ground (arith, fr.slots m.index), Chain-Frame side' price' (some m.index) ms a vs cs)

    AllMakers-Frame :
        (side' : ℕ) (price' : ℤ) (prev : Option ℕ) (ms : List (Resting D))
        → Apart side price side' price'
        → Chain b.order_nodes.slots prev ms
        → AllMakers k b side' price' ms
        → AllMakers k b' side' price' ms
    AllMakers-Frame side' price' prev [] a c v = tt
    AllMakers-Frame side' price' prev (m ∷ ms) a (c, cs) (v, vs) = (
      record {
        below = v.below;
        used = ground (arith, fr.used m.index);
        on_side = v.on_side;
        at_price = v.at_price;
        lots_pos = v.lots_pos;
        located = fr.lookup m.order.order_id _ v.located a;
      },
      AllMakers-Frame side' price' (some m.index) ms a cs vs,
    )

    IsLevel-Frame :
        (side' : ℕ) (level : PriceLevel) (l : Level D)
        → Apart side price side' l.price
        → IsLevel k b side' level l
        → IsLevel k b' side' level l
    IsLevel-Frame side' level l a v = record {
      price = v.price;
      head = v.head;
      tail = v.tail;
      total = v.total;
      count = v.count;
      occupied = v.occupied;
      distinct = v.distinct;
      chain = Chain-Frame side' l.price _ l.queue a v.makers v.chain;
      makers = AllMakers-Frame side' l.price _ l.queue a v.chain v.makers;
    }

    -- The levels from `j` on in one array are those from `i` on in another, `d` places before.
    pub AllLevels-Frame :
        (side' : ℕ) (set set' : PriceLevelSet) (d i j : ℕ) (ls : List (Level D))
        → ((x : ℕ) → i ≤ x → x < set'.size → set'.levels x ≡ set.levels (x + d))
        → set'.size + d ≡ set.size
        → j ≡ i + d
        → AllApart side price side' ls
        → AllLevels k b side' set j ls
        → AllLevels k b' side' set' i ls
    AllLevels-Frame side' set set' d i j [] same size e a v = omega arith
    AllLevels-Frame side' set set' d i j (l ∷ ls) same size e (a, rest) (h, v, vs) =
        let below : i < set'.size = omega arith in
        let at_i : set'.levels i ≡ set.levels j = same i (omega arith) below ∙ (rw e refl) in
        (
          below,
          subst (λ (x : PriceLevel). IsLevel k b' side' x l) (sym at_i)
              (IsLevel-Frame side' (set.levels j) l a v),
          AllLevels-Frame side' set set' d (i + 1) (j + 1) ls (λ x p q. same x (omega arith) q) size
              (omega arith) rest vs,
        )
