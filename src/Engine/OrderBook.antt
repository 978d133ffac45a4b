-- ===== src/Engine/OrderBook.antt =====
-- `OrderBook` of backend/include/engine/order_book.hpp and its operations on resting orders in
-- backend/modules/engine/src/order_book.cpp. The symbol, which no operation reads, is left out; the
-- hash map from ids to locators is a function. `side` is the byte that the code casts to `Side`.
pub mod Resting
pub mod Matching
pub mod Prices
pub mod PriceTime
pub mod Represents
pub mod Frame
pub mod Round
pub mod Refines
pub mod Fills
pub mod Executable
pub mod Positive
pub mod Promise
pub mod Examples
use axiotick.Common.{
  ℕ, ◌+◌, ◌-◌, Bool, true, false, not, ◌&&◌, ◌||◌, if◌then◌else◌, ◌==◌, Option, none, some, update,
  ℤ, pos, leb_ℤ, ◌+ℤ◌, ◌-ℤ◌, [],
}
use axiotick.Core.Float.{Float}
use axiotick.Core.Order.{Order, side_buy}
use axiotick.Engine.PoolAllocator.{PoolAllocator, try_emplace, deallocate, in_use, at, reset}
use axiotick.Engine.PriceLevels.{
  PriceLevel, PriceLevelSet, empty_level, erase_level, max_price_levels,
}

abbrev pub order_node_pool_size : ℕ
order_node_pool_size = 131_072

-- The two sizes that the class fixes, so that the operations can run on small ones.
pub record Capacity : Type 0 where
  pub price_levels : ℕ
  pub order_nodes : ℕ

abbrev pub capacity : Capacity
capacity = record { price_levels = max_price_levels; order_nodes = order_node_pool_size }

pub record OrderNode (D : Type 0) : Type 0 where
  pub order : Order D
  pub prev : Option ℕ
  pub next : Option ℕ

pub record OrderLocator : Type 0 where
  pub side : ℕ
  pub price_ticks : ℤ
  pub node_index : ℕ

pub record OrderBook (D : Type 0) : Type 0 where
  pub bids : PriceLevelSet
  pub asks : PriceLevelSet
  pub order_nodes : PoolAllocator (OrderNode D)
  pub order_lookup : ℕ → Option OrderLocator
  pub next_trade_id : ℕ

abbrev pub set_level : PriceLevelSet → ℕ → PriceLevel → PriceLevelSet
set_level set i level = record set { levels = update set.levels i level }

-- `unordered_map::emplace`, and whether it inserted.
abbrev pub emplace : ℕ → OrderLocator → (ℕ → Option OrderLocator) → Bool × (ℕ → Option OrderLocator)
emplace id locator lookup = elim (lookup id) [
  | none ↦ (true, update lookup id (some locator))
  | some _ ↦ (false, lookup)
]

module _ {D : Type 0} where
  abbrev pub levels_for_side : ℕ → OrderBook D → PriceLevelSet
  levels_for_side side b = if side == side_buy then b.bids else b.asks

  -- What assignments through the reference that `levels_for_side` returns do to the book.
  abbrev pub set_levels : ℕ → PriceLevelSet → OrderBook D → OrderBook D
  set_levels side set b =
      if side == side_buy then record b { bids = set } else record b { asks = set }

  abbrev pub set_node : ℕ → OrderNode D → PoolAllocator (OrderNode D) → PoolAllocator (OrderNode D)
  set_node n node pool = record pool { slots = update pool.slots n node }

  -- Assignments to the links of the node at an index, if there is one.
  abbrev pub set_next :
      Option ℕ → Option ℕ → PoolAllocator (OrderNode D) → PoolAllocator (OrderNode D)
  set_next none next pool = pool
  set_next (some n) next pool = set_node n (record (at pool n) { next = next }) pool

  abbrev pub set_prev :
      Option ℕ → Option ℕ → PoolAllocator (OrderNode D) → PoolAllocator (OrderNode D)
  set_prev none prev pool = pool
  set_prev (some n) prev pool = set_node n (record (at pool n) { prev = prev }) pool

module _ {D : Type 0} ⦃f : Float D⦄ where
  -- `Order{}` and `OrderNode{}`.
  abbrev pub blank_order : Order D
  blank_order = record {
    order_id = 0;
    client_id = 0;
    timestamp_ns = 0;
    price = f.nought;
    quantity = f.nought;
    price_ticks = pos 0;
    quantity_lots = pos 0;
    symbol = [];
    side = 0;
    type = 0;
    tif = 0;
  }

  abbrev pub blank_node : OrderNode D
  blank_node = record { order = blank_order; prev = none; next = none }

  -- The constructor.
  unfoldable pub new_book : Capacity → OrderBook D
  new_book k = record {
    bids = record { levels = λ _. empty_level (pos 0); size = 0 };
    asks = record { levels = λ _. empty_level (pos 0); size = 0 };
    order_nodes = reset k.order_nodes blank_node;
    order_lookup = λ _. none;
    next_trade_id = 1;
  }

  unfoldable pub release_node :
      Capacity → ℕ → PoolAllocator (OrderNode D) → PoolAllocator (OrderNode D)
  release_node k n pool = deallocate k.order_nodes blank_node (some n) pool

  -- Takes a node out of the list of its level. The count stops at 0.
  unfoldable pub unlink_node :
      Capacity
      → PriceLevel
      → ℕ
      → PoolAllocator (OrderNode D)
      → PriceLevel × PoolAllocator (OrderNode D)
  unlink_node k level n pool =
      let node = at pool n in
      if not (in_use k.order_nodes pool (some n)) then (level, pool) else (
        record level {
          head = elim node.prev [ none ↦ node.next | some _ ↦ level.head ];
          tail = elim node.next [ none ↦ node.prev | some _ ↦ level.tail ];
          total_lots = level.total_lots -ℤ node.order.quantity_lots;
          order_count = level.order_count - 1;
        },
        set_prev node.next node.prev (set_next node.prev node.next pool),
      )

  -- The steps that `cancel_order`, `cancel_order_partial` and `match_order` share: unlink the node
  -- from the level, release it, forget the id, and erase the level if it is empty.
  unfoldable pub remove_node : Capacity → ℕ → ℕ → ℕ → ℕ → OrderBook D → OrderBook D
  unfolding unlink_node release_node
  remove_node k side i n id b =
      let set = levels_for_side side b in
      let (level, nodes) = unlink_node k (set.levels i) n b.order_nodes in
      let kept = set_level set i level in
      set_levels side (if level.order_count == 0 then erase_level kept i else kept) (record b {
        order_nodes = release_node k n nodes;
        order_lookup = update b.order_lookup id none;
      })
