-- ===== src/Engine/OrderBook/Resting.antt =====
-- The operations of engine/order_book.cpp on resting orders: add, cancel, reduce, replace, look up.
pub mod Refused
pub mod Lookup
use axiotick.Common.{
  ℕ, ◌+◌, Bool, true, false, not, ◌&&◌, if◌then◌else◌, ◌==◌, Option, none, some, update, ℤ, pos,
  leb_ℤ, ◌+ℤ◌, ◌-ℤ◌,
}
use axiotick.Core.Float.{Float}
use axiotick.Core.Order.{Order}
use axiotick.Core.FixedPoint.{normalize_order_scalars, from_quantity_lots}
use axiotick.Core.Validator.{is_valid_order}
use axiotick.Engine.PoolAllocator.{PoolAllocator, try_emplace, in_use, at}
use axiotick.Engine.PriceLevels.{PriceLevelSet, find_level_index, find_or_create_level, erase_level}
use axiotick.Engine.OrderBook.{
  Capacity, OrderNode, OrderLocator, OrderBook, levels_for_side, set_levels, set_level, set_node,
  set_next, emplace, release_node, unlink_node, remove_node,
}

module _ {D : Type 0} ⦃f : Float D⦄ (k : Capacity) where
  -- What `add_order` undoes where the id is already in the map.
  undo_link : ℕ → ℕ → Order D → ℕ → OrderBook D → OrderBook D
  undo_link side i order n b =
      let set = levels_for_side side b in
      let (level, nodes) = unlink_node k (set.levels i) n b.order_nodes in
      let kept = set_level set i level in
      let (found, j) = find_level_index kept order.price_ticks side in
      let emptied = found && (kept.levels j).order_count == 0 in
      set_levels side (if emptied then erase_level kept j else kept)
        (record b { order_nodes = release_node k n nodes })

  -- Appends the node to the list of level `i` of `set` and enters its id.
  link_order :
      PriceLevelSet
      → ℕ
      → Order D
      → ℕ
      → PoolAllocator (OrderNode D)
      → OrderBook D
      → Bool × OrderBook D
  unfolding undo_link
  link_order set i order n nodes b =
      let level = set.levels i in
      let placed = set_node n (record { order = order; prev = level.tail; next = none }) nodes in
      let locator : OrderLocator = record {
        side = order.side;
        price_ticks = order.price_ticks;
        node_index = n;
      } in
      let (inserted, lookup) = emplace order.order_id locator b.order_lookup in
      let linked =
        set_levels order.side
          (set_level set i (record level {
            head = elim level.tail [ none ↦ some n | some _ ↦ level.head ];
            tail = some n;
            total_lots = level.total_lots +ℤ order.quantity_lots;
            order_count = level.order_count + 1;
          }))
          (record b { order_nodes = set_next level.tail (some n) placed; order_lookup = lookup }) in
      if inserted then (true, linked) else (false, undo_link order.side i order n linked)

  -- `add_order` behind its guards: a node, a level, and the links.
  unfoldable pub add_normalized : Order D → OrderBook D → Bool × OrderBook D
  unfolding link_order
  add_normalized order b =
      let fresh : OrderNode D = record { order = order; prev = none; next = none } in
      let (node, nodes) = try_emplace fresh b.order_nodes in
      let (level, set) =
        find_or_create_level k.price_levels (levels_for_side order.side b) order.price_ticks
          order.side in
      elim node [
        | none ↦ (false, b)
        | some n ↦ elim level [
          | none ↦ (false, record b { order_nodes = release_node k n nodes })
          | some i ↦ link_order set i order n nodes b
        ]
      ]

  unfoldable pub add_order : Order D → OrderBook D → Bool × OrderBook D
  unfolding add_normalized
  add_order order b =
      let normalized = normalize_order_scalars order in
      if not (is_valid_order normalized)
      then (false, b)
      else elim (b.order_lookup normalized.order_id) [
        | some _ ↦ (false, b)
        | none ↦ add_normalized normalized b
      ]

  unfoldable pub cancel_order : ℕ → OrderBook D → Bool × OrderBook D
  cancel_order id b = elim (b.order_lookup id) [
    | none ↦ (false, b)
    | some locator ↦
        let (found, i) =
          find_level_index (levels_for_side locator.side b) locator.price_ticks locator.side in
        if found
        then (true, remove_node k locator.side i locator.node_index id b)
        else (false, record b { order_lookup = update b.order_lookup id none })
  ]

  -- The part of `cancel_order_partial` behind the search, with the updated order.
  unfoldable pub reduce_order : OrderLocator → ℕ → ℕ → ℤ → OrderBook D → Order D × OrderBook D
  reduce_order locator i id reduce_lots b =
      let n = locator.node_index in
      let node = at b.order_nodes n in
      let set = levels_for_side locator.side b in
      let level = set.levels i in
      let left = node.order.quantity_lots -ℤ reduce_lots in
      let reduced = record (node.order) {
        quantity_lots = left;
        quantity = from_quantity_lots left;
      } in
      if leb_ℤ node.order.quantity_lots reduce_lots
      then (
        record (node.order) { quantity_lots = pos 0; quantity = f.nought },
        remove_node k locator.side i n id b,
      )
      else (
        reduced,
        set_levels locator.side
            (set_level set i (record level { total_lots = level.total_lots -ℤ reduce_lots }))
            (record b { order_nodes = set_node n (record node { order = reduced }) b.order_nodes }),
      )

  -- `none` is `false`; otherwise the order that `*out_updated` receives.
  unfoldable pub cancel_order_partial : ℕ → ℤ → OrderBook D → Option (Order D) × OrderBook D
  unfolding reduce_order
  cancel_order_partial id reduce_lots b =
      if leb_ℤ reduce_lots (pos 0) then (none, b) else elim (b.order_lookup id) [
        | none ↦ (none, b)
        | some locator ↦
            let (found, i) =
              find_level_index (levels_for_side locator.side b) locator.price_ticks locator.side in
            let (updated, after) = reduce_order locator i id reduce_lots b in
            if found then (some updated, after) else (none, b)
      ]

  unfoldable pub get_order : ℕ → OrderBook D → Option (Order D)
  get_order id b = elim (b.order_lookup id) [
    | none ↦ none
    | some locator ↦
        if in_use k.order_nodes b.order_nodes (some locator.node_index)
        then some (at b.order_nodes locator.node_index).order
        else none
  ]

  -- The end of `modify_order`: a replacement that is refused brings the old order back.
  abbrev restored : Order D → Bool × OrderBook D → Bool × OrderBook D
  restored current (true, b) = (true, b)
  restored current (false, b) = (false, (add_order current b).1)

  abbrev replaced : ℕ → Order D → Order D → Bool × OrderBook D → Bool × OrderBook D
  replaced id current replacement (false, b) = (false, b)
  replaced id current replacement (true, b) =
      restored current
        (add_order (normalize_order_scalars (record replacement { order_id = id })) b)

  unfoldable pub modify_order : ℕ → Order D → OrderBook D → Bool × OrderBook D
  modify_order id replacement b = elim (get_order id b) [
    | none ↦ (false, b)
    | some current ↦ replaced id current replacement (cancel_order id b)
  ]
