-- ===== src/Engine/OrderBook/Round/Agree.antt =====
-- A change to one node of engine/order_book.cpp leaves the rest of its queue as it was.
use axiotick.Common.{ℕ, ◌≡◌, ◌≢◌, Option, some, List, [], ◌∷◌, ℤ, arith, ◌∙◌}
use axiotick.Engine.OrderBook.{Capacity, OrderNode, OrderBook}
use axiotick.Engine.OrderBook.PriceTime.{Resting}
use axiotick.Engine.OrderBook.Represents.{Chain, AllMakers, Avoids}

module _ {D : Type 0} where
  -- The change may be to two nodes, neither of them in the queue.
  pub Chain-agree :
      (slots slots' : ℕ → OrderNode D) (n n' : ℕ) (prev : Option ℕ) (ms : List (Resting D))
      → ((j : ℕ) → j ≢ n → j ≢ n' → slots' j ≡ slots j)
      → Avoids n ms
      → Avoids n' ms
      → Chain slots prev ms
      → Chain slots' prev ms
  Chain-agree slots slots' n n' prev [] same a b c = tt
  Chain-agree slots slots' n n' prev (m ∷ ms) same (a, rest) (b, rest') (c, cs) =
      (same m.index a b ∙ c, Chain-agree slots slots' n n' (some m.index) ms same rest rest' cs)

  pub AllMakers-agree :
      (k : Capacity) (b b' : OrderBook D) (side : ℕ) (price : ℤ) (n id : ℕ) (ms : List (Resting D))
      → ((j : ℕ) → j ≢ n → b'.order_nodes.used j ≡ b.order_nodes.used j)
      → ((j : ℕ) → j ≢ id → b'.order_lookup j ≡ b.order_lookup j)
      → b.order_lookup id ≡ some (record { side = side; price_ticks = price; node_index = n })
      → Avoids n ms
      → AllMakers k b side price ms
      → AllMakers k b' side price ms
  AllMakers-agree k b b' side price n id [] used lookup here a v = tt
  AllMakers-agree k b b' side price n id (m ∷ ms) used lookup here (a, rest) (v, vs) = (
    record {
      below = v.below;
      used = used m.index a ∙ v.used;
      on_side = v.on_side;
      at_price = v.at_price;
      lots_pos = v.lots_pos;
      located = lookup m.order.order_id (λ e. ground (arith, v.located, a)) ∙ v.located;
    },
    AllMakers-agree k b b' side price n id ms used lookup here rest vs,
  )
