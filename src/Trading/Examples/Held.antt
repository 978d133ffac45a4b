-- ===== src/Trading/Examples/Held.antt =====
-- The theorems on the manager's active orders and its history, applied to a manager with one order.
use axiotick.Common.{
  ℕ, ◌≤◌, ◌≡◌, ◌⊎◌, inl, refl, true, false, none, some, [], ◌∷◌, length, ℤ, pos, find, put, ◌-ℤ◌,
  ◌+ℤ◌, contains, ltb, arith,
}
use axiotick.Core.Float.Whole.{whole_float}
use axiotick.Core.Order.{side_sell}
use axiotick.Core.FixedPoint.{normalize_order_scalars}
use axiotick.Core.Validator.{is_valid_order}
use axiotick.Engine.PoolAllocator.{try_emplace, reset, at, in_use, deallocate}
use axiotick.Engine.PriceLevels.{find_or_create_level, find_level_index, erase_level}
use axiotick.Engine.OrderBook.{new_book, unlink_node, remove_node}
use axiotick.Engine.OrderBook.Resting.{add_order, get_order}
use axiotick.Trading.{enforce_history_cap}
use axiotick.Engine.OrderBook.Examples.{small, limit_order}
use axiotick.Risk.Reservations.{on_cancel}
use axiotick.Trading.{OrderManager, OrderState, resting, not_rejected}
use axiotick.Engine.OrderBook.Resting as Book
use axiotick.Trading.{set_history_cap}
use axiotick.Trading.Changes.{cancel_order, modify_order}
use axiotick.Trading.History.{IsQueued, OnlyActive, enforce_history_cap_bound}
use axiotick.Trading.Errors.{modify_order_refused, cancel_order_gone}
use axiotick.Trading.Live.{AllLive, put-AllLive}
use axiotick.Trading.Live.Steps.{here, later, caps, cancels, Reach-AllLive}
use axiotick.Trading.Examples.{clocks, desk}

-- A state of the older ask, which the manager then has as active.
abbrev ask_state : OrderState ℤ
ask_state = record {
  order = limit_order 1 side_sell 40 5;
  initial_lots = pos 5;
  remaining_lots = pos 5;
  filled_lots = pos 0;
  status = resting;
  reject_reason = not_rejected;
  updated_at_ns = 90;
  related_signal_id = 0;
  origin_tick_id = 0;
}

abbrev held : OrderManager ℤ
held = record desk { active_orders = (1, ask_state) ∷ [] }

-- Orders 5 and 6 are done; the cap is one, and the active order has an entry as well.
abbrev crowded : OrderManager ℤ
crowded = record held {
  history_cap = 1;
  order_history = (5, ask_state) ∷ (1, ask_state) ∷ (6, ask_state) ∷ [];
  history_order_queue =
      record { order_id = 5; updated_at_ns = 0 }
      ∷ record { order_id = 1; updated_at_ns = ask_state.updated_at_ns }
      ∷ record { order_id = 5; updated_at_ns = ask_state.updated_at_ns }
      ∷ record { order_id = 6; updated_at_ns = ask_state.updated_at_ns }
      ∷ [];
}

crowded-IsQueued : IsQueued crowded.active_orders crowded.order_history crowded.history_order_queue
unfolding find
crowded-IsQueued = record { entry = λ id s found inactive. ground arith }

enforce_history_cap_bound_example :
    let after = enforce_history_cap crowded in
    ((length after.order_history ≤ 1) ⊎ OnlyActive crowded.active_orders after.order_history)
    × IsQueued crowded.active_orders after.order_history after.history_order_queue
    × (ltb 1 (length crowded.order_history) ≡ false → after.order_history ≡ crowded.order_history)
    × ((id : ℕ)
        → contains id crowded.active_orders ≡ true
        → find id after.order_history ≡ find id crowded.order_history)
    × (after.active_orders ≡ crowded.active_orders)
    × (after.history_cap ≡ crowded.history_cap)
enforce_history_cap_bound_example = enforce_history_cap_bound crowded crowded-IsQueued

unknown-refused : (modify_order small clocks 9 (pos 41) (pos 3) held).0 ≡ false
unfolding modify_order find
unknown-refused = refl

modify_order_refused_example :
    let m' = (modify_order small clocks 9 (pos 41) (pos 3) held).1 in
    (m'.active_orders ≡ held.active_orders)
    × (m'.order_history ≡ held.order_history)
    × (m'.journal ≡ held.journal)
modify_order_refused_example =
    modify_order_refused small clocks 9 (pos 41) (pos 3) held unknown-refused

ask-found : find 1 held.active_orders ≡ some ask_state
unfolding find
ask-found = refl

ask-canceled : (cancel_order small clocks 1 held).0 ≡ true
unfolding cancel_order Book.cancel_order find add_order new_book is_valid_order
    normalize_order_scalars try_emplace reset find_or_create_level find_level_index at ◌-ℤ◌ ◌+ℤ◌
    unlink_node remove_node in_use deallocate erase_level
ask-canceled = refl

cancel_order_gone_example :
    let m' = (cancel_order small clocks 1 held).1 in
    (find 1 m'.active_orders ≡ none)
    × (Book.get_order small 1 m'.order_book ≡ none)
    × (m'.risk_manager ≡ on_cancel ask_state.order held.risk_manager)
cancel_order_gone_example = cancel_order_gone small clocks 1 held ask_state ask-found ask-canceled

held-AllLive : AllLive held.active_orders
unfolding put find
held-AllLive =
    put-AllLive 1 ask_state []
      (record { rests = inl refl; lots_pos = omega arith; order_lots = refl; taken = refl })
      (λ id s e. absurd (ground arith))

-- The order is cancelled after the cap on the history is set.
Reach-AllLive_example :
    AllLive (cancel_order small clocks 1 (set_history_cap 2 held)).1.active_orders
Reach-AllLive_example =
    Reach-AllLive small clocks (later (later here (caps 2)) (cancels 1)) held-AllLive
