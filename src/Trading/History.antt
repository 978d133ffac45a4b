-- ===== src/Trading/History.antt =====
-- The cap on the history of backend/modules/trading/src/order_manager.cpp.
use axiotick.Common.{
  ℕ, ◌≤◌, ◌≡◌, ◌⊎◌, refl, sym, ◌∙◌, inl, inr, Bool, Bool-cases, Option-cases, true, false, not,
  ◌&&◌, ◌||◌, ltb, ◌==◌, none, some, List, [], ◌∷◌, length, Dict, find, remove, contains,
  find-remove, arith,
}
use axiotick.Trading.{OrderState, HistoryEntry, OrderManager, enforce_from, enforce_history_cap}

-- Whether an entry with the id and the time stands in the queue.
abbrev pub listed : ℕ → ℕ → List HistoryEntry → Bool
listed id updated_at_ns [] = false
listed id updated_at_ns (e ∷ queue) =
    e.order_id == id && e.updated_at_ns == updated_at_ns || listed id updated_at_ns queue

module _ {D : Type 0} where
  -- Every order of the history that is not active stands in the queue with the time of its entry.
  pub record IsQueued (active history : Dict (OrderState D)) (queue : List HistoryEntry)
      : Type 0 where
    pub entry :
        (id : ℕ) (s : OrderState D)
        → find id history ≡ some s
        → contains id active ≡ false
        → listed id s.updated_at_ns queue ≡ true

  -- The history holds no order that is not active.
  abbrev pub OnlyActive : Dict (OrderState D) → Dict (OrderState D) → Type 0
  OnlyActive active history = (id : ℕ) → contains id active ≡ false → find id history ≡ none

  enforce_from-active :
      (cap : ℕ) (active history : Dict (OrderState D)) (queue : List HistoryEntry) (id : ℕ)
      → contains id active ≡ true
      → find id (enforce_from cap active history queue).0 ≡ find id history
  unfolding enforce_from
  enforce_from-active cap active history [] id h = refl
  enforce_from-active cap active history (e ∷ queue) id h = ground (
    arith,
    enforce_from-active cap active history queue id h,
    enforce_from-active cap active (remove e.order_id history) queue id h,
    find-remove e.order_id id history,
  )

  enforce_from-within :
      (cap : ℕ) (active history : Dict (OrderState D)) (queue : List HistoryEntry)
      → ltb cap (length history) ≡ false
      → (enforce_from cap active history queue).0 ≡ history
  unfolding enforce_from
  enforce_from-within cap active history [] h = refl
  enforce_from-within cap active history (e ∷ queue) h = rw h refl

  -- Whether the round of the loop that takes an entry erases its order.
  abbrev erases : Dict (OrderState D) → Dict (OrderState D) → HistoryEntry → Bool
  erases active history e = elim (find e.order_id history) [
    | none ↦ false
    | some s ↦ s.updated_at_ns == e.updated_at_ns && not (contains e.order_id active)
  ]

  keep-IsQueued :
      (active history : Dict (OrderState D)) (e : HistoryEntry) (queue : List HistoryEntry)
      → IsQueued active history (e ∷ queue)
      → erases active history e ≡ false
      → IsQueued active history queue
  keep-IsQueued active history e queue q stays = record {
    entry = λ id s found inactive. elim (Bool-cases (e.order_id == id)) [
      | inl same ↦
          let number : e.order_id ≡ id = ground (arith, same) in
          let mine : find e.order_id history ≡ some s = rw number found in
          let idle : contains e.order_id active ≡ false = rw number inactive in
          let here : (s.updated_at_ns == e.updated_at_ns && not (contains e.order_id active))
              ≡ false =
            sym (rw (erases, mine) refl) ∙ stays in
          ground (arith, q.entry id s found inactive, here, idle)
      | inr other ↦ ground (arith, q.entry id s found inactive, other)
    ];
  }

  erase-IsQueued :
      (active history : Dict (OrderState D)) (e : HistoryEntry) (queue : List HistoryEntry)
      → IsQueued active history (e ∷ queue)
      → IsQueued active (remove e.order_id history) queue
  erase-IsQueued active history e queue q = record {
    entry = λ id s found inactive. elim (Bool-cases (e.order_id == id)) [
      | inl same ↦
          let gone : find id (remove e.order_id history) ≡ none =
            find-remove e.order_id id history ∙ rw same refl in
          absurd (cc)
      | inr other ↦
          let before : find id history ≡ some s =
            sym (find-remove e.order_id id history ∙ rw other refl) ∙ found in
          ground (arith, q.entry id s before inactive, other)
    ];
  }

  enforce_from-bound :
      (cap : ℕ) (active : Dict (OrderState D)) (queue : List HistoryEntry)
      (history : Dict (OrderState D))
      → IsQueued active history queue
      → let out = enforce_from cap active history queue in
        ((length out.0 ≤ cap) ⊎ OnlyActive active out.0) × IsQueued active out.0 out.1
  unfolding enforce_from
  enforce_from-bound cap active [] history q = (
    inr (λ id inactive. elim (Option-cases (find id history)) [
      | inl gone ↦ gone
      | inr (s, found) ↦ let never : false ≡ true = q.entry id s found inactive in absurd (cc)
    ]),
    q,
  )
  enforce_from-bound cap active (e ∷ queue) history q =
      elim (Bool-cases (ltb cap (length history))) [
        | inr within ↦ rw within (inl (ground (arith, within)), q)
        | inl over ↦ elim (Bool-cases (erases active history e)) [
          | inl gone ↦
              rw (over, gone)
                (enforce_from-bound cap active queue (remove e.order_id history)
                  (erase-IsQueued active history e queue q))
          | inr stays ↦
              rw (over, stays)
                (enforce_from-bound cap active queue history
                  (keep-IsQueued active history e queue q stays))
        ]
      ]

  -- Where every inactive order of the history is queued, enforcing the cap ends with no more orders in
  -- the history than the cap, or with none that is not active; the inactive orders that are left are
  -- queued. A history within the cap stays as it is, and so do the entries of active orders, the
  -- active orders and the cap.
  pub enforce_history_cap_bound :
      (m : OrderManager D)
      → IsQueued m.active_orders m.order_history m.history_order_queue
      → let after = enforce_history_cap m in
        ((length after.order_history ≤ m.history_cap)
          ⊎ OnlyActive m.active_orders after.order_history)
        × IsQueued m.active_orders after.order_history after.history_order_queue
        × (ltb m.history_cap (length m.order_history) ≡ false
            → after.order_history ≡ m.order_history)
        × ((id : ℕ)
            → contains id m.active_orders ≡ true
            → find id after.order_history ≡ find id m.order_history)
        × (after.active_orders ≡ m.active_orders)
        × (after.history_cap ≡ m.history_cap)
  unfolding enforce_history_cap
  enforce_history_cap_bound m queued =
      let (bound, kept) =
        enforce_from-bound m.history_cap m.active_orders m.history_order_queue m.order_history
          queued in
      (
        bound,
        kept,
        enforce_from-within m.history_cap m.active_orders m.order_history m.history_order_queue,
        λ id h.
            enforce_from-active m.history_cap m.active_orders m.order_history m.history_order_queue
              id h,
        refl,
        refl,
      )
