-- ===== src/Persist/JournalRing/Fifo.antt =====
-- The queue that backend/include/persist/journal_ring_buffer.hpp promises.
use axiotick.Common.{
  ℕ, suc, ◌+◌, ◌%◌, ◌^◌, ◌≤◌, ◌<◌, ◌≡◌, ◌≢◌, subst, ap, ◌∙◌, Bool, true, false, if◌then◌else◌, ltb,
  Option, none, some, List, [], ◌∷◌, ◌++◌, length, update, update_ne, arith,
}
use axiotick.Persist.JournalRing.{Cell, LockFreeRingBuffer}

module _ {T : Type 0} where
  -- The values from `position` on stand in their cells.
  abbrev pub AllHeld : (ℕ → Cell T) → ℕ → ℕ → List T → Type 0
  AllHeld cells n position [] = Unit {0}
  AllHeld cells n position (v ∷ vs) =
      (cells (position % n) ≡ record { sequence = position + 1; value = some v })
      × AllHeld cells n (position + 1) vs

  -- The ring of 2 ^ k cells holds a queue of values, oldest first.
  pub record HoldsQueue (k : ℕ) (r : LockFreeRingBuffer T) (queue : List T) : Type 0 where
    pub bounded : length queue ≤ 2 ^ k
    pub written : r.write_pos ≡ r.read_pos + length queue
    pub held : AllHeld r.cells (2 ^ k) r.read_pos queue
    pub free :
        (j : ℕ)
        → length queue ≤ j
        → j < 2 ^ k
        → (r.cells ((r.read_pos + j) % 2 ^ k)).sequence ≡ r.read_pos + j

  pub AllHeld-update :
      (cells : ℕ → Cell T) (n position index : ℕ) (c : Cell T) (vs : List T)
      → ((j : ℕ) → j < length vs → index ≢ (position + j) % n)
      → AllHeld cells n position vs
      → AllHeld (update cells index c) n position vs
  AllHeld-update cells n position index c [] apart all = tt
  AllHeld-update cells n position index c (v ∷ vs) apart (here, all) =
      let start : position ≡ position + 0 = omega arith in
      let other : index ≢ position % n =
        λ e. apart 0 (omega arith) (e ∙ ap (λ (p : ℕ). p % n) start) in
      (
        update_ne cells index (position % n) c other ∙ here,
        AllHeld-update cells n (position + 1) index c vs
            (λ j below e.
              let there : position + 1 + j ≡ position + suc j = omega arith in
              apart (suc j) (omega arith) (e ∙ ap (λ (p : ℕ). p % n) there))
            all,
      )

  pub AllHeld-append :
      (cells : ℕ → Cell T) (n position : ℕ) (vs : List T) (v : T)
      → AllHeld cells n position vs
      → AllHeld cells n (position + length vs) (v ∷ [])
      → AllHeld cells n position (vs ++ v ∷ [])
  AllHeld-append cells n position [] v all last =
      let start : position + 0 ≡ position = omega arith in
      subst (λ (p : ℕ). AllHeld cells n p (v ∷ [])) start last
  AllHeld-append cells n position (x ∷ vs) v (here, all) last =
      let there : position + suc (length vs) ≡ position + 1 + length vs = omega arith in
      (
        here,
        AllHeld-append cells n (position + 1) vs v all
            (subst (λ (p : ℕ). AllHeld cells n p (v ∷ [])) there last),
      )

  pub first_held :
      (cells : ℕ → Cell T) (n position : ℕ) (vs : List T)
      → 0 < length vs
      → AllHeld cells n position vs
      → (cells (position % n)).sequence ≡ position + 1
  first_held cells n position [] h all = absurd (omega arith)
  first_held cells n position (v ∷ vs) h all = ap (λ (c : Cell T). c.sequence) all.0

  -- A bounded queue: what the ring is to do.
  abbrev pub enqueue : ℕ → T → List T → Bool × List T
  enqueue n v queue = if ltb (length queue) n then (true, queue ++ v ∷ []) else (false, queue)

  abbrev pub dequeue : List T → Bool × Option T × List T
  dequeue [] = (false, none, [])
  dequeue (v ∷ vs) = (true, some v, vs)
