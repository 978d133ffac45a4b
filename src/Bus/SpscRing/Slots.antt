-- ===== src/Bus/SpscRing/Slots.antt =====
-- The slots of backend/include/bus/spsc_ring_buffer.hpp that hold a list of messages.
use axiotick.Common.{
  ℕ, zero, suc, ◌+◌, ◌%◌, ◌^◌, ◌≤◌, ◌<◌, ◌≡◌, ◌≢◌, refl, subst, ap, ◌∙◌, true, false, List, [], ◌∷◌,
  ◌++◌, length, take, update, update_ne, arith,
}
use axiotick.Bus.SpscRing.{Slot, SpscRingBuffer}

-- The messages from `position` on stand in their slots, which are ready.
abbrev pub AllReady : (ℕ → Slot) → ℕ → ℕ → ℕ → List (List ℕ) → Type 0
AllReady slots message_size n position [] = Unit {0}
AllReady slots message_size n position (m ∷ ms) =
    ((slots (position % n)).ready ≡ true)
    × (take (slots (position % n)).size (slots (position % n)).bytes ≡ m)
    × ((slots (position % n)).size ≡ length m)
    × (length m ≤ message_size)
    × AllReady slots message_size n (position + 1) ms

-- The ring holds a queue of messages, oldest first.
pub record Queues (k message_size : ℕ) (r : SpscRingBuffer) (queue : List (List ℕ)) : Type 0 where
  pub sized : r.logical_capacity ≡ 2 ^ k
  pub bounded : length queue ≤ 2 ^ k
  pub written : r.write_pos ≡ r.read_pos + length queue
  pub held : AllReady r.slots message_size (2 ^ k) r.read_pos queue
  pub free :
      (j : ℕ) → length queue ≤ j → j < 2 ^ k → (r.slots ((r.read_pos + j) % 2 ^ k)).ready ≡ false

pub AllReady-update :
    (slots : ℕ → Slot) (message_size n position index : ℕ) (s : Slot) (ms : List (List ℕ))
    → ((j : ℕ) → j < length ms → index ≢ (position + j) % n)
    → AllReady slots message_size n position ms
    → AllReady (update slots index s) message_size n position ms
AllReady-update slots message_size n position index s [] apart all = tt
AllReady-update slots message_size n position index s (m ∷ ms) apart
      (ready, bytes, size, fits, all) =
    let here : position ≡ position + 0 = omega arith in
    let other : index ≢ position % n =
      λ e. apart 0 (omega arith) (e ∙ ap (λ (p : ℕ). p % n) here) in
    let same = update_ne slots index (position % n) s other in
    rw same (
      ready,
      bytes,
      size,
      fits,
      AllReady-update slots message_size n (position + 1) index s ms
          (λ j below e.
            let there : position + 1 + j ≡ position + suc j = omega arith in
            apart (suc j) (omega arith) (e ∙ ap (λ (p : ℕ). p % n) there))
          all,
    )

pub AllReady-append :
    (slots : ℕ → Slot) (message_size n position : ℕ) (ms : List (List ℕ)) (m : List ℕ)
    → AllReady slots message_size n position ms
    → AllReady slots message_size n (position + length ms) (m ∷ [])
    → AllReady slots message_size n position (ms ++ m ∷ [])
AllReady-append slots message_size n position [] m all last =
    let here : position + 0 ≡ position = omega arith in
    subst (λ (p : ℕ). AllReady slots message_size n p (m ∷ [])) here last
AllReady-append slots message_size n position (x ∷ ms) m (ready, bytes, size, fits, all) last =
    let there : position + suc (length ms) ≡ position + 1 + length ms = omega arith in
    (
      ready,
      bytes,
      size,
      fits,
      AllReady-append slots message_size n (position + 1) ms m all
          (subst (λ (p : ℕ). AllReady slots message_size n p (m ∷ [])) there last),
    )

pub take_part :
    (size : ℕ) (source rest : List ℕ) → length source ≡ size → take size (source ++ rest) ≡ source
take_part zero [] rest e = refl
take_part zero (x ∷ source) rest e = absurd (omega (arith, e))
take_part (suc size) [] rest e = absurd (omega (arith, e))
take_part (suc size) (x ∷ source) rest e =
    ap (λ (xs : List ℕ). x ∷ xs) (take_part size source rest (omega (arith, e)))

pub take_whole : (size : ℕ) (source : List ℕ) → length source ≡ size → take size source ≡ source
take_whole zero [] e = refl
take_whole zero (x ∷ source) e = absurd (omega (arith, e))
take_whole (suc size) [] e = absurd (omega (arith, e))
take_whole (suc size) (x ∷ source) e =
    ap (λ (xs : List ℕ). x ∷ xs) (take_whole size source (omega (arith, e)))

pub first_ready :
    (slots : ℕ → Slot) (message_size n position : ℕ) (ms : List (List ℕ))
    → 0 < length ms
    → AllReady slots message_size n position ms
    → (slots (position % n)).ready ≡ true
first_ready slots message_size n position [] h all = absurd (omega arith)
first_ready slots message_size n position (m ∷ ms) h all = all.0
