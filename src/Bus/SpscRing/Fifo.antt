-- ===== src/Bus/SpscRing/Fifo.antt =====
-- The queue that backend/include/bus/spsc_ring_buffer.hpp promises, for callers whose buffers have room.
use axiotick.Common.{
  positions_differ, ℕ, ◌+◌, ◌-◌, ◌%◌, ◌^◌, ◌≤◌, ◌<◌, ◌≡◌, ◌≢◌, refl, sym, ap, ◌∙◌, inl, inr, Bool,
  Bool-cases, true, false, ◌||◌, if◌then◌else◌, ltb, ◌==◌, none, some, List, [], ◌∷◌, ◌++◌, length,
  take, update, update_self, update_ne, bit_and, bit_and_mask, length-append, arith,
}
use native.Mathlib.Nat.{add-mod_right, one-le-pow}
use axiotick.Bus.SpscRing.{Slot, SpscRingBuffer, slot_index, try_publish, Reading}
use axiotick.Bus.SpscRing.Slots.{
  Queues, AllReady-update, AllReady-append, first_ready, take_part, take_whole,
}

-- A bounded queue of messages: what the ring is to do.
abbrev pub publish : ℕ → ℕ → List ℕ → List (List ℕ) → Bool × List (List ℕ)
publish n message_size m queue =
    if length m == 0 || ltb message_size (length m)
    then (false, queue)
    else if ltb (length queue) n
    then (true, queue ++ m ∷ [])
    else (false, queue)

-- What a read of the queue answers, and what it leaves.
abbrev pub front : Bool → ℕ → List (List ℕ) → Reading
front wants room [] = record { answer = false; copied = []; out_size = some room }
front wants room (m ∷ ms) = record {
  answer = true;
  copied = if wants then m else [];
  out_size = some (length m);
}

abbrev pub dropped : Bool → List (List ℕ) → Reading
dropped reports [] = record { answer = false; copied = []; out_size = none }
dropped reports (m ∷ ms) = record {
  answer = true;
  copied = [];
  out_size = if reports then some (length m) else none;
}

abbrev pub rest : List (List ℕ) → List (List ℕ)
rest [] = []
rest (m ∷ ms) = ms

module _ (k message_size : ℕ) where
  module _ (r : SpscRingBuffer) (queue : List (List ℕ)) (q : Queues k message_size r queue) where
    pub index_at : (position : ℕ) → slot_index r position ≡ position % 2 ^ k
    index_at position = ap (λ (c : ℕ). bit_and position (c - 1)) q.sized ∙ bit_and_mask k position

    write_index : slot_index r r.write_pos ≡ (r.read_pos + length queue) % 2 ^ k
    write_index = index_at r.write_pos ∙ ap (λ (p : ℕ). p % 2 ^ k) q.written

    unwritten : length queue < 2 ^ k → (r.slots (slot_index r r.write_pos)).ready ≡ false
    unwritten h =
        ap (λ (i : ℕ). (r.slots i).ready) write_index ∙ q.free (length queue) (omega arith) h

    full : length queue ≡ 2 ^ k → (r.slots (slot_index r r.write_pos)).ready ≡ true
    full h =
        let round : (r.read_pos + length queue) % 2 ^ k ≡ r.read_pos % 2 ^ k =
          ap (λ (n : ℕ). (r.read_pos + n) % 2 ^ k) h ∙ add-mod_right r.read_pos (2 ^ k) in
        ap (λ (i : ℕ). (r.slots i).ready) (write_index ∙ round)
        ∙ first_ready r.slots message_size (2 ^ k) r.read_pos queue
            (omega (arith, one-le-pow k 2 (omega arith))) q.held

    after_publish :
        (s : Slot) (m : List ℕ)
        → length queue < 2 ^ k
        → (s.ready ≡ true)
          × (take s.size s.bytes ≡ m)
          × (s.size ≡ length m)
          × (length m ≤ message_size)
        → Queues k message_size
            (record r {
              slots = update r.slots (slot_index r r.write_pos) s;
              write_pos = r.write_pos + 1;
            })
            (queue ++ m ∷ [])
    after_publish s m room (ready, bytes, size, fits) =
        let n = 2 ^ k in
        let index = (r.read_pos + length queue) % n in
        let here : update r.slots index s index ≡ s = update_self r.slots index s in
        let longer : length (queue ++ m ∷ []) ≡ length queue + 1 = length-append queue (m ∷ []) in
        let put : (i : ℕ)
            → i ≡ index
            → Queues k message_size
                (record r { slots = update r.slots i s; write_pos = r.write_pos + 1 })
                (queue ++ m ∷ []) =
          λ i e. rw e (record {
            sized = q.sized;
            bounded = omega (arith, longer);
            written = omega (arith, longer, q.written);
            held =
                AllReady-append (update r.slots index s) message_size n r.read_pos queue m
                  (AllReady-update r.slots message_size n r.read_pos index s queue
                    (λ j below e.
                      positions_differ n r.read_pos j (length queue) below (omega arith) (sym e))
                    q.held)
                  (rw here (ready, bytes, size, fits, tt));
            free = λ j above below.
                let other : index ≢ (r.read_pos + j) % n =
                  positions_differ n r.read_pos (length queue) j (omega (arith, longer))
                    (omega arith) in
                ap (λ (x : Slot). x.ready) (update_ne r.slots index ((r.read_pos + j) % n) s other)
                ∙ q.free j (omega (arith, longer)) below;
          }) in
        put (slot_index r r.write_pos) write_index

    pub try_publish-Queues :
        (m : List ℕ)
        → let out = try_publish message_size (some m) (length m) r in
          (out.0 ≡ (publish (2 ^ k) message_size m queue).0)
          × Queues k message_size out.1 (publish (2 ^ k) message_size m queue).1
    unfolding try_publish
    try_publish-Queues m = elim (Bool-cases (length m == 0 || ltb message_size (length m))) [
      | inl bad ↦ rw bad (refl, q)
      | inr good ↦ elim (Bool-cases (ltb (length queue) (2 ^ k))) [
        | inr filled ↦ rw (good, filled, full (ground (arith, filled, q.bounded))) (refl, q)
        | inl room ↦
            rw (good, room, unwritten (ground (arith, room)))
              (
                refl,
                after_publish _ m (ground (arith, room)) (
                  refl,
                  take_part (length m) (take (length m) m) _
                        (ap length (take_whole (length m) m refl))
                      ∙ take_whole (length m) m refl,
                  refl,
                  ground (arith, good),
                ),
              )
      ]
    ]
