-- ===== src/Bus/SpscRing/Reads.antt =====
-- `try_consume` and `try_discard_oldest` of backend/include/bus/spsc_ring_buffer.hpp against the queue.
use axiotick.Common.{
  positions_differ, ℕ, suc, ◌+◌, ◌%◌, ◌^◌, ◌≤◌, ◌<◌, ◌≡◌, ◌≢◌, refl, ap, ◌∙◌, Bool, true, false,
  ◌&&◌, ltb, some, List, [], ◌∷◌, length, take, update_self, update_ne, arith,
}
use native.Mathlib.Decide.{dec_lt}
use native.Mathlib.Nat.{add-mod_right, one-le-pow}
use axiotick.Bus.SpscRing.{
  Slot, SpscRingBuffer, slot_index, release, try_consume, try_discard_oldest,
}
use axiotick.Bus.SpscRing.Slots.{Queues, AllReady-update}
use axiotick.Bus.SpscRing.Fifo.{front, dropped, rest, index_at}

module _ (k message_size : ℕ) (r : SpscRingBuffer) where
  nothing_ready : Queues k message_size r [] → (r.slots (slot_index r r.read_pos)).ready ≡ false
  nothing_ready q =
      let here : r.read_pos ≡ r.read_pos + 0 = omega arith in
      ap (λ (i : ℕ). (r.slots i).ready)
        (index_at k message_size r [] q r.read_pos ∙ ap (λ (p : ℕ). p % 2 ^ k) here)
      ∙ q.free 0 (omega arith) (one-le-pow k 2 (omega arith))

  module _ (m : List ℕ) (ms : List (List ℕ)) (q : Queues k message_size r (m ∷ ms)) where
    oldest :
        let slot = r.slots (slot_index r r.read_pos) in
        (slot.ready ≡ true)
        × (take slot.size slot.bytes ≡ m)
        × (slot.size ≡ length m)
        × (length m ≤ message_size)
    oldest =
        rw (index_at k message_size r (m ∷ ms) q r.read_pos)
          (q.held.0, q.held.1, q.held.2, q.held.3)

    next : (j : ℕ) → r.read_pos + 1 + j ≡ r.read_pos + suc j
    next j = omega arith

    whole_round : (j : ℕ) → suc j ≡ 2 ^ k → r.read_pos + 1 + j ≡ r.read_pos + 2 ^ k
    whole_round j e = omega (arith, e)

    ahead : (j : ℕ) → suc j < 2 ^ k → r.read_pos % 2 ^ k ≢ (r.read_pos + 1 + j) % 2 ^ k
    ahead j below e =
        let here : r.read_pos + 0 ≡ r.read_pos = omega arith in
        positions_differ (2 ^ k) r.read_pos 0 (suc j) (omega arith) (omega arith)
          (ap (λ (p : ℕ). p % 2 ^ k) here ∙ (e ∙ ap (λ (p : ℕ). p % 2 ^ k) (next j)))

    after_read :
        Queues k message_size
          (release (slot_index r r.read_pos) (record r { read_pos = r.read_pos + 1 }))
          ms
    after_read =
        let n = 2 ^ k in
        let index = r.read_pos % n in
        let taken = record (r.slots index) { ready = false } in
        let goes : (i : ℕ)
            → i ≡ index
            → Queues k message_size (release i (record r { read_pos = r.read_pos + 1 })) ms =
          λ i e. rw e (record {
            sized = q.sized;
            bounded = omega (arith, q.bounded);
            written = omega (arith, q.written);
            held =
                AllReady-update r.slots message_size n (r.read_pos + 1) index taken ms
                  (λ j below. ahead j (omega arith)) q.held.4;
            free = λ j above below. elim (dec_lt (suc j) n) [
              | yes inside ↦
                  ap (λ (x : Slot). x.ready)
                    (update_ne r.slots index ((r.read_pos + 1 + j) % n) taken (ahead j inside))
                  ∙ (ap (λ (p : ℕ). (r.slots (p % n)).ready) (next j)
                      ∙ q.free (suc j) (omega arith) inside)
              | no last ↦
                  let round : (r.read_pos + 1 + j) % n ≡ index =
                    ap (λ (p : ℕ). p % n) (whole_round j (omega arith))
                    ∙ add-mod_right r.read_pos n in
                  rw round (ap (λ (x : Slot). x.ready) (update_self r.slots index taken))
            ];
          }) in
        goes (slot_index r r.read_pos) (index_at k message_size r (m ∷ ms) q r.read_pos)

  pub try_consume-Queues :
      (wants : Bool) (room : ℕ) (queue : List (List ℕ))
      → Queues k message_size r queue
      → message_size ≤ room
      → let out = try_consume wants (some room) r in
        (out.0 ≡ front wants room queue) × Queues k message_size out.1 (rest queue)
  unfolding try_consume
  try_consume-Queues wants room [] q fits = rw (nothing_ready q) (refl, q)
  try_consume-Queues wants room (m ∷ ms) q fits =
      let (ready, bytes, size, within) = oldest m ms q in
      let slot = r.slots (slot_index r r.read_pos) in
      let roomy : (wants && ltb room slot.size) ≡ false = ground (arith, size, within, fits) in
      rw (ready, roomy) (rw (bytes, size) refl, after_read m ms q)

  pub try_discard_oldest-Queues :
      (reports : Bool) (queue : List (List ℕ))
      → Queues k message_size r queue
      → let out = try_discard_oldest reports r in
        (out.0 ≡ dropped reports queue) × Queues k message_size out.1 (rest queue)
  unfolding try_discard_oldest
  try_discard_oldest-Queues reports [] q = rw (nothing_ready q) (refl, q)
  try_discard_oldest-Queues reports (m ∷ ms) q =
      let (ready, bytes, size, within) = oldest m ms q in rw ready (rw size refl, after_read m ms q)
