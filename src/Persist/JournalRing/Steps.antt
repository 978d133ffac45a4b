-- ===== src/Persist/JournalRing/Steps.antt =====
-- `try_push` and `try_pop` of backend/include/persist/journal_ring_buffer.hpp against the queue.
use axiotick.Common.{
  ℕ, zero, suc, ◌+◌, ◌%◌, ◌^◌, ◌≤◌, ◌<◌, ◌≡◌, ◌≢◌, refl, sym, ap, ◌∙◌, inl, inr, Bool-cases, true,
  false, ltb, ◌==◌, Option, some, List, [], ◌∷◌, ◌++◌, length, length-append, update, update_self,
  update_ne, positions_differ, bit_and_mask, arith,
}
use native.Mathlib.Decide.{dec_lt}
use native.Mathlib.Nat.{add-mod_right, one-le-pow, two-pow-succ}
use axiotick.Persist.JournalRing.{Cell, LockFreeRingBuffer, cell_index, try_push, try_pop}
use axiotick.Persist.JournalRing.Fifo.{
  HoldsQueue, AllHeld-update, AllHeld-append, first_held, enqueue, dequeue,
}

index_at : (k position : ℕ) → cell_index (2 ^ k) position ≡ position % 2 ^ k
index_at k position = bit_and_mask k position

more_than_one : (k : ℕ) → 1 ≤ k → 1 < 2 ^ k
more_than_one zero h = absurd (omega arith)
more_than_one (suc k) h = omega (arith, two-pow-succ k, one-le-pow k 2 (omega arith))

module _ {T : Type 0} (k : ℕ) (r : LockFreeRingBuffer T) (queue : List T)
    (q : HoldsQueue k r queue) where
  write_index : cell_index (2 ^ k) r.write_pos ≡ (r.read_pos + length queue) % 2 ^ k
  write_index = index_at k r.write_pos ∙ ap (λ (p : ℕ). p % 2 ^ k) q.written

  sequence_free :
      length queue < 2 ^ k → (r.cells (cell_index (2 ^ k) r.write_pos)).sequence ≡ r.write_pos
  sequence_free h =
      ap (λ (i : ℕ). (r.cells i).sequence) write_index
      ∙ (q.free (length queue) (omega arith) h ∙ sym q.written)

  sequence_full :
      length queue ≡ 2 ^ k → (r.cells (cell_index (2 ^ k) r.write_pos)).sequence ≡ r.read_pos + 1
  sequence_full h =
      let round : (r.read_pos + length queue) % 2 ^ k ≡ r.read_pos % 2 ^ k =
        ap (λ (n : ℕ). (r.read_pos + n) % 2 ^ k) h ∙ add-mod_right r.read_pos (2 ^ k) in
      ap (λ (i : ℕ). (r.cells i).sequence) (write_index ∙ round)
      ∙ first_held r.cells (2 ^ k) r.read_pos queue (omega (arith, one-le-pow k 2 (omega arith)))
          q.held

  abbrev pushed : T → LockFreeRingBuffer T
  pushed v = record r {
    write_pos = r.write_pos + 1;
    cells =
        update r.cells (cell_index (2 ^ k) r.write_pos)
          (record { sequence = r.write_pos + 1; value = some v });
  }

  after_push : (v : T) → length queue < 2 ^ k → HoldsQueue k (pushed v) (queue ++ v ∷ [])
  after_push v room =
      let n = 2 ^ k in
      let index = (r.read_pos + length queue) % n in
      let cell_at : ℕ → Cell T = λ p. record { sequence = p + 1; value = some v } in
      let c = cell_at r.write_pos in
      let same : c ≡ cell_at (r.read_pos + length queue) = ap cell_at q.written in
      let longer : length (queue ++ v ∷ []) ≡ length queue + 1 = length-append queue (v ∷ []) in
      rw write_index (record {
        bounded = omega (arith, longer);
        written = omega (arith, longer, q.written);
        held =
            AllHeld-append (update r.cells index c) n r.read_pos queue v
              (AllHeld-update r.cells n r.read_pos index c queue
                (λ j below e.
                  positions_differ n r.read_pos j (length queue) below (omega arith) (sym e))
                q.held)
              (update_self r.cells index c ∙ same, tt);
        free = λ j above below.
            let other : index ≢ (r.read_pos + j) % n =
              positions_differ n r.read_pos (length queue) j (omega (arith, longer))
                (omega arith) in
            ap (λ (x : Cell T). x.sequence) (update_ne r.cells index ((r.read_pos + j) % n) c other)
            ∙ q.free j (omega (arith, longer)) below;
      })

  pub try_push-HoldsQueue :
      (v : T)
      → 1 ≤ k
      → (r' : LockFreeRingBuffer T) × (try_push (2 ^ k) v r
          ≡ some ((enqueue (2 ^ k) v queue).0, r'))
        × HoldsQueue k r' (enqueue (2 ^ k) v queue).1
  unfolding try_push
  try_push-HoldsQueue v h = elim (Bool-cases (ltb (length queue) (2 ^ k))) [
    | inl room ↦
        let below : length queue < 2 ^ k = ground (arith, room) in
        let found : ((r.cells (cell_index (2 ^ k) r.write_pos)).sequence == r.write_pos) ≡ true =
          ground (arith, sequence_free below) in
        (pushed v, rw (found, room) refl, rw room (after_push v below))
    | inr filled ↦
        let whole : length queue ≡ 2 ^ k = ground (arith, filled, q.bounded) in
        let behind : (r.cells (cell_index (2 ^ k) r.write_pos)).sequence < r.write_pos =
          omega (arith, sequence_full whole, q.written, more_than_one k h) in
        let differs : ((r.cells (cell_index (2 ^ k) r.write_pos)).sequence == r.write_pos) ≡ false =
          ground (arith, behind) in
        let less : ltb (r.cells (cell_index (2 ^ k) r.write_pos)).sequence r.write_pos ≡ true =
          ground (arith, behind) in
        (r, rw (differs, less, filled) refl, rw filled q)
  ]

module _ {T : Type 0} (k : ℕ) (r : LockFreeRingBuffer T) where
  nothing_held : HoldsQueue k r [] → (r.cells (cell_index (2 ^ k) r.read_pos)).sequence ≡ r.read_pos
  nothing_held q =
      let start : r.read_pos ≡ r.read_pos + 0 = omega arith in
      ap (λ (i : ℕ). (r.cells i).sequence) (index_at k r.read_pos ∙ ap (λ (p : ℕ). p % 2 ^ k) start)
      ∙ (q.free 0 (omega arith) (one-le-pow k 2 (omega arith)) ∙ sym start)

  module _ (v : T) (vs : List T) (q : HoldsQueue k r (v ∷ vs)) where
    abbrev popped : LockFreeRingBuffer T
    popped = record r {
      read_pos = r.read_pos + 1;
      cells =
          update r.cells (cell_index (2 ^ k) r.read_pos)
            (record (r.cells (cell_index (2 ^ k) r.read_pos)) { sequence = r.read_pos + 2 ^ k });
    }

    oldest :
        r.cells (cell_index (2 ^ k) r.read_pos)
        ≡ record { sequence = r.read_pos + 1; value = some v }
    oldest = ap r.cells (index_at k r.read_pos) ∙ q.held.0

    next : (j : ℕ) → r.read_pos + 1 + j ≡ r.read_pos + suc j
    next j = omega arith

    whole_round : (j : ℕ) → suc j ≡ 2 ^ k → r.read_pos + 1 + j ≡ r.read_pos + 2 ^ k
    whole_round j e = omega (arith, e)

    ahead : (j : ℕ) → suc j < 2 ^ k → r.read_pos % 2 ^ k ≢ (r.read_pos + 1 + j) % 2 ^ k
    ahead j below e =
        let start : r.read_pos + 0 ≡ r.read_pos = omega arith in
        positions_differ (2 ^ k) r.read_pos 0 (suc j) (omega arith) (omega arith)
          (ap (λ (p : ℕ). p % 2 ^ k) start ∙ (e ∙ ap (λ (p : ℕ). p % 2 ^ k) (next j)))

    after_pop : HoldsQueue k popped vs
    after_pop =
        let n = 2 ^ k in
        let index = r.read_pos % n in
        let taken : Cell T = record (r.cells index) { sequence = r.read_pos + n } in
        let at_index : cell_index n r.read_pos ≡ index = index_at k r.read_pos in
        rw at_index (record {
          bounded = omega (arith, q.bounded);
          written = omega (arith, q.written);
          held =
              AllHeld-update r.cells n (r.read_pos + 1) index taken vs
                (λ j below. ahead j (omega (arith, q.bounded))) q.held.1;
          free = λ j above below. elim (dec_lt (suc j) n) [
            | yes inside ↦
                ap (λ (c : Cell T). c.sequence)
                  (update_ne r.cells index ((r.read_pos + 1 + j) % n) taken (ahead j inside))
                ∙ (ap (λ (p : ℕ). (r.cells (p % n)).sequence) (next j)
                    ∙ (q.free (suc j) (omega arith) inside ∙ sym (next j)))
            | no last ↦
                let round : (r.read_pos + 1 + j) % n ≡ index =
                  ap (λ (p : ℕ). p % n) (whole_round j (omega arith))
                  ∙ add-mod_right r.read_pos n in
                rw round (
                  ap (λ (c : Cell T). c.sequence) (update_self r.cells index taken)
                  ∙ sym (whole_round j (omega arith)))
          ];
        })

  pub try_pop-HoldsQueue :
      (queue : List T)
      → HoldsQueue k r queue
      → let (answer, value, left) = dequeue queue in
        (r' : LockFreeRingBuffer T) × (try_pop (2 ^ k) r ≡ some (answer, value, r'))
        × HoldsQueue k r' left
  unfolding try_pop
  try_pop-HoldsQueue [] q =
      let sequence = (r.cells (cell_index (2 ^ k) r.read_pos)).sequence in
      let differs : (sequence == r.read_pos + 1) ≡ false = ground (arith, nothing_held q) in
      let less : ltb sequence (r.read_pos + 1) ≡ true = ground (arith, nothing_held q) in
      (r, rw (differs, less) refl, q)
  try_pop-HoldsQueue (v ∷ vs) q =
      let sequence = (r.cells (cell_index (2 ^ k) r.read_pos)).sequence in
      let numbered : sequence ≡ r.read_pos + 1 = ap (λ (c : Cell T). c.sequence) (oldest v vs q) in
      let found : (sequence == r.read_pos + 1) ≡ true = ground (arith, numbered) in
      (
        popped v vs q,
        rw found (
            ap (λ (x : Option T). some (true, x, popped v vs q))
              (ap (λ (c : Cell T). c.value) (oldest v vs q))),
        after_pop v vs q,
      )
