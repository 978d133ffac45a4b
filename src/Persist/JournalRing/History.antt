-- ===== src/Persist/JournalRing/History.antt =====
-- Histories of calls on the ring of backend/include/persist/journal_ring_buffer.hpp and on the queue.
use axiotick.Common.{
  ℕ, ◌+◌, ◌%◌, ◌^◌, ◌≤◌, ◌≡◌, refl, sym, ◌∙◌, ap, Bool, Option, none, some, List, [], ◌∷◌, arith,
}
use native.Mathlib.Nat.{mod-eq_of_lt}
use axiotick.Persist.JournalRing.{LockFreeRingBuffer, new_journal_ring, try_push, try_pop}
use axiotick.Persist.JournalRing.Fifo.{HoldsQueue, enqueue, dequeue}
use axiotick.Persist.JournalRing.Steps.{try_push-HoldsQueue, try_pop-HoldsQueue}

pub data Request (T : Type 0) : Type 0 where
  pushes : T → Request T
  pops : Request T

-- What a call answers: whether it succeeded, and the value that it took out.
abbrev pub Response : Type 0 → Type 0
Response T = Bool × Option T

module _ {T : Type 0} where
  abbrev pub call_ring :
      ℕ → Request T → LockFreeRingBuffer T → Option (Response T × LockFreeRingBuffer T)
  call_ring n (pushes v) r = elim (try_push n v r) [
    | none ↦ none
    | some (b, r') ↦ some ((b, none), r')
  ]
  call_ring n pops r = elim (try_pop n r) [ none ↦ none | some (b, v, r') ↦ some ((b, v), r') ]

  abbrev pub call_queue : ℕ → Request T → List T → Response T × List T
  call_queue n (pushes v) queue = let (b, queue') = enqueue n v queue in ((b, none), queue')
  call_queue n pops queue = let (b, v, queue') = dequeue queue in ((b, v), queue')

  abbrev pub and_then : Response T → Option (List (Response T)) → Option (List (Response T))
  and_then a none = none
  and_then a (some rest) = some (a ∷ rest)

  -- The answers, or `none` if a call does not return.
  abbrev pub serve_ring : ℕ → List (Request T) → LockFreeRingBuffer T → Option (List (Response T))
  serve_ring n [] r = some []
  serve_ring n (c ∷ cs) r = elim (call_ring n c r) [
    | none ↦ none
    | some (a, r') ↦ and_then a (serve_ring n cs r')
  ]

  abbrev pub serve_queue : ℕ → List (Request T) → List T → List (Response T)
  serve_queue n [] queue = []
  serve_queue n (c ∷ cs) queue =
      let (a, queue') = call_queue n c queue in a ∷ serve_queue n cs queue'

  serve_ring-step :
      (n : ℕ) (c : Request T) (cs : List (Request T)) (r r' : LockFreeRingBuffer T) (a : Response T)
      (rest : List (Response T))
      → call_ring n c r ≡ some (a, r')
      → serve_ring n cs r' ≡ some rest
      → serve_ring n (c ∷ cs) r ≡ some (a ∷ rest)
  serve_ring-step n c cs r r' a rest runs later =
      let goes : Option (Response T × LockFreeRingBuffer T) → Option (List (Response T)) =
        λ o. elim o [ none ↦ none | some (a, r') ↦ and_then a (serve_ring n cs r') ] in
      ap goes runs ∙ ap (and_then a) later

  serve_ring-HoldsQueue :
      (k : ℕ) (calls : List (Request T)) (r : LockFreeRingBuffer T) (queue : List T)
      → 1 ≤ k
      → HoldsQueue k r queue
      → serve_ring (2 ^ k) calls r ≡ some (serve_queue (2 ^ k) calls queue)
  serve_ring-HoldsQueue k [] r queue h q = refl
  serve_ring-HoldsQueue k (pushes v ∷ cs) r queue h q =
      let (r', runs, q') = try_push-HoldsQueue k r queue q v h in
      let (b, queue') = enqueue (2 ^ k) v queue in
      let answers : Option (Bool × LockFreeRingBuffer T)
          → Option (Response T × LockFreeRingBuffer T) =
        λ o. elim o [ none ↦ none | some (b, r') ↦ some ((b, none), r') ] in
      serve_ring-step (2 ^ k) (pushes v) cs r r' (b, none) (serve_queue (2 ^ k) cs queue')
        (ap answers runs) (serve_ring-HoldsQueue k cs r' queue' h q')
  serve_ring-HoldsQueue k (pops ∷ cs) r queue h q =
      let (r', runs, q') = try_pop-HoldsQueue k r queue q in
      let (b, v, queue') = dequeue queue in
      let answers : Option (Bool × Option T × LockFreeRingBuffer T)
          → Option (Response T × LockFreeRingBuffer T) =
        λ o. elim o [ none ↦ none | some (b, v, r') ↦ some ((b, v), r') ] in
      serve_ring-step (2 ^ k) pops cs r r' (b, v) (serve_queue (2 ^ k) cs queue') (ap answers runs)
        (serve_ring-HoldsQueue k cs r' queue' h q')

  pub new_journal_ring-HoldsQueue : (k : ℕ) → HoldsQueue {T = T} k (new_journal_ring (2 ^ k)) []
  unfolding new_journal_ring
  new_journal_ring-HoldsQueue k = record {
    bounded = omega arith;
    written = omega arith;
    held = tt;
    free = λ j above below.
        let start : 0 + j ≡ j = omega arith in
        ap (λ (p : ℕ). p % 2 ^ k) start ∙ (mod-eq_of_lt below ∙ sym start);
  }

  -- Every history of pushes and pops on a new ring of 2 ^ k cells, two at least, returns, and is
  -- answered as by a queue of at most 2 ^ k values: a push is refused exactly when the queue is full,
  -- and a pop takes out the oldest value.
  pub serve_ring-new_journal_ring :
      (k : ℕ) (calls : List (Request T))
      → 1 ≤ k
      → serve_ring (2 ^ k) calls (new_journal_ring (2 ^ k)) ≡ some (serve_queue (2 ^ k) calls [])
  serve_ring-new_journal_ring k calls h =
      serve_ring-HoldsQueue k calls (new_journal_ring (2 ^ k)) [] h (new_journal_ring-HoldsQueue k)
