-- ===== src/Bus/SpscRing/History.antt =====
-- Histories of calls on the ring of backend/include/bus/spsc_ring_buffer.hpp and on the queue.
use axiotick.Common.{
  ℕ, ◌^◌, ◌≤◌, ◌≡◌, refl, sym, ◌∙◌, ap, Bool, none, some, List, [], ◌∷◌, length, arith,
}
use axiotick.Bus.SpscRing.{
  SpscRingBuffer, new_ring, normalize_capacity, try_publish, try_consume, try_discard_oldest,
  Reading,
}
use axiotick.Bus.SpscRing.Capacity.{normalize_capacity-IsCapacity}
use axiotick.Bus.SpscRing.Slots.{Queues}
use axiotick.Bus.SpscRing.Fifo.{publish, front, dropped, rest, try_publish-Queues}
use axiotick.Bus.SpscRing.Reads.{try_consume-Queues, try_discard_oldest-Queues}

-- A message to publish, a read with a buffer or without and its room, or a discard.
pub data Call : Type 0 where
  publishes : List ℕ → Call
  consumes : Bool → ℕ → Call
  discards : Bool → Call

abbrev pub sent : Bool → Reading
sent b = record { answer = b; copied = []; out_size = none }

abbrev pub step_ring : ℕ → Call → SpscRingBuffer → Reading × SpscRingBuffer
step_ring message_size (publishes m) r =
    let (b, r') = try_publish message_size (some m) (length m) r in (sent b, r')
step_ring message_size (consumes wants room) r = try_consume wants (some room) r
step_ring message_size (discards reports) r = try_discard_oldest reports r

abbrev pub step_queue : ℕ → ℕ → Call → List (List ℕ) → Reading × List (List ℕ)
step_queue n message_size (publishes m) queue =
    let (b, queue') = publish n message_size m queue in (sent b, queue')
step_queue n message_size (consumes wants room) queue = (front wants room queue, rest queue)
step_queue n message_size (discards reports) queue = (dropped reports queue, rest queue)

abbrev pub run_ring : ℕ → List Call → SpscRingBuffer → List Reading
run_ring message_size [] r = []
run_ring message_size (c ∷ cs) r =
    let (reading, r') = step_ring message_size c r in reading ∷ run_ring message_size cs r'

abbrev pub run_queue : ℕ → ℕ → List Call → List (List ℕ) → List Reading
run_queue n message_size [] queue = []
run_queue n message_size (c ∷ cs) queue =
    let (reading, queue') = step_queue n message_size c queue in
    reading ∷ run_queue n message_size cs queue'

-- Every read has room for the longest message.
abbrev pub AllRoomy : ℕ → List Call → Type 0
AllRoomy message_size [] = Unit {0}
AllRoomy message_size (consumes wants room ∷ cs) = (message_size ≤ room) × AllRoomy message_size cs
AllRoomy message_size (_ ∷ cs) = AllRoomy message_size cs

run-Queues :
    (k message_size : ℕ) (calls : List Call) (r : SpscRingBuffer) (queue : List (List ℕ))
    → Queues k message_size r queue
    → AllRoomy message_size calls
    → run_ring message_size calls r ≡ run_queue (2 ^ k) message_size calls queue
run-Queues k message_size [] r queue q roomy = refl
run-Queues k message_size (publishes m ∷ cs) r queue q roomy =
    let (same, q') = try_publish-Queues k message_size r queue q m in
    rw same (
      ap (λ (rest : List Reading). sent (publish (2 ^ k) message_size m queue).0 ∷ rest)
        (run-Queues k message_size cs _ _ q' roomy))
run-Queues k message_size (consumes wants room ∷ cs) r queue q (fits, roomy) =
    let (same, q') = try_consume-Queues k message_size r wants room queue q fits in
    rw same (
      ap (λ (rest : List Reading). front wants room queue ∷ rest)
        (run-Queues k message_size cs _ _ q' roomy))
run-Queues k message_size (discards reports ∷ cs) r queue q roomy =
    let (same, q') = try_discard_oldest-Queues k message_size r reports queue q in
    rw same (
      ap (λ (rest : List Reading). dropped reports queue ∷ rest)
        (run-Queues k message_size cs _ _ q' roomy))

-- For a template capacity that is a power of two, every history of calls on a new ring is answered
-- as by a queue of messages that is bounded by the logical capacity, if each read has room for the
-- longest message: messages come out whole, in order, once each, and a publish is refused exactly
-- when the message is empty or too long or the queue is full.
pub run_ring-new_ring :
    (c requested message_size : ℕ) (calls : List Call)
    → AllRoomy message_size calls
    → run_ring message_size calls (new_ring (2 ^ c) requested)
      ≡ run_queue (normalize_capacity (2 ^ c) requested) message_size calls []
unfolding new_ring
run_ring-new_ring c requested message_size calls roomy =
    let sized = normalize_capacity-IsCapacity c requested in
    let k = sized.exponent in
    let starts : Queues k message_size (new_ring (2 ^ c) requested) [] = record {
      sized = sized.power;
      bounded = omega arith;
      written = omega arith;
      held = tt;
      free = λ j above below. refl;
    } in
    run-Queues k message_size calls (new_ring (2 ^ c) requested) [] starts roomy
    ∙ ap (λ (n : ℕ). run_queue n message_size calls []) (sym sized.power)
