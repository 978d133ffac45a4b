-- ===== src/Bus/SpscRing/Examples.antt =====
-- The theorems on the ring, applied to a ring of four slots that is asked for three.
use axiotick.Common.{◌^◌, ◌≡◌, refl, true, false, some, List, [], ◌∷◌, arith}
use axiotick.Bus.SpscRing.{new_ring, normalize_capacity, try_publish, try_consume, double_until}
use axiotick.Bus.SpscRing.History.{
  Call, publishes, consumes, discards, run_ring, run_queue, sent, run_ring-new_ring,
}

abbrev calls : List Call
calls =
    publishes (1 ∷ 2 ∷ [])
    ∷ publishes (3 ∷ [])
    ∷ consumes true 8
    ∷ discards true
    ∷ consumes false 8
    ∷ []

run_ring-new_ring_example :
    run_ring 8 calls (new_ring (2 ^ 2) 3) ≡ run_queue (normalize_capacity (2 ^ 2) 3) 8 calls []
run_ring-new_ring_example = run_ring-new_ring 2 3 8 calls (omega arith, (omega arith, tt))

-- A read without room for the oldest message loses its place: the next read has a later message.
abbrev cramped : List Call
cramped =
    publishes (1 ∷ 2 ∷ [])
    ∷ publishes (3 ∷ [])
    ∷ consumes true 1
    ∷ consumes true 8
    ∷ publishes (4 ∷ [])
    ∷ consumes true 8
    ∷ []

cramped_order :
    run_ring 8 cramped (new_ring 2 2)
    ≡ sent true
      ∷ sent true
      ∷ record { answer = false; copied = []; out_size = some 1 }
      ∷ record { answer = true; copied = 3 ∷ []; out_size = some 1 }
      ∷ sent false
      ∷ record { answer = true; copied = 1 ∷ 2 ∷ []; out_size = some 2 }
      ∷ []
unfolding new_ring normalize_capacity double_until try_publish try_consume
cramped_order = refl
