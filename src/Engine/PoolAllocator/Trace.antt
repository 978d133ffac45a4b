-- ===== src/Engine/PoolAllocator/Trace.antt =====
-- Histories of calls on one pool from its construction.
use axiotick.Common.{ℕ, ◌+◌, ◌≡◌, List, [], ◌∷◌, Option}
use axiotick.Engine.PoolAllocator.{PoolAllocator, reset, try_emplace, deallocate, available}
use axiotick.Engine.PoolAllocator.Soundness.{
  IsSound, used_count, try_emplace-IsSound, deallocate-IsSound, reset-IsSound,
}

pub data Call (T : Type 0) : Type 0 where
  emplaces : T → Call T
  deallocates : Option ℕ → Call T

module _ {T : Type 0} (size : ℕ) (value : T) where
  pub step : PoolAllocator T → Call T → PoolAllocator T
  step p (emplaces v) = (try_emplace v p).1
  step p (deallocates index) = deallocate size value index p

  pub run : PoolAllocator T → List (Call T) → PoolAllocator T
  run p [] = p
  run p (c ∷ cs) = run (step p c) cs

  step-IsSound : (p : PoolAllocator T) (c : Call T) → IsSound size p → IsSound size (step p c)
  unfolding step
  step-IsSound p (emplaces v) s = try_emplace-IsSound size p s v
  step-IsSound p (deallocates index) s = deallocate-IsSound size p s value index

  pub run-IsSound :
      (cs : List (Call T)) (p : PoolAllocator T) → IsSound size p → IsSound size (run p cs)
  unfolding run
  run-IsSound [] p s = s
  run-IsSound (c ∷ cs) p s = run-IsSound cs (step p c) (step-IsSound p c s)

  -- After any history of calls, double and foreign deallocations included, the slots that are
  -- available and those in use add up to the pool's size.
  pub run-reset-counted :
      (cs : List (Call T))
      → let p = run (reset size value) cs in available p + used_count size p.used ≡ size
  unfolding available
  run-reset-counted cs = (run-IsSound cs (reset size value) (reset-IsSound size value)).counted
