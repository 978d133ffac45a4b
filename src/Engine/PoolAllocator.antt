-- ===== src/Engine/PoolAllocator.antt =====
-- backend/include/engine/pool_allocator.hpp. The template parameter `PoolSize` is `size`, an index
-- of -1 is `none`, and an array is a function that is read below `size` alone.
pub mod Soundness
pub mod Trace
use axiotick.Common.{
  ℕ, zero, suc, ◌+◌, ◌-◌, Bool, true, false, not, ◌&&◌, ◌||◌, if◌then◌else◌, ltb, leb, ◌==◌, Option,
  none, some, update,
}

pub record PoolAllocator (T : Type 0) : Type 0 where
  pub slots : ℕ → T
  pub used : ℕ → Bool
  pub free_list : ℕ → ℕ
  pub free_count : ℕ

-- The body of the loop of `reset`, and the loop with `left` rounds to go.
abbrev reset_entry : {T : Type 0} → ℕ → ℕ → PoolAllocator T → PoolAllocator T
reset_entry size i p = record p {
  used = update p.used i false;
  free_list = update p.free_list i (size - 1 - i);
}

reset_from : {T : Type 0} → ℕ → ℕ → ℕ → PoolAllocator T → PoolAllocator T
reset_from size zero i p = p
reset_from size (suc left) i p = reset_from size left (i + 1) (reset_entry size i p)

-- The constructor: `blank` is what the arrays hold before `reset`, with `value` for `T{}`.
unfoldable pub reset : {T : Type 0} → ℕ → T → PoolAllocator T
unfolding reset_from
reset size value =
    reset_from size size 0
      (record { slots = λ _. value; used = λ _. false; free_list = λ _. 0; free_count = size })

module _ {T : Type 0} where
  -- The index that is handed out, or `none`, and the pool after the call.
  unfoldable pub try_emplace : T → PoolAllocator T → Option ℕ × PoolAllocator T
  try_emplace value p =
      let index = p.free_list (p.free_count - 1) in
      if p.free_count == 0 then (none, p) else (
        some index,
        record p {
          slots = update p.slots index value;
          used = update p.used index true;
          free_count = p.free_count - 1;
        },
      )

  unfoldable pub deallocate : ℕ → T → Option ℕ → PoolAllocator T → PoolAllocator T
  deallocate size value none p = p
  deallocate size value (some index) p =
      if leb size index then p else if not (p.used index) then p else record p {
        slots = update p.slots index value;
        used = update p.used index false;
        free_list = update p.free_list p.free_count index;
        free_count = p.free_count + 1;
      }

  unfoldable pub in_use : ℕ → PoolAllocator T → Option ℕ → Bool
  in_use size p none = false
  in_use size p (some index) = ltb index size && p.used index

  unfoldable pub at : PoolAllocator T → ℕ → T
  at p index = p.slots index

  unfoldable pub available : PoolAllocator T → ℕ
  available p = p.free_count
