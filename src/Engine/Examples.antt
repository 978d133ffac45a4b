-- ===== src/Engine/Examples.antt =====
-- The theorems on the node pool and on the price levels, applied to small ones.
use axiotick.Common.{ℕ, ◌+◌, ◌≡◌, refl, if◌then◌else◌, ◌==◌, some, List, [], ◌∷◌, pos, arith}
use axiotick.Core.Order.{side_buy}
use axiotick.Engine.PoolAllocator.{PoolAllocator, reset, try_emplace, available}
use axiotick.Engine.PoolAllocator.Soundness.{
  IsSound, used_count, reset-IsSound, try_emplace-IsSound,
}
use axiotick.Engine.PoolAllocator.Trace.{Call, emplaces, deallocates, run, run-reset-counted}
use axiotick.Engine.PriceLevels.{PriceLevelSet, empty_level, find_level_index, find_or_create_level}
use axiotick.Engine.PriceLevels.Sorted.{IsSorted}
use axiotick.Engine.PriceLevels.Search.{IsAnswer, find_level_index-IsAnswer}
use axiotick.Engine.PriceLevels.Shift.{IsPlaced, find_or_create_level-IsPlaced}

-- A pool of two slots, with one of them taken.
abbrev one_taken : PoolAllocator ℕ
one_taken = (try_emplace 8 (reset 2 0)).1

one_taken-IsSound : IsSound 2 one_taken
one_taken-IsSound = try_emplace-IsSound 2 (reset 2 0) (reset-IsSound 2 0) 8

one_taken-index : (try_emplace 9 one_taken).0 ≡ some 1
unfolding try_emplace reset
one_taken-index = refl

-- A slot is given back twice, and a slot that the pool does not have once.
abbrev calls : List (Call ℕ)
calls =
    emplaces 8
    ∷ deallocates (some 0)
    ∷ deallocates (some 0)
    ∷ deallocates (some 5)
    ∷ emplaces 9
    ∷ []

run-reset-counted_example :
    available (run 2 0 (reset 2 0) calls) + used_count 2 (run 2 0 (reset 2 0) calls).used ≡ 2
run-reset-counted_example = run-reset-counted 2 0 calls

-- Bids at 50 and 30.
abbrev bids : PriceLevelSet
bids = record { levels = λ i. empty_level (if i == 0 then pos 50 else pos 30); size = 2 }

bids-IsSorted : IsSorted side_buy bids
bids-IsSorted = record { before = λ i j h k. ground arith }

find_level_index-IsAnswer_example :
    IsAnswer side_buy bids (pos 40) (find_level_index bids (pos 40) side_buy)
find_level_index-IsAnswer_example = find_level_index-IsAnswer side_buy bids bids-IsSorted (pos 40)

find_or_create_level-IsPlaced_example :
    IsPlaced 3 side_buy bids (pos 40) (find_or_create_level 3 bids (pos 40) side_buy)
find_or_create_level-IsPlaced_example =
    find_or_create_level-IsPlaced 3 side_buy bids bids-IsSorted (pos 40)
