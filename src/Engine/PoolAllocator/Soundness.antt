-- ===== src/Engine/PoolAllocator/Soundness.antt =====
-- When the free list and the marks of engine/pool_allocator.hpp agree, and the operations on it.
use axiotick.Common.{
  ℕ, zero, suc, ◌+◌, ◌-◌, ◌≤◌, ◌<◌, ◌≡◌, ◌≢◌, refl, ◌∙◌, inl, inr, Bool, true, false, Bool-cases,
  Option, none, some, update, if◌then◌else◌, ◌==◌, leb, ltb, ◌&&◌, ◌↔◌, arith,
}
use axiotick.Engine.PoolAllocator.{
  PoolAllocator, reset, reset_from, reset_entry, try_emplace, deallocate, in_use, at,
}

-- The indices below a bound that are marked as used.
pub used_count : ℕ → (ℕ → Bool) → ℕ
used_count zero used = 0
used_count (suc n) used = used_count n used + (if used n then 1 else 0)

used_count_above :
    (n : ℕ) (used : ℕ → Bool) (i : ℕ) (b : Bool)
    → n ≤ i
    → used_count n (update used i b) ≡ used_count n used
unfolding used_count
used_count_above zero used i b h = refl
used_count_above (suc n) used i b h = ground (arith, used_count_above n used i b)

pub used_count_mark :
    (n : ℕ) (used : ℕ → Bool) (i : ℕ)
    → i < n
    → used i ≡ false
    → used_count n (update used i true) ≡ used_count n used + 1
unfolding used_count
used_count_mark zero used i h e = elim h [ ]
used_count_mark (suc n) used i h e =
    ground (arith, used_count_mark n used i, used_count_above n used i true)

pub used_count_clear :
    (n : ℕ) (used : ℕ → Bool) (i : ℕ)
    → i < n
    → used i ≡ true
    → used_count n (update used i false) + 1 ≡ used_count n used
unfolding used_count
used_count_clear zero used i h e = elim h [ ]
used_count_clear (suc n) used i h e =
    ground (arith, used_count_clear n used i, used_count_above n used i false)

used_count_pos : (n : ℕ) (used : ℕ → Bool) (i : ℕ) → i < n → used i ≡ true → 0 < used_count n used
unfolding used_count
used_count_pos zero used i h e = elim h [ ]
used_count_pos (suc n) used i h e = ground (arith, used_count_pos n used i)

pub used_count-le : (n : ℕ) (used : ℕ → Bool) → used_count n used ≤ n
unfolding used_count
used_count-le zero used = omega arith
used_count-le (suc n) used = ground (arith, used_count-le n used)

lt→not_leb : (i n : ℕ) → i < n → leb n i ≡ false
lt→not_leb i n h = ground arith

pub record IsSound {T : Type 0} (size : ℕ) (p : PoolAllocator T) : Type 0 where
  pub counted : p.free_count + used_count size p.used ≡ size
  pub in_range : (i : ℕ) → i < p.free_count → p.free_list i < size
  pub unused : (i : ℕ) → i < p.free_count → p.used (p.free_list i) ≡ false
  pub distinct :
      (i j : ℕ) → i < p.free_count → j < p.free_count → p.free_list i ≡ p.free_list j → i ≡ j

module _ {T : Type 0} (size : ℕ) (p : PoolAllocator T) (s : IsSound size p) where
  pub try_emplace-IsSound : (value : T) → IsSound size (try_emplace value p).1
  unfolding try_emplace
  try_emplace-IsSound value = elim (Bool-cases (p.free_count == 0)) [
    | inl e ↦ rw e s
    | inr e ↦
        let last : ℕ = p.free_count - 1 in
        let index : ℕ = p.free_list last in
        let room : last < p.free_count = ground arith in
        rw e (record {
          counted = ground (
            arith,
            s.counted,
            used_count_mark size p.used index (s.in_range last room) (s.unused last room),
          );
          in_range = λ i h. s.in_range i (omega arith);
          unused = λ i h. ground (arith, s.unused i, s.distinct i last);
          distinct = λ i j h k. s.distinct i j (omega arith) (omega arith);
        })
  ]

  deallocate_used :
      (value : T) (index : ℕ)
      → index < size
      → p.used index ≡ true
      → IsSound size (deallocate size value (some index) p)
  unfolding deallocate
  deallocate_used value index h e =
      rw (lt→not_leb index size h, e)
        (record {
          counted = omega (arith, s.counted, used_count_clear size p.used index h e);
          in_range = λ i k. ground (arith, s.in_range i);
          unused = λ i k. ground (arith, s.unused i);
          distinct = λ i j k l. ground (arith, s.distinct i j, s.unused i, s.unused j);
        })

  -- Giving back any index, one that is not in use, out of range or none included, leaves a pool in
  -- which the free list and the marks agree.
  pub deallocate-IsSound :
      (value : T) (index : Option ℕ) → IsSound size (deallocate size value index p)
  unfolding deallocate
  deallocate-IsSound value none = s
  deallocate-IsSound value (some index) = elim (Bool-cases (leb size index)) [
    | inl over ↦ rw over s
    | inr below ↦ elim (Bool-cases (p.used index)) [
      | inl e ↦ deallocate_used value index (ground arith) e
      | inr e ↦ rw (below, e) s
    ]
  ]

  -- A pool in which the free list and the marks agree refuses a value exactly when every slot is
  -- marked as used.
  pub try_emplace-none_iff :
      (value : T) → ((try_emplace value p).0 ≡ none) ↔ (used_count size p.used ≡ size)
  unfolding try_emplace
  try_emplace-none_iff value = ground (arith, s.counted)

  -- Otherwise the index that it hands out was not in use and now is, its slot holds the value, and
  -- every other slot and mark is as before.
  pub try_emplace_fresh :
      (value : T) (index : ℕ)
      → (try_emplace value p).0 ≡ some index
      → let q = (try_emplace value p).1 in
        (in_use size p (some index) ≡ false)
        × (in_use size q (some index) ≡ true)
        × (at q index ≡ value)
        × ((j : ℕ)
            → j ≢ index
            → (at q j ≡ at p j) × (in_use size q (some j) ≡ in_use size p (some j)))
  unfolding try_emplace in_use at
  try_emplace_fresh value index h =
      let last : ℕ = p.free_count - 1 in
      (
        ground (arith, s.unused last),
        ground (arith, s.in_range last),
        ground arith,
        λ j k. ground arith,
      )

reset_from-free_list :
    {T : Type 0} (size left i j : ℕ) (p : PoolAllocator T)
    → (reset_from size left i p).free_list j
      ≡ (if leb i j && ltb j (i + left) then size - 1 - j else p.free_list j)
unfolding reset_from
reset_from-free_list size zero i j p = ground arith
reset_from-free_list size (suc left) i j p =
    reset_from-free_list size left (i + 1) j (reset_entry size i p) ∙ ground arith

reset_from-used :
    {T : Type 0} (size left i j : ℕ) (p : PoolAllocator T)
    → p.used j ≡ false
    → (reset_from size left i p).used j ≡ false
unfolding reset_from
reset_from-used size zero i j p h = h
reset_from-used size (suc left) i j p h =
    reset_from-used size left (i + 1) j (reset_entry size i p) (ground arith)

reset_from-free_count :
    {T : Type 0} (size left i : ℕ) (p : PoolAllocator T)
    → (reset_from size left i p).free_count ≡ p.free_count
unfolding reset_from
reset_from-free_count size zero i p = refl
reset_from-free_count size (suc left) i p =
    reset_from-free_count size left (i + 1) (reset_entry size i p)

pub used_count_none : (n : ℕ) (used : ℕ → Bool) → ((j : ℕ) → used j ≡ false) → used_count n used ≡ 0
unfolding used_count
used_count_none zero used h = refl
used_count_none (suc n) used h = ground (arith, used_count_none n used h, h n)

-- The constructor's pool is sound: the free list holds every index once.
pub reset-IsSound : {T : Type 0} (size : ℕ) (value : T) → IsSound size (reset size value)
unfolding reset
reset-IsSound {T} size value =
    let start : PoolAllocator T = record {
      slots = λ _. value;
      used = λ _. false;
      free_list = λ _. 0;
      free_count = size;
    } in
    let entry = λ (j : ℕ). reset_from-free_list size size 0 j start in
    let clear = λ (j : ℕ). reset_from-used size size 0 j start refl in
    let count = reset_from-free_count size size 0 start in
    record {
      counted = omega (arith, count, used_count_none size _ clear);
      in_range = λ i h. ground (arith, count, entry i);
      unused = λ i h. clear _;
      distinct = λ i j h k e. ground (arith, count, entry i, entry j);
    }
