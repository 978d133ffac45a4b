-- ===== src/Common/Assoc.antt =====
-- `std::unordered_map` with integer keys, as an association list. The order of the entries is not
-- observed; a written key keeps its place.
use Prim.Native.Nat.{ℕ, ◌+◌, ◌≤◌}
use mathlib.Core.Path.{◌≡◌, refl, ◌∙◌}
use mathlib.Core.Logic.{inl, inr}
use mathlib.Core.Bool.{Bool, true, false}
use mathlib.Core.Option.{Option, none, some}
use mathlib.Core.List.{List, [], ◌∷◌}
use native.Mathlib.Omega.{arith}
use axiotick.Common.Tests.{◌==◌, Bool-cases, if◌then◌else◌}
use axiotick.Common.Lists.{length}

abbrev pub Dict : Type 0 → Type 0
Dict V = List (ℕ × V)

module _ {V : Type 0} where
  unfoldable pub find : ℕ → Dict V → Option V
  find key [] = none
  find key ((k, v) ∷ d) = if k == key then some v else find key d

  unfoldable pub put : ℕ → V → Dict V → Dict V
  put key value [] = (key, value) ∷ []
  put key value ((k, v) ∷ d) =
      let rest = put key value d in if k == key then (key, value) ∷ d else (k, v) ∷ rest

  unfoldable pub remove : ℕ → Dict V → Dict V
  remove key [] = []
  remove key ((k, v) ∷ d) = let rest = remove key d in if k == key then rest else (k, v) ∷ rest

  abbrev pub contains : ℕ → Dict V → Bool
  contains key d = elim (find key d) [ none ↦ false | some _ ↦ true ]

  pub find-put :
      (key other : ℕ) (value : V) (d : Dict V)
      → find other (put key value d) ≡ (if key == other then some value else find other d)
  unfolding find put
  find-put key other value [] = refl
  find-put key other value ((k, v) ∷ d) = ground (arith, find-put key other value d)

  pub find-remove :
      (key other : ℕ) (d : Dict V)
      → find other (remove key d) ≡ (if key == other then none else find other d)
  unfolding find remove
  find-remove key other [] = ground arith
  find-remove key other ((k, v) ∷ d) = ground (arith, find-remove key other d)

  pub length-put-le : (key : ℕ) (value : V) (d : Dict V) → length (put key value d) ≤ length d + 1
  unfolding put
  length-put-le key value [] = omega arith
  length-put-le key value ((k, v) ∷ d) = ground (arith, length-put-le key value d)

  pub length-remove-le : (key : ℕ) (d : Dict V) → length (remove key d) ≤ length d
  unfolding remove
  length-remove-le key [] = omega arith
  length-remove-le key ((k, v) ∷ d) = ground (arith, length-remove-le key d)

pub ruleset dict_laws = (find-put, find-remove)

-- No key has two entries.
abbrev pub Unique : {V : Type 0} → Dict V → Type 0
Unique [] = Unit {0}
Unique ((k, v) ∷ d) = (find k d ≡ none) × Unique d

pub put-Unique :
    {V : Type 0} (key : ℕ) (value : V) (d : Dict V) → Unique d → Unique (put key value d)
unfolding put
put-Unique key value [] u = (unfold find in refl, tt)
put-Unique key value ((k, v) ∷ d) (fresh, u) = elim (Bool-cases (k == key)) [
  | inl same ↦ let e : k ≡ key = ground (arith, same) in rw same (rw (← e) fresh, u)
  | inr other ↦
      rw other (find-put key k value d ∙ ground (arith, other, fresh), put-Unique key value d u)
]

pub remove-Unique : {V : Type 0} (key : ℕ) (d : Dict V) → Unique d → Unique (remove key d)
unfolding remove
remove-Unique key [] u = tt
remove-Unique key ((k, v) ∷ d) (fresh, u) = elim (Bool-cases (k == key)) [
  | inl same ↦ rw same (remove-Unique key d u)
  | inr other ↦ rw other (find-remove key k d ∙ ground (arith, other, fresh), remove-Unique key d u)
]
