-- ===== src/Persist/Line/Scan.antt =====
-- The search for a marker in a line of backend/modules/persist/src/event_journal.cpp, over each part
-- of the line that is not the marker.
use axiotick.Common.{
  ℕ, zero, suc, ◌+◌, ◌/◌, ◌%◌, ◌≡◌, ◌⊎◌, refl, ◌∙◌, inl, inr, Bool, Bool-cases, true, false, ◌&&◌,
  if◌then◌else◌, leb, ltb, ◌==◌, none, [], ◌∷◌, ◌++◌, pos, negsuc, arith,
}
use mathlib.Core.List.{append_assoc}
use axiotick.Common.Decimal.{Bytes, codes, digits_before, decimal, decimal-append}
use axiotick.Persist.Line.{
  equal, Value, unsigned, signed, name, flag, value_text, strip, after, marker,
}

-- The bytes of keys and names: the underscore and the letters that are not capitals.
abbrev pub is_letter : ℕ → Bool
is_letter c = leb 95 c && leb c 122

abbrev pub letters : Bytes → Bool
letters [] = true
letters (c ∷ s) = is_letter c && letters s

-- A word is not empty.
abbrev pub is_word : Bytes → Bool
is_word [] = false
is_word (c ∷ s) = is_letter c && letters s

pub strip-letters :
    (key other : Bytes) (d : ℕ) (opening rest : Bytes)
    → letters key ≡ true
    → letters other ≡ true
    → strip (key ++ b'"' ∷ b':' ∷ opening) (other ++ b'"' ∷ d ∷ rest)
      ≡ (if equal key other && d == b':' then strip opening rest else none)
unfolding strip
strip-letters [] [] d opening rest h h' = ground arith
strip-letters [] (b ∷ other) d opening rest h h' = ground (arith, h')
strip-letters (a ∷ key) [] d opening rest h h' = ground (arith, h)
strip-letters (a ∷ key) (b ∷ other) d opening rest h h' =
    ground (arith, h, h', strip-letters key other d opening rest)

-- The names among the values are letters.
abbrev pub spells : Value → Bool
spells (unsigned n) = true
spells (signed n) = true
spells (name s) = letters s
spells (flag b) = true

strip_low :
    (key opening rest : Bytes) (d : ℕ)
    → is_word key ≡ true
    → is_letter d ≡ false
    → strip (key ++ b'"' ∷ b':' ∷ opening) (d ∷ rest) ≡ none
unfolding strip
strip_low [] opening rest d h below = ground (arith, h)
strip_low (a ∷ key) opening rest d h below = ground (arith, h, below)

module _ (key opening : Bytes) (word : is_word key ≡ true) where
  pub word_letters : letters key ≡ true
  word_letters =
      elim key as (λ k. is_word k ≡ true → letters k ≡ true) [ [] ↦ λ h. refl | a ∷ s ↦ λ h. h ]
        word

  -- A byte that is no quote is passed.
  pub after_other :
      (c : ℕ) (s : Bytes)
      → (c == b'"') ≡ false
      → after (marker key opening) (c ∷ s) ≡ after (marker key opening) s
  unfolding after strip
  after_other c s h = ground (arith, h)

  pub after_quote :
      (other : Bytes) (d : ℕ) (rest : Bytes)
      → letters other ≡ true
      → (equal key other && d == b':') ≡ false
      → after (marker key opening) (b'"' ∷ other ++ b'"' ∷ d ∷ rest)
        ≡ after (marker key opening) (other ++ b'"' ∷ d ∷ rest)
  unfolding after strip
  after_quote other d rest h differs =
      rw (strip-letters key other d opening rest word_letters h, differs) refl

  pub after-letters :
      (other rest : Bytes)
      → letters other ≡ true
      → after (marker key opening) (other ++ rest) ≡ after (marker key opening) rest
  after-letters [] rest h = refl
  after-letters (c ∷ other) rest h =
      after_other c (other ++ rest) (ground (arith, h))
      ∙ after-letters other rest (ground (arith, h))

  -- So is a quote with no letter behind it.
  pub after_closing :
      (d : ℕ) (rest : Bytes)
      → is_letter d ≡ false
      → after (marker key opening) (b'"' ∷ d ∷ rest) ≡ after (marker key opening) (d ∷ rest)
  unfolding after strip
  after_closing d rest below = rw (strip_low key opening rest d word below) refl

  after_digits :
      (fuel n : ℕ) (rest : Bytes)
      → after (marker key opening) (digits_before fuel n rest) ≡ after (marker key opening) rest
  unfolding digits_before
  after_digits zero n rest = after_other (48 + n) rest (ground arith)
  after_digits (suc fuel) n rest = elim (Bool-cases (ltb n 10)) [
    | inl small ↦ rw small (after_other (48 + n) rest (ground arith))
    | inr large ↦ rw large (
        after_digits fuel (n / 10) ((48 + n % 10) ∷ rest)
        ∙ after_other (48 + n % 10) rest (ground arith))
  ]

  after-decimal :
      (n : ℕ) (rest : Bytes)
      → after (marker key opening) (decimal n ++ rest) ≡ after (marker key opening) rest
  after-decimal n rest = rw decimal-append (after_digits n n rest)

  -- A value is passed together with the byte behind it, a comma or the closing brace.
  pub after_value :
      (value : Value) (d : ℕ) (rest : Bytes)
      → spells value ≡ true
      → (d ≡ b',') ⊎ (d ≡ b'}')
      → after (marker key opening) (value_text value ++ d ∷ rest)
        ≡ after (marker key opening) (d ∷ rest)
  unfolding value_text
  after_value (unsigned n) d rest h e = after-decimal n (d ∷ rest)
  after_value (signed (pos n)) d rest h e = after-decimal n (d ∷ rest)
  after_value (signed (negsuc n)) d rest h e =
      after_other b'-' (decimal (suc n) ++ d ∷ rest) refl ∙ after-decimal (suc n) (d ∷ rest)
  after_value (name s) d rest h e = rw append_assoc (
      after_quote s d rest h (ground (arith, e))
      ∙ after-letters s (b'"' ∷ d ∷ rest) h
      ∙ after_closing d rest (ground (arith, e)))
  after_value (flag true) d rest h e = after-letters (codes "true") (d ∷ rest) refl
  after_value (flag false) d rest h e = after-letters (codes "false") (d ∷ rest) refl
