-- ===== src/Persist/Line/Readings.antt =====
-- How the `parse_…_field` functions of backend/modules/persist/src/event_journal.cpp read the value of
-- an entry, where an entry with their key stands in the line.
use axiotick.Common.{
  ℕ, suc, ◌+◌, ◌-◌, ◌≤◌, ◌≡◌, refl, sym, ap, ◌∙◌, Bool, true, false, ◌&&◌, if◌then◌else◌, ltb, ◌==◌,
  some, List, [], ◌∷◌, ◌++◌, ℤ, pos, negsuc, InInt64, arith,
}
use mathlib.Core.List.{append-nil, append_assoc}
use axiotick.Common.Decimal.{
  Bytes, decimal, decimal_first, leading_digits, leading_digits-decimal, value_of, value_of-decimal,
  saturate,
}
use axiotick.Persist.Line.{
  Value, unsigned, signed, name, flag, value_text, entries_text, strip, after, marker, skip_blanks,
  u64_max, i64_max, read_u64, read_i64, signed_digits, read_bool, until_quote, parse_u64_field,
  parse_i64_field, parse_bool_field, parse_string_field,
}
use axiotick.Persist.Line.Scan.{is_word, letters}
use axiotick.Persist.Line.Lookup.{spelled, value_of_key, Ends, after_entries}

no_more_digits : (d : ℕ) (rest : Bytes) → Ends d → leading_digits (d ∷ rest) ≡ []
unfolding leading_digits
no_more_digits d rest ends = ground (arith, ends)

digits_kept : (n d : ℕ) (rest : Bytes) → Ends d → leading_digits (decimal n ++ d ∷ rest) ≡ decimal n
digits_kept n d rest ends = leading_digits-decimal n (d ∷ rest) (no_more_digits d rest ends)

decimal_cons : (n : ℕ) → (d : ℕ) × (s : Bytes) × (d ≤ 9) × (decimal n ≡ (48 + d) ∷ s)
decimal_cons n =
    let (d, s, below, e) = decimal_first n [] in (d, s, below, sym (append-nil (decimal n)) ∙ e)

skip_blanks-decimal : (n : ℕ) (rest : Bytes) → skip_blanks (decimal n ++ rest) ≡ decimal n ++ rest
skip_blanks-decimal n rest =
    let (d, s, below, e) = decimal_first n rest in rw e (ground (arith, below))

read_u64-decimal : (n : ℕ) → n ≤ u64_max → read_u64 (decimal n) ≡ some n
unfolding read_u64
read_u64-decimal n h =
    let (d, s, below, e) = decimal_cons n in
    let value : value_of 0 ((48 + d) ∷ s) ≡ n = ap (value_of 0) (sym e) ∙ value_of-decimal n in
    rw e (rw value (ground (arith, h)))

read_i64-decimal :
    (negative : Bool) (n : ℕ)
    → read_i64 negative (decimal n)
      ≡ some (
          if negative && ltb 0 n
          then negsuc (saturate i64_max (n - 1))
          else pos (saturate i64_max n))
unfolding read_i64
read_i64-decimal negative n =
    let (d, s, below, e) = decimal_cons n in
    let value : value_of 0 ((48 + d) ∷ s) ≡ n = ap (value_of 0) (sym e) ∙ value_of-decimal n in
    rw e (rw value refl)

signed_digits-value :
    (z : ℤ) (d : ℕ) (rest : Bytes)
    → InInt64 z
    → Ends d
    → signed_digits (skip_blanks (value_text (signed z) ++ d ∷ rest)) ≡ some z
unfolding value_text
signed_digits-value (pos n) d rest fits ends =
    let (d0, s, below, e) = decimal_first n (d ∷ rest) in
    let kept : leading_digits ((48 + d0) ∷ s) ≡ decimal n =
      ap leading_digits (sym e) ∙ digits_kept n d rest ends in
    rw (skip_blanks-decimal n (d ∷ rest), e)
      (let no_sign : ((48 + d0) == b'-') ≡ false = ground (arith, below) in
        rw (no_sign, kept, read_i64-decimal false n) (ground (arith, fits)))
signed_digits-value (negsuc n) d rest fits ends =
    rw (digits_kept (suc n) d rest ends, read_i64-decimal true (suc n)) (ground (arith, fits))

read_bool-value :
    (b : Bool) (rest : Bytes) → read_bool (skip_blanks (value_text (flag b) ++ rest)) ≡ some b
unfolding value_text strip
read_bool-value true rest = refl
read_bool-value false rest = refl

until_quote-letters :
    (first : Bool) (previous : ℕ) (s rest : Bytes)
    → letters s ≡ true
    → (previous == b'\\') ≡ false
    → until_quote first previous (s ++ b'"' ∷ rest) ≡ some s
unfolding until_quote
until_quote-letters first previous [] rest h apart = ground (arith, apart)
until_quote-letters first previous (c ∷ s) rest h apart =
    let later : until_quote false c (s ++ b'"' ∷ rest) ≡ some s =
      until_quote-letters false c s rest (ground (arith, h)) (ground (arith, h)) in
    let no_quote : (c == b'"') ≡ false = ground (arith, h) in rw (later, no_quote) refl

module _ (key : Bytes) (word : is_word key ≡ true) (es : List (Bytes × Value))
    (all : spelled es ≡ true) where
  plain_entry :
      (value : Value)
      → value_of_key key es ≡ some value
      → (d : ℕ) × (rest : Bytes) × Ends d
        × (after (marker key []) (entries_text b'{' es) ≡ some (value_text value ++ d ∷ rest))
  unfolding strip
  plain_entry value e =
      after_entries key [] word b'{' es value (value_text value) refl all e (λ s. refl)

  pub parse_u64_field-entry :
      (n : ℕ)
      → value_of_key key es ≡ some (unsigned n)
      → n ≤ u64_max
      → parse_u64_field key (entries_text b'{' es) ≡ some n
  unfolding parse_u64_field value_text
  parse_u64_field-entry n e fits =
      let (d, rest, ends, found) = plain_entry (unsigned n) e in
      rw (found, skip_blanks-decimal n (d ∷ rest), digits_kept n d rest ends)
        (read_u64-decimal n fits)

  pub parse_i64_field-entry :
      (z : ℤ)
      → value_of_key key es ≡ some (signed z)
      → InInt64 z
      → parse_i64_field key (entries_text b'{' es) ≡ some z
  unfolding parse_i64_field
  parse_i64_field-entry z e fits =
      let (d, rest, ends, found) = plain_entry (signed z) e in
      rw found (signed_digits-value z d rest fits ends)

  pub parse_bool_field-entry :
      (b : Bool)
      → value_of_key key es ≡ some (flag b)
      → parse_bool_field key (entries_text b'{' es) ≡ some b
  unfolding parse_bool_field
  parse_bool_field-entry b e =
      let (d, rest, ends, found) = plain_entry (flag b) e in rw found (read_bool-value b (d ∷ rest))

  pub parse_string_field-entry :
      (s : Bytes)
      → letters s ≡ true
      → value_of_key key es ≡ some (name s)
      → parse_string_field key (entries_text b'{' es) ≡ some s
  unfolding parse_string_field value_text strip
  parse_string_field-entry s h e =
      let (d, rest, ends, found) =
        after_entries key (b'"' ∷ []) word b'{' es (name s) (s ++ b'"' ∷ []) refl all e
          (λ s'. refl) in
      rw (found, append_assoc) (until_quote-letters true 0 s (d ∷ rest) h refl)
