-- ===== src/Persist/Line/Lookup.antt =====
-- What the search for a key's marker finds in a line of backend/modules/persist/src/event_journal.cpp:
-- the value of the key's entry, and a byte behind it that ends it.
use axiotick.Common.{
  ℕ, ◌≡◌, ◌⊎◌, refl, ◌∙◌, inl, inr, Bool, Bool-cases, true, false, ◌&&◌, if◌then◌else◌, ◌==◌,
  Option, none, some, List, [], ◌∷◌, ◌++◌, arith,
}
use axiotick.Common.Decimal.{Bytes}
use axiotick.Persist.Line.{equal, Value, value_text, entries_text, strip, after, marker}
use axiotick.Persist.Line.Scan.{
  is_word, letters, spells, strip-letters, word_letters, after_other, after_quote, after-letters,
  after_closing, after_value,
}

abbrev pub spelled : List (Bytes × Value) → Bool
spelled [] = true
spelled ((k, value) ∷ es) = (is_word k && spells value) && spelled es

-- The value of the first entry with the key.
abbrev pub value_of_key : Bytes → List (Bytes × Value) → Option Value
value_of_key key [] = none
value_of_key key ((k, value) ∷ es) =
    let rest = value_of_key key es in if equal key k then some value else rest

-- The byte behind a value.
abbrev pub Ends : ℕ → Type 0
Ends d = (d ≡ b',') ⊎ (d ≡ b'}')

pub letters_of_word : (k : Bytes) → is_word k ≡ true → letters k ≡ true
letters_of_word [] h = refl
letters_of_word (c ∷ s) h = h

entries_start :
    (es : List (Bytes × Value))
    → (d : ℕ) × (rest : Bytes) × Ends d × (entries_text b',' es ≡ d ∷ rest)
unfolding entries_text
entries_start [] = (b'}', [], inr refl, refl)
entries_start ((k, value) ∷ es) =
    (b',', b'"' ∷ (k ++ b'"' ∷ b':' ∷ (value_text value ++ entries_text b',' es)), inl refl, refl)

module _ (key opening : Bytes) (word : is_word key ≡ true) where
  after_entry :
      (k : Bytes) (value : Value) (lead : ℕ) (es : List (Bytes × Value))
      → (lead == b'"') ≡ false
      → letters k ≡ true
      → spells value ≡ true
      → equal key k ≡ false
      → after (marker key opening) (entries_text lead ((k, value) ∷ es))
        ≡ after (marker key opening) (entries_text b',' es)
  unfolding entries_text
  after_entry k value lead es apart h says other =
      let (d, rest, ends, e) = entries_start es in
      let text = value_text value ++ entries_text b',' es in
      after_other key opening word lead (b'"' ∷ (k ++ b'"' ∷ b':' ∷ text)) apart
      ∙ after_quote key opening word k b':' text h (ground (arith, other))
      ∙ after-letters key opening word k (b'"' ∷ b':' ∷ text) h
      ∙ after_closing key opening word b':' text refl
      ∙ after_other key opening word b':' text refl
      ∙ rw e (after_value key opening word value d rest says ends)

  after_key :
      (k : Bytes) (opened rest : Bytes)
      → letters k ≡ true
      → equal key k ≡ true
      → strip opening rest ≡ some opened
      → after (marker key opening) (b'"' ∷ (k ++ b'"' ∷ b':' ∷ rest)) ≡ some opened
  unfolding after strip
  after_key k opened rest h same opens =
      rw (strip-letters key k b':' opening rest (word_letters key opening word) h, same, opens) refl

  pub after_entries :
      (lead : ℕ) (es : List (Bytes × Value)) (value : Value) (body : Bytes)
      → (lead == b'"') ≡ false
      → spelled es ≡ true
      → value_of_key key es ≡ some value
      → ((s : Bytes) → strip opening (value_text value ++ s) ≡ some (body ++ s))
      → (d : ℕ) × (rest : Bytes) × Ends d
        × (after (marker key opening) (entries_text lead es) ≡ some (body ++ d ∷ rest))
  unfolding entries_text
  after_entries lead [] value body apart all e opens = absurd (cc)
  after_entries lead ((k, v) ∷ es) value body apart all e opens = elim (Bool-cases (equal key k)) [
    | inl same ↦
        let (d, rest, ends, e') = entries_start es in
        let held : v ≡ value = ground (arith, e, same) in
        let text = value_text v ++ entries_text b',' es in
        let opened : strip opening text ≡ some (body ++ d ∷ rest) =
          rw (held, e') (opens (d ∷ rest)) in
        (
          d,
          rest,
          ends,
          after_other key opening word lead (b'"' ∷ (k ++ b'"' ∷ b':' ∷ text)) apart
              ∙ after_key k (body ++ d ∷ rest) text (letters_of_word k (ground (arith, all))) same
                  opened,
        )
    | inr other ↦
        let (d, rest, ends, found) =
          after_entries b',' es value body refl (ground (arith, all)) (ground (arith, e, other))
            opens in
        (
          d,
          rest,
          ends,
          after_entry k v lead es apart (letters_of_word k (ground (arith, all)))
                (ground (arith, all)) other
              ∙ found,
        )
  ]
