-- ===== src/Ble/Characteristics.antt =====
-- The names that `Characteristic.__init__` of gateway/ble_types.py gives to the bits of a property
-- byte.
use Prim.Native.Nat.{bit_and}
use tiedie.Prelude.{
  ◌≡◌, refl, ℕ, ◌/◌, ◌%◌, ◌^◌, ◌<◌, Bool, true, false, ◌&&◌, List, [], ◌∷◌, ◌++◌, String, ◌==◌,
  ◌==ℕ◌, if◌then◌else◌, arith, eq_iff, holds_to, holds_at,
}

-- `if (properties & mask) == mask: self.properties.append(name)`
flag : ℕ → ℕ → String → List String
flag properties mask name = if bit_and properties mask ==ℕ mask then name ∷ [] else []

unfoldable pub properties_of : ℕ → List String
unfolding flag
properties_of p =
    flag p 0x02 "read"
    ++ flag p 0x04 "write_no_response"
    ++ flag p 0x08 "write"
    ++ flag p 0x10 "notify"
    ++ flag p 0x20 "indicate"
    ++ flag p 0x80 "extended_props"
    ++ flag p 0x101 "reliable_write"

-- the name of a bit of the byte, if it is set
abbrev pub named : ℕ → ℕ → String → List String → List String
named p k name rest = if p / 2 ^ k % 2 ==ℕ 1 then name ∷ rest else rest

-- the names of the bits that are set, from the lowest
abbrev pub bit_names : ℕ → List String
bit_names p = named p 1 "read" (
    named p 2 "write_no_response" (
      named p 3 "write"
        (named p 4 "notify" (named p 5 "indicate" (named p 7 "extended_props" [])))))

same_texts : List String → List String → Bool
same_texts [] [] = true
same_texts (s ∷ ss) (t ∷ ts) = s == t && same_texts ss ts
same_texts _ _ = false

same_texts_sound : (ss ts : List String) → same_texts ss ts ≡ true → ss ≡ ts
unfolding same_texts
same_texts_sound [] [] h = refl
same_texts_sound [] (t ∷ ts) h = ground arith
same_texts_sound (s ∷ ss) [] h = ground arith
same_texts_sound (s ∷ ss) (t ∷ ts) h = ground (arith, eq_iff s t, same_texts_sound ss ts)

table : holds_to 256 (λ p. same_texts (properties_of p) (bit_names p)) ≡ true
unfolding same_texts properties_of
table = refl

-- For every byte the names are those of its set bits, from the lowest, where bit 6 has none. In
-- particular no byte has the name "reliable_write".
pub properties_of-eq-names : (p : ℕ) → p < 256 → properties_of p ≡ bit_names p
properties_of-eq-names p h =
    same_texts_sound (properties_of p) (bit_names p)
      (holds_at 256 (λ k. same_texts (properties_of k) (bit_names k)) p table h)
