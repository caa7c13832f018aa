-- ===== src/Prelude/Dicts.antt =====
-- Python's `dict` as an association list in insertion order.
use mathlib.Core.Path.{◌≡◌, refl, sym, subst, subst₂}
use mathlib.Core.Bool.{Bool, true, false}
use mathlib.Core.Logic.{◌↔◌, inl, inr}
use mathlib.Core.List.{List, [], ◌∷◌}
use mathlib.Core.Option.{Option, none, some, some-injective}
use native.Mathlib.Omega.{arith}
use Prim.Native.String.{String}
use text.Mathlib.TextEquality.{eq_iff}
use tiedie.Prelude.Texts.{◌==◌}
use Prim.Native.Nat.{ℕ}
use tiedie.Prelude.Tests.{if◌then◌else◌, ◌==ℕ◌, ==ℕ_iff, if_induction, if_cases, Bool-cases}
use tiedie.Prelude.Lists.{All}

-- Equality of keys.
pub record Eq (K : Type 0) : Type 0 where
  pub beq : K → K → Bool
  pub beq_iff : (a b : K) → (beq a b ≡ true) ↔ (a ≡ b)

instance abbrev pub string_eq : Eq String
string_eq = record { beq = ◌==◌; beq_iff = eq_iff }

instance abbrev pub nat_eq : Eq ℕ
nat_eq = record { beq = ◌==ℕ◌; beq_iff = ==ℕ_iff }

abbrev pub Dict : Type 0 → Type 0 → Type 0
Dict K V = List (K × V)

-- `k in d`, of what a lookup gives
abbrev pub is_some {ℓ} : {A : Type ℓ} → Option A → Bool
is_some none = false
is_some (some a) = true

module _ {K V : Type 0} ⦃e : Eq K⦄ where
  -- `d.get(k)`
  unfoldable pub lookup : K → Dict K V → Option V
  lookup k [] = none
  lookup k ((j, v) ∷ d) = if e.beq j k then some v else lookup k d

  -- `d[k] = v`: an old key keeps its place, a new one goes to the end.
  unfoldable pub insert : K → V → Dict K V → Dict K V
  insert k v [] = (k, v) ∷ []
  insert k v ((j, w) ∷ d) = if e.beq j k then (j, v) ∷ d else (j, w) ∷ insert k v d

  -- `d.pop(k, None)`
  unfoldable pub erase : K → Dict K V → Dict K V
  erase k [] = []
  erase k ((j, w) ∷ d) = let rest = erase k d in if e.beq j k then rest else (j, w) ∷ rest

  pub lookup-insert :
      (k j : K) (v : V) (d : Dict K V)
      → lookup j (insert k v d) ≡ (if e.beq k j then some v else lookup j d)
  unfolding lookup insert
  lookup-insert k j v [] = refl
  lookup-insert k j v ((i, w) ∷ d) =
      ground (arith, e.beq_iff k j, e.beq_iff i k, e.beq_iff i j, lookup-insert k j v d)

  pub lookup-erase :
      (k j : K) (d : Dict K V) → lookup j (erase k d) ≡ (if e.beq k j then none else lookup j d)
  unfolding lookup erase
  lookup-erase k j [] = ground arith
  lookup-erase k j ((i, w) ∷ d) =
      ground (arith, e.beq_iff k j, e.beq_iff i k, e.beq_iff i j, lookup-erase k j d)

  -- What holds of every entry holds of what a lookup finds, and after an erase or an insert.
  pub All-lookup {ℓ} :
      (P : K × V → Type ℓ) (d : Dict K V) (k : K) (v : V) → All P d → lookup k d ≡ some v → P (k, v)
  unfolding lookup
  All-lookup P [] k v h found = cc
  All-lookup P ((j, w) ∷ d) k v h found = elim (Bool-cases (e.beq j k)) [
    | inl same ↦ transport_entry ((e.beq_iff j k).0 same) (some-injective w v (rw same at found))
    | inr other ↦ All-lookup P d k v h.1 (rw other at found)
  ]
    where
      transport_entry : j ≡ k → w ≡ v → P (k, v)
      transport_entry p q = subst₂ (λ a b. P (a, b)) p q h.0

  pub All-erase {ℓ} : (P : K × V → Type ℓ) (k : K) (d : Dict K V) → All P d → All P (erase k d)
  unfolding erase
  All-erase P k [] h = tt
  All-erase P k ((j, w) ∷ d) h =
      if_induction (All P) (e.beq j k) (All-erase P k d h.1) (h.0, All-erase P k d h.1)

  pub All-insert {ℓ} :
      (P : K × V → Type ℓ) (k : K) (v : V) (d : Dict K V)
      → P (k, v)
      → All P d
      → All P (insert k v d)
  unfolding insert
  All-insert P k v [] p h = (p, tt)
  All-insert P k v ((j, w) ∷ d) p h =
      if_cases (All P) (e.beq j k)
        (λ same. (subst (λ a. P (a, v)) (sym ((e.beq_iff j k).0 same)) p, h.1))
        (λ _. (h.0, All-insert P k v d p h.1))
