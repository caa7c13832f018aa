-- ===== src/Serial/Invariant.antt =====
-- The invariant of the tables of requests and replies.
use Prim.Native.Nat.{◌≤◌}
use mathlib.Core.Path.{subst}
use tiedie.Prelude.{
  ℕ, ◌+◌, ℤ, pos, ◌≡◌, ◌≢◌, ◌⊎◌, refl, sym, ◌∙◌, true, false, Option, none, some, [], ◌∷◌, arith,
  All, Bool-cases, inl, inr, Dict, lookup, insert, erase, lookup-insert, lookup-erase, All-lookup,
  All-erase, All-insert, int_eq, int_beq_self, int_beq_sound,
}
use tiedie.Serial.State.{Backend, Reply, stopped, init, set_result, set_if_found}
use tiedie.Serial.Isolation.{OwnFutures, lookup-set_result_ne}
use tiedie.Serial.Lifecycle.{fail_all}

-- `k` is the id of a request that was made before `n`.
abbrev pub IsOld : ℕ → ℤ → Type 0
IsOld n k = (m : ℕ) → n ≤ m → k ≢ pos m

-- A pending request waits for the future of its own id.
abbrev pub OwnsFuture : ℕ → ℤ × ℤ → Type 0
OwnsFuture n (k, fut) = (fut ≡ k) × IsOld n k

pub record Inv (n : ℕ) (pending : Dict ℤ ℤ) (futures : Dict ℤ Reply) : Type 0 where
  pub entries : All (OwnsFuture n) pending
  pub unborn : (m : ℕ) → n ≤ m → lookup (pos m) futures ≡ none
  pub waiting : (k fut : ℤ) → lookup k pending ≡ some fut → lookup k futures ≡ none

abbrev pub IsValid : Backend → Type 0
IsValid s = Inv s.next_id s.pending s.futures

pub Inv-OwnFutures :
    {n : ℕ} {pending : Dict ℤ ℤ} {futures : Dict ℤ Reply}
    → Inv n pending futures
    → OwnFutures pending
Inv-OwnFutures {n} {pending} v k fut h = (All-lookup (OwnsFuture n) pending k fut v.entries h).0

lookup-erase_self : {V : Type 0} (k : ℤ) (d : Dict ℤ V) → lookup k (erase k d) ≡ none
lookup-erase_self k d = lookup-erase k k d ∙ rw (int_beq_self k) refl

-- A future that is not done takes the reply.
pub lookup-set_result :
    (k : ℤ) (r : Reply) (futures : Dict ℤ Reply)
    → lookup k futures ≡ none
    → lookup k (set_result k r futures) ≡ some r
unfolding set_result
lookup-set_result k r futures h = rw h (lookup-insert k k r futures ∙ rw (int_beq_self k) refl)

-- Taking a request out keeps the invariant.
pub erase-Inv :
    (n : ℕ) (pending : Dict ℤ ℤ) (futures : Dict ℤ Reply) (j : ℤ)
    → Inv n pending futures
    → Inv n (erase j pending) futures
erase-Inv n pending futures j v = record {
  entries = All-erase (OwnsFuture n) j pending v.entries;
  unborn = v.unborn;
  waiting = λ k fut h. v.waiting k fut (still k fut h);
}
  where
    still : (k fut : ℤ) → lookup k (erase j pending) ≡ some fut → lookup k pending ≡ some fut
    still k fut h = ground (arith, lookup-erase j k pending)

-- So does the reply of its future, which then is not pending any more.
module _ (n : ℕ) (pending : Dict ℤ ℤ) (futures : Dict ℤ Reply) (j : ℤ) (r : Reply) where
  set_own-Inv :
      IsOld n j → Inv n (erase j pending) futures → Inv n (erase j pending) (set_result j r futures)
  set_own-Inv old v = record {
    entries = v.entries;
    unborn = λ m h. lookup-set_result_ne j (pos m) r futures (old m h) ∙ v.unborn m h;
    waiting = λ k fut h. unset k fut h (Bool-cases (int_eq.beq j k));
  }
    where
      unset :
          (k fut : ℤ)
          → lookup k (erase j pending) ≡ some fut
          → (int_eq.beq j k ≡ true) ⊎ (int_eq.beq j k ≡ false)
          → lookup k (set_result j r futures) ≡ none
      unset k fut h (inl same) = absurd_of (lookup-erase j k pending ∙ rw same refl)
        where
          absurd_of : lookup k (erase j pending) ≡ none → lookup k (set_result j r futures) ≡ none
          absurd_of e = cc
      unset k fut h (inr other) =
          lookup-set_result_ne j k r futures (λ e. cc (int_beq_self j, e, other))
          ∙ v.waiting k fut h

  pub resolve-Inv :
      Inv n pending futures → Inv n (erase j pending) (set_if_found (lookup j pending) r futures)
  resolve-Inv v = by_entry (lookup j pending) refl
    where
      by_entry :
          (o : Option ℤ) → lookup j pending ≡ o → Inv n (erase j pending) (set_if_found o r futures)
      by_entry none e = erase-Inv n pending futures j v
      by_entry (some fut) e =
          let entry = All-lookup (OwnsFuture n) pending j fut v.entries e in
          rw entry.0 (set_own-Inv entry.1 (erase-Inv n pending futures j v))

-- Allocating the next id keeps it.
IsOld-suc : (n : ℕ) (k : ℤ) → IsOld n k → IsOld (n + 1) k
IsOld-suc n k old m h = old m (omega arith)

OwnsFuture-suc :
    (n : ℕ) (pending : Dict ℤ ℤ) → All (OwnsFuture n) pending → All (OwnsFuture (n + 1)) pending
OwnsFuture-suc n [] h = tt
OwnsFuture-suc n ((k, fut) ∷ d) h = ((h.0.0, IsOld-suc n k h.0.1), OwnsFuture-suc n d h.1)

pos-ne : (n m : ℕ) → n + 1 ≤ m → pos n ≢ pos m
pos-ne n m h = ground arith

pub begin-Inv :
    (n : ℕ) (pending : Dict ℤ ℤ) (futures : Dict ℤ Reply)
    → Inv n pending futures
    → Inv (n + 1) (insert (pos n) (pos n) pending) futures
begin-Inv n pending futures v = record {
  entries =
      All-insert (OwnsFuture (n + 1)) (pos n) (pos n) pending (refl, λ m h. pos-ne n m h)
        (OwnsFuture-suc n pending v.entries);
  unborn = λ m h. v.unborn m (omega arith);
  waiting = λ k fut h. by_key k fut h (Bool-cases (int_eq.beq (pos n) k));
}
  where
    by_key :
        (k fut : ℤ)
        → lookup k (insert (pos n) (pos n) pending) ≡ some fut
        → (int_eq.beq (pos n) k ≡ true) ⊎ (int_eq.beq (pos n) k ≡ false)
        → lookup k futures ≡ none
    by_key k fut h (inl same) =
        subst (λ j. lookup j futures ≡ none) (int_beq_sound (pos n) k same)
          (v.unborn n (omega arith))
    by_key k fut h (inr other) =
        v.waiting k fut (ground (arith, lookup-insert (pos n) k (pos n) pending))

-- Failing every pending request sets old futures only.
unborn-fail_all :
    (n : ℕ) (pending : Dict ℤ ℤ) (futures : Dict ℤ Reply)
    → All (OwnsFuture n) pending
    → ((m : ℕ) → n ≤ m → lookup (pos m) futures ≡ none)
    → (m : ℕ) → n ≤ m
    → lookup (pos m) (fail_all pending futures) ≡ none
unfolding fail_all
unborn-fail_all n [] futures h unborn m le = unborn m le
unborn-fail_all n ((k, fut) ∷ pending) futures h unborn m le =
    unborn-fail_all n pending (set_result fut stopped futures) h.1
      (λ i ni.
        lookup-set_result_ne fut (pos i) stopped futures (λ e. h.0.1 i ni (sym h.0.0 ∙ e))
        ∙ unborn i ni)
      m le

pub stop-Inv :
    (n : ℕ) (pending : Dict ℤ ℤ) (futures : Dict ℤ Reply)
    → Inv n pending futures
    → Inv n [] (fail_all pending futures)
unfolding lookup
stop-Inv n pending futures v = record {
  entries = tt;
  unborn = unborn-fail_all n pending futures v.entries v.unborn;
  waiting = λ k fut h. cc;
}

pub init-IsValid : IsValid init
unfolding lookup
init-IsValid = record { entries = tt; unborn = λ m h. refl; waiting = λ k fut h. cc }
