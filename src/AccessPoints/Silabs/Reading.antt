-- ===== src/AccessPoints/Silabs/Reading.antt =====
-- What the end of a procedure does to a read that has no value yet.
use mathlib.Core.Path.{subst}
use tiedie.Prelude.{
  ◌≡◌, inl, inr, refl, ap, sym, ◌∙◌, ℕ, Bool, true, false, Option, none, some, List, [], ◌∷◌,
  lookup, nat_eq, lookup-insert, arith, ◌==ℕ◌, ==ℕ_iff, any, keep, Bool-cases,
}
use tiedie.Python.{Result, ok, raise}
use tiedie.AccessPoints.Silabs.Operations.{
  Evt, procedure_completed, Publication, Kind, reading, Operation, handle_event, dispatch,
}
use tiedie.AccessPoints.Silabs.Events.{Heap, handle_all, handle_found, then_handle}
use tiedie.AccessPoints.Silabs.Histories.{At, At-insert, At-holds, At-handle_all}

abbrev pub member : ℕ → List ℕ → Bool
member i is = any (λ j. j ==ℕ i) is

pub member-keep :
    (i : ℕ) (p : ℕ → Bool) (is : List ℕ) → member i is ≡ false → member i (keep p is) ≡ false
unfolding any keep
member-keep i p [] h = refl
member-keep i p (j ∷ is) h = ground (arith, member-keep i p is)

pub not_member-keep :
    (i : ℕ) (p : ℕ → Bool) (is : List ℕ) → p i ≡ false → member i (keep p is) ≡ false
unfolding any keep
not_member-keep i p [] h = refl
not_member-keep i p (j ∷ is) h = elim (Bool-cases (p j)) [
  | inl e ↦ rw e (ground (arith, not_member-keep i p is h, ==ℕ_iff j i, h, e))
  | inr e ↦ rw e (not_member-keep i p is h)
]

module _ (publish : Publication → Result (Unit {0})) (evt : Evt) (i : ℕ) where
  lookup-then :
      (r : Result (Unit {0})) (heap : Heap) (f : Heap → Result (Unit {0}) × Heap)
      (o : Option Operation)
      → lookup i heap ≡ o
      → ((h : Heap) → lookup i (f h).1 ≡ lookup i h)
      → lookup i (then_handle r heap f).1 ≡ o
  lookup-then (ok u) heap f o e g = g heap ∙ e
  lookup-then (raise x) heap f o e g = e

  lookup-found :
      (j : ℕ) (o : Option Operation) (heap : Heap) (f : Heap → Result (Unit {0}) × Heap)
      → (j ==ℕ i) ≡ false
      → ((h : Heap) → lookup i (f h).1 ≡ lookup i h)
      → lookup i (handle_found publish o evt j heap f).1 ≡ lookup i heap
  lookup-found j none heap f ne g = g heap
  lookup-found j (some op) heap f ne g =
      lookup-then (handle_event publish evt op).0 _ f (lookup i heap)
        (ground (arith, lookup-insert j i (handle_event publish evt op).1 heap)) g

  -- what is not in the list does not change
  pub lookup-handle_all :
      (is : List ℕ) (heap : Heap)
      → member i is ≡ false
      → lookup i (handle_all publish evt is heap).1 ≡ lookup i heap
  unfolding handle_all any
  lookup-handle_all [] heap h = refl
  lookup-handle_all (j ∷ is) heap h =
      lookup-found j (lookup j heap) heap (handle_all publish evt is) (ground arith)
        (λ d. lookup-handle_all is d (ground arith))

-- a read of a characteristic over a connection, without a value so far, and one that is over
abbrev pub Reads : ℕ → ℕ → Operation → Type 0
Reads h c op = (op.kind ≡ reading h none) × (op.handle ≡ c) × (op.is_set ≡ false)

abbrev pub Ended : ℕ → ℕ → Operation → Type 0
Ended h c op = Reads h c op × (op.is_done ≡ true)

module _ (publish : Publication → Result (Unit {0})) (i h c result : ℕ) where
  abbrev event : Evt
  event = procedure_completed c result

  handle_event-Reads :
      (op : Operation)
      → Reads h c op
      → handle_event publish event op ≡ (ok tt, record op { is_done = true })
  unfolding handle_event
  handle_event-Reads op (k, same, unset) =
      ap (λ (kd : Kind). dispatch publish kd event op) k ∙ on_own
    where
      on_own : dispatch publish (reading h none) event op ≡ (ok tt, record op { is_done = true })
      on_own = ground (arith, ==ℕ_iff op.handle c)

  pub keeps_Reads : (op : Operation) → Reads h c op → Reads h c (handle_event publish event op).1
  keeps_Reads op r = rw (handle_event-Reads op r) r

  keeps_Ended : (op : Operation) → Ended h c op → Ended h c (handle_event publish event op).1
  keeps_Ended op (r, done) = rw (handle_event-Reads op r) (r, refl)

  visited_found :
      (o : Option Operation) (heap : Heap) (f : Heap → Result (Unit {0}) × Heap)
      → lookup i heap ≡ o
      → At (Reads h c) i heap
      → ((d : Heap) → At (Ended h c) i d → At (Ended h c) i (f d).1)
      → At (Ended h c) i (handle_found publish o event i heap f).1
  visited_found none heap f e (op, found, r) g = cc
  visited_found (some op) heap f e there g =
      let r = At-holds (Reads h c) i i op heap refl e there in
      rw (handle_event-Reads op r) (
        g _ (
          record op { is_done = true },
          ground (arith, lookup-insert i i (record op { is_done = true }) heap),
          (r, refl),
        ))

  then_ok :
      (r : Result (Unit {0})) (heap : Heap) (f : Heap → Result (Unit {0}) × Heap)
      → (then_handle r heap f).0 ≡ ok tt
      → ((f heap).0 ≡ ok tt → At (Ended h c) i (f heap).1)
      → At (Ended h c) i (then_handle r heap f).1
  then_ok (ok u) heap f e g = g e
  then_ok (raise x) heap f e g = cc

  passed_found :
      (j : ℕ) (o : Option Operation) (heap : Heap) (f : Heap → Result (Unit {0}) × Heap)
      → lookup j heap ≡ o
      → (handle_found publish o event j heap f).0 ≡ ok tt
      → At (Reads h c) i heap
      → ((d : Heap) → (f d).0 ≡ ok tt → At (Reads h c) i d → At (Ended h c) i (f d).1)
      → At (Ended h c) i (handle_found publish o event j heap f).1
  passed_found j none heap f e good there g = g heap good there
  passed_found j (some op) heap f e good there g =
      then_ok (handle_event publish event op).0 _ f good λ good'. g _ good' (
        At-insert (Reads h c) i j (handle_event publish event op).1 heap
          (λ same. keeps_Reads op (At-holds (Reads h c) i j op heap same e there)) there)

  pub visited :
      (is : List ℕ) (heap : Heap)
      → member i is ≡ true
      → (handle_all publish event is heap).0 ≡ ok tt
      → At (Reads h c) i heap
      → At (Ended h c) i (handle_all publish event is heap).1
  unfolding handle_all any
  visited [] heap m good there = cc
  visited (j ∷ is) heap m good there = elim (Bool-cases (j ==ℕ i)) [
    | inl same ↦
        subst
          (λ k.
            At (Ended h c) i
              (handle_found publish (lookup k heap) event k heap (handle_all publish event is)).1)
          (sym ((==ℕ_iff j i).0 same))
          (visited_found (lookup i heap) heap (handle_all publish event is) refl there
            (At-handle_all (Ended h c) i publish event keeps_Ended is))
    | inr other ↦
        passed_found j (lookup j heap) heap (handle_all publish event is) refl good there
          (λ d good' there'. visited is d (ground arith) good' there')
  ]
