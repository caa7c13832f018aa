-- ===== src/AccessPoints/Silabs/Histories.antt =====
-- What events keep: the commands that were sent, and what every handler keeps of an operation.
use tiedie.Prelude.{
  ◌≡◌, refl, ap, sym, ◌∙◌, ℕ, Option, none, some, List, [], ◌∷◌, lookup, insert, nat_eq,
  lookup-insert, arith, if_induction,
}
use mathlib.Core.Path.{subst}
use mathlib.Core.Option.{some-injective}
use native.Mathlib.Decide.{ℕ_discrete}
use tiedie.Python.{Result, ok, raise}
use tiedie.AccessPoints.Silabs.Operations.{
  Evt, Publication, Operation, handle_event, connection_closed,
}
use tiedie.AccessPoints.Silabs.Events.{
  SilabsAccessPoint, Heap, handle_all, handle_found, handled, then_handle, receive, receive_all,
}

-- the operation with this identity, and what holds of it
abbrev pub At : (Operation → Type 0) → ℕ → Heap → Type 0
At P i heap = (op : Operation) × (lookup i heap ≡ some op) × P op

module _ (P : Operation → Type 0) (i : ℕ) where
  inserted : (j : ℕ) (op : Operation) (heap : Heap) → i ≡ j → lookup i (insert j op heap) ≡ some op
  inserted j op heap e = ground (arith, lookup-insert j i op heap)

  pub At-holds :
      (j : ℕ) (op : Operation) (heap : Heap) → i ≡ j → lookup j heap ≡ some op → At P i heap → P op
  At-holds j op heap same found (old, found', p) =
      subst P (some-injective old op (sym found' ∙ ap (λ k. lookup k heap) same ∙ found)) p

  pub At-insert :
      (j : ℕ) (op : Operation) (heap : Heap)
      → (i ≡ j → P op)
      → At P i heap
      → At P i (insert j op heap)
  At-insert j op heap new (old, found, p) = elim (ℕ_discrete i j) [
    | yes e ↦ (op, inserted j op heap e, new e)
    | no ne ↦ (old, ground (arith, lookup-insert j i op heap), p)
  ]

  At-then :
      (r : Result (Unit {0})) (heap : Heap) (f : Heap → Result (Unit {0}) × Heap)
      → At P i heap
      → ((h : Heap) → At P i h → At P i (f h).1)
      → At P i (then_handle r heap f).1
  At-then (ok u) heap f h g = g heap h
  At-then (raise e) heap f h g = h

  At-handled :
      (r : Result (Unit {0}) × Heap) (evt : Evt) (s : SilabsAccessPoint)
      → At P i r.1
      → At P i (handled r evt s).heap
  At-handled (raise e, heap) evt s h = h
  At-handled (ok u, heap) (connection_closed c reason) s h = h
  At-handled (ok u, heap) evt s h = h

  -- What the handlers of an event keep of an operation, the event keeps.
  module _ (publish : Publication → Result (Unit {0})) (evt : Evt)
      (keeps : (op : Operation) → P op → P (handle_event publish evt op).1) where
    At-found :
        (j : ℕ) (o : Option Operation) (heap : Heap) (f : Heap → Result (Unit {0}) × Heap)
        → lookup j heap ≡ o
        → At P i heap
        → ((h : Heap) → At P i h → At P i (f h).1)
        → At P i (handle_found publish o evt j heap f).1
    At-found j none heap f e h g = g heap h
    At-found j (some op) heap f e h g =
        At-then (handle_event publish evt op).0 _ f
          (At-insert j (handle_event publish evt op).1 heap
            (λ same. keeps op (At-holds j op heap same e h)) h)
          g

    pub At-handle_all :
        (is : List ℕ) (heap : Heap) → At P i heap → At P i (handle_all publish evt is heap).1
    unfolding handle_all
    At-handle_all [] heap h = h
    At-handle_all (j ∷ is) heap h =
        At-found j (lookup j heap) heap (handle_all publish evt is) refl h (At-handle_all is)

    pub At-receive : (s : SilabsAccessPoint) → At P i s.heap → At P i (receive publish evt s).heap
    unfolding receive
    At-receive s h =
        if_induction (λ (t : SilabsAccessPoint). At P i t.heap) s.running
          (At-handled _ evt s (At-handle_all s.operations s.heap h)) h

  pub At-receive_all :
      (publish : Publication → Result (Unit {0}))
      → ((evt : Evt) (op : Operation) → P op → P (handle_event publish evt op).1)
      → (evts : List Evt) (s : SilabsAccessPoint) → At P i s.heap
      → At P i (receive_all publish evts s).heap
  unfolding receive_all
  At-receive_all publish keeps [] s h = h
  At-receive_all publish keeps (evt ∷ evts) s h =
      At-receive_all publish keeps evts (receive publish evt s)
        (At-receive publish evt (keeps evt) s h)

module _ (publish : Publication → Result (Unit {0})) where
  commands-handled :
      (r : Result (Unit {0}) × Heap) (evt : Evt) (s : SilabsAccessPoint)
      → (handled r evt s).commands ≡ s.commands
  commands-handled (raise e, heap) evt s = refl
  commands-handled (ok u, heap) (connection_closed c reason) s = refl
  commands-handled (ok u, heap) evt s = refl

  pub commands-receive_all :
      (evts : List Evt) (s : SilabsAccessPoint) → (receive_all publish evts s).commands ≡ s.commands
  unfolding receive_all receive
  commands-receive_all [] s = refl
  commands-receive_all (evt ∷ evts) s =
      commands-receive_all evts (receive publish evt s)
      ∙ if_induction (λ (t : SilabsAccessPoint). t.commands ≡ s.commands) s.running
          (commands-handled (handle_all publish evt s.operations s.heap) evt s) refl
