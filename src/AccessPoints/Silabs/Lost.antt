-- ===== src/AccessPoints/Silabs/Lost.antt =====
-- A read whose procedure ends without a value waits forever.
use tiedie.Prelude.{
  ◌≡◌, ◌⊎◌, inl, inr, refl, ap, ◌∙◌, ℕ, Bool, true, false, List, [], ◌∷◌, lookup, nat_eq,
  if◌then◌else◌, keep, Bool-cases, if_induction, if_cases,
}
use tiedie.Python.{Result, ok, raise}
use tiedie.AccessPoints.Silabs.Operations.{Evt, connection_closed, procedure_completed, Publication}
use tiedie.AccessPoints.Silabs.Events.{
  SilabsAccessPoint, Heap, handle_all, handled, is_done_in, is_done_of, receive, receive_all,
}
use tiedie.AccessPoints.Silabs.Calls.{is_set, is_set_of}
use tiedie.AccessPoints.Silabs.Histories.{At, At-handle_all}
use tiedie.AccessPoints.Silabs.Reading.{
  member, member-keep, not_member-keep, lookup-handle_all, Reads, Ended, visited, keeps_Reads,
}

-- An operation whose flag is down, and which no event reaches any more.
abbrev Lost : ℕ → SilabsAccessPoint → Type 0
Lost i s = (is_set i s ≡ false) × ((member i s.operations ≡ false) ⊎ (s.running ≡ false))

module _ (publish : Publication → Result (Unit {0})) (i : ℕ) where
  handled-Lost :
      (r : Result (Unit {0}) × Heap) (evt : Evt) (s : SilabsAccessPoint)
      → is_set_of (lookup i r.1) ≡ false
      → (r.0 ≡ ok tt
          → member i (keep (λ j. if is_done_in r.1 j then false else true) s.operations) ≡ false)
      → Lost i (handled r evt s)
  handled-Lost (raise e, heap) evt s unset gone = (unset, inr refl)
  handled-Lost (ok u, heap) (connection_closed c reason) s unset gone = (unset, inl (gone refl))
  handled-Lost (ok u, heap) evt s unset gone = (unset, inl (gone refl))

  receive-Lost : (evt : Evt) (s : SilabsAccessPoint) → Lost i s → Lost i (receive publish evt s)
  unfolding receive
  receive-Lost evt s (unset, inr stopped) =
      if_cases (Lost i) s.running (λ runs. cc) (λ _. (unset, inr stopped))
  receive-Lost evt s (unset, inl gone) =
      if_induction (Lost i) s.running
        (handled-Lost (handle_all publish evt s.operations s.heap) evt s
          (ap is_set_of (lookup-handle_all publish evt i s.operations s.heap gone) ∙ unset)
          (λ _. member-keep i _ s.operations gone))
        (unset, inl gone)

  receive_all-Lost :
      (evts : List Evt) (s : SilabsAccessPoint) → Lost i s → Lost i (receive_all publish evts s)
  unfolding receive_all
  receive_all-Lost [] s h = h
  receive_all-Lost (evt ∷ evts) s h =
      receive_all-Lost evts (receive publish evt s) (receive-Lost evt s h)

  module _ (h c result : ℕ) where
    unset : (heap : Heap) → At (Reads h c) i heap → is_set_of (lookup i heap) ≡ false
    unset heap (op, found, (k, same, down)) = ap is_set_of found ∙ down

    done :
        (heap : Heap) → At (Ended h c) i heap → (if is_done_in heap i then false else true) ≡ false
    done heap (op, found, (r, ended)) =
        ap (λ (b : Bool). if b then false else true) (ap is_done_of found ∙ ended)

    ended-Lost :
        (s : SilabsAccessPoint)
        → At (Reads h c) i s.heap
        → Lost i (receive publish (procedure_completed c result) s)
    unfolding receive
    ended-Lost s there =
        if_cases (Lost i) s.running
          (λ _.
            handled-Lost (handle_all publish (procedure_completed c result) s.operations s.heap)
              (procedure_completed c result) s
              (unset _ (
                At-handle_all (Reads h c) i publish (procedure_completed c result)
                  (keeps_Reads publish i h c result) s.operations s.heap there))
              (λ good. elim (Bool-cases (member i s.operations)) [
                | inl m ↦
                    not_member-keep i _ s.operations
                      (done _ (visited publish i h c result s.operations s.heap m good there))
                | inr n ↦ member-keep i _ s.operations n
              ]))
          (λ stopped. (unset s.heap there, inr stopped))

-- A read that has no value yet: once its connection's procedure is completed, as after a failed
-- read, no later events whatever end the wait of the call.
pub read_waits_forever :
    (publish : Publication → Result (Unit {0})) (i h c result : ℕ) (evts : List Evt)
    (s : SilabsAccessPoint)
    → At (Reads h c) i s.heap
    → is_set i (receive_all publish (procedure_completed c result ∷ evts) s) ≡ false
unfolding receive_all
read_waits_forever publish i h c result evts s there =
    (receive_all-Lost publish i evts _ (ended-Lost publish i h c result s there)).0
