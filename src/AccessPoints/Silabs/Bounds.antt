-- ===== src/AccessPoints/Silabs/Bounds.antt =====
-- The access point never has more connections than the radio allows.
use tiedie.Prelude.{
  ◌≡◌, refl, ℕ, ◌+◌, ◌≤◌, Option, none, some, List, [], ◌∷◌, String, Dict, lookup, insert,
  string_eq, nat_eq, arith, ltb, length, lower, is_some, if_induction, if_cases,
}
use tiedie.Python.{Result, ok, raise}
use tiedie.Ble.Services.{Service, ConnectionRequest}
use tiedie.AccessPoints.Silabs.Operations.{Evt, connection_closed, Publication, Operation}
use tiedie.AccessPoints.Silabs.Events.{
  SilabsAccessPoint, Heap, handle_all, handled, pop_handle, receive, receive_all,
}
use tiedie.AccessPoints.Silabs.Calls.{
  Answer, connectable, connected, append, changed, change, is_set, max_connections,
}
use tiedie.AccessPoints.Silabs.Calls
use tiedie.AccessPoints.Silabs.Keeping.{
  IsKept, Q-run_connect, disconnect-Q, read-Q, write-Q, subscribe-Q, unsubscribe-Q,
}
use tiedie.AccessPoints.Silabs.Steps.{Step, step, steps, init, discovered, with_services}

module _ {V : Type 0} where
  length-insert-le : (k : String) (v : V) (d : Dict String V) → length (insert k v d) ≤ length d + 1
  unfolding insert
  length-insert-le k v [] = omega arith
  length-insert-le k v ((j, w) ∷ d) = ground (arith, length-insert-le k v d)

  length-insert_old :
      (k : String) (v w : V) (d : Dict String V)
      → lookup k d ≡ some w
      → length (insert k v d) ≡ length d
  unfolding insert lookup
  length-insert_old k v w [] h = cc
  length-insert_old k v w ((j, u) ∷ d) h = ground (arith, length-insert_old k v w d)

length-pop_handle : (c : ℕ) (d : Dict String ConnectionRequest) → length (pop_handle c d) ≤ length d
unfolding pop_handle
length-pop_handle c [] = omega arith
length-pop_handle c ((a, r) ∷ d) = ground (arith, length-pop_handle c d)

module _ (publish : Publication → Result (Unit {0})) (n : ℕ) where
  abbrev Fits : SilabsAccessPoint → Type 0
  Fits s = length s.conn_reqs ≤ n

  handled-Fits :
      (r : Result (Unit {0}) × Heap) (evt : Evt) (s : SilabsAccessPoint)
      → Fits s
      → Fits (handled r evt s)
  handled-Fits (raise e, heap) evt s h = h
  handled-Fits (ok u, heap) (connection_closed c reason) s h =
      omega (arith, length-pop_handle c s.conn_reqs)
  handled-Fits (ok u, heap) evt s h = h

  receive_all-Fits :
      (evts : List Evt) (s : SilabsAccessPoint) → Fits s → Fits (receive_all publish evts s)
  unfolding receive_all receive
  receive_all-Fits [] s h = h
  receive_all-Fits (evt ∷ evts) s h = receive_all-Fits evts (receive publish evt s) (
      if_induction Fits s.running
        (handled-Fits (handle_all publish evt s.operations s.heap) evt s h) h)

  change-Fits :
      (i : ℕ) (f : Operation → Operation) (s : SilabsAccessPoint)
      → Unit {0}
      → Fits s
      → Fits (change i f s)
  change-Fits i f s own h = by_lookup (lookup i s.heap)
    where
      by_lookup : (o : Option Operation) → Fits (changed o i f s)
      by_lookup none = h
      by_lookup (some op) = h

  Fits-kept : IsKept publish Fits (λ _. Unit {0})
  Fits-kept = record {
    Q-append = λ op s h. h;
    Q-send = λ c s h. h;
    Q-change = change-Fits;
    Q-receive_all = receive_all-Fits;
  }

module _ (publish : Publication → Result (Unit {0})) where
  abbrev Bounded : SilabsAccessPoint → Type 0
  Bounded s = length s.conn_reqs ≤ max_connections

  connected-Bounded :
      (i : ℕ) (address : String) (r : Answer (Unit {0}))
      → length r.1.conn_reqs ≤ 31
      → Bounded (connected i address r).1
  connected-Bounded i address (raise e, s) h = omega (arith, h)
  connected-Bounded i address (ok u, s) h =
      if_induction (λ (t : Answer (Unit {0})). Bounded t.1) (is_set i s)
        (omega (arith, h, length-insert-le address _ s.conn_reqs)) (omega (arith, h))

  connect-Bounded :
      (radio : Calls.Radio) (address : String) (retries : ℕ) (s : SilabsAccessPoint)
      → Bounded s
      → Bounded (Calls.connect publish radio address retries s).1
  unfolding Calls.connect connectable
  connect-Bounded radio address retries s h =
      if_cases (λ (t : Answer (Unit {0})). Bounded t.1) (ltb (length s.conn_reqs) max_connections)
        (λ room.
          if_induction (λ (t : Answer (Unit {0})). Bounded t.1)
            (is_some (lookup address s.conn_reqs)) h
            (connected-Bounded s.next address _ (
              Q-run_connect (Fits-kept publish 31) radio s.next (lower address) retries
                (Calls.is_public_address (lower address)) _ tt (ground arith))))
        (λ full. h)

  with_services-Bounded :
      (o : Option ConnectionRequest) (address : String) (services : Dict String Service)
      (s : SilabsAccessPoint)
      → lookup address s.conn_reqs ≡ o
      → Bounded s
      → Bounded (with_services o address services s)
  with_services-Bounded none address services s e h = h
  with_services-Bounded (some r) address services s e h =
      omega (arith, h, length-insert_old address (record r { services = services }) r s.conn_reqs e)

  discovered-Bounded :
      (o : Option ConnectionRequest) (evts : List Evt) (address : String)
      (services : Dict String Service) (s : SilabsAccessPoint)
      → Bounded s
      → Bounded (discovered publish o evts address services s)
  discovered-Bounded none evts address services s h = h
  discovered-Bounded (some r) evts address services s h =
      with_services-Bounded _ address services _ refl (receive_all-Fits publish 32 evts _ h)

  step-Bounded : (t : Step) (s : SilabsAccessPoint) → Bounded s → Bounded (step publish t s)
  step-Bounded (Step.events evts) s h = receive_all-Fits publish 32 evts s h
  step-Bounded (Step.connect radio address retries) s h = connect-Bounded radio address retries s h
  step-Bounded (Step.disconnect evts address) s h =
      disconnect-Q (Fits-kept publish 32) evts address s h
  step-Bounded (Step.discover evts address services) s h =
      discovered-Bounded (lookup address s.conn_reqs) evts address services s h
  step-Bounded (Step.read evts key) s h = read-Q (Fits-kept publish 32) evts key s h
  step-Bounded (Step.subscribe evts key) s h = subscribe-Q (Fits-kept publish 32) evts key s h
  step-Bounded (Step.unsubscribe evts key) s h =
      unsubscribe-Q (Fits-kept publish 32) evts key s (λ _ _ _ _. tt) h
  step-Bounded (Step.write evts key value) s h = write-Q (Fits-kept publish 32) evts key value s h

  steps-Bounded :
      (ts : List Step) (s : SilabsAccessPoint) → Bounded s → Bounded (steps publish ts s)
  steps-Bounded [] s h = h
  steps-Bounded (t ∷ ts) s h = steps-Bounded ts (step publish t s) (step-Bounded t s h)

  -- After any events of the radio and any calls of the methods, one after another, the access point
  -- holds at most 32 connections, which is what the radio allows.
  pub steps-init_bounded :
      (ts : List Step) → length (steps publish ts init).conn_reqs ≤ max_connections
  steps-init_bounded ts = steps-Bounded ts init (omega arith)
