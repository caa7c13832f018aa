-- ===== src/AccessPoints/Silabs/Unsubscribing.antt =====
-- Once the gateway scans, as it does from its start, no subscription can be ended.
use tiedie.Prelude.{
  ◌≡◌, refl, ap, ◌∙◌, ℕ, Option, none, some, List, [], ◌∷◌, String, Dict, lookup, string_eq, nat_eq,
  lookup-insert, arith, lower, is_some, if_induction,
}
use tiedie.Python.{Result, ok, raise, attribute_error}
use tiedie.Ble.Services.{Service, ConnectionRequest, Characteristic}
use tiedie.AccessPoints.Silabs.Operations.{Evt, Publication, scanning, Operation}
use tiedie.AccessPoints.Silabs.Events.{SilabsAccessPoint}
use tiedie.AccessPoints.Silabs.Calls.{
  Answer, append, connected, changed, change, is_set, start_scan, new_operation, connectable,
}
use tiedie.AccessPoints.Silabs.Calls
use tiedie.AccessPoints.Silabs.Values.{
  characteristic_of, subscription_or, find_subscription, unsubscribe,
}
use tiedie.AccessPoints.Silabs.Keeping.{
  Q-run_connect, disconnect-Q, read-Q, write-Q, subscribe-Q, unsubscribe-Q,
}
use tiedie.AccessPoints.Silabs.Steps.{Step, step, steps, init, discovered, with_services}
use tiedie.AccessPoints.Silabs.Scanning.{
  IsScan, HasScan, HasScan-kept, receive_all-HasScan, append-HasScan,
}

found_none :
    (o : Option Operation) (i handle char_handle : ℕ) (rest : Result (Option ℕ)) (op : Operation)
    → o ≡ some op
    → IsScan op
    → subscription_or o i handle char_handle rest ≡ raise attribute_error
found_none o i handle char_handle rest op e (k, d) = rw (e, k)

-- The loop stops at the scan, which has no handle of a characteristic.
find_subscription_fails :
    (handle char_handle : ℕ) (s : SilabsAccessPoint)
    → HasScan s
    → find_subscription handle char_handle s.operations s ≡ raise attribute_error
unfolding find_subscription
find_subscription_fails handle char_handle s h =
    let (op, found, scans) = h.scans in
    ap (λ is. find_subscription handle char_handle is s) h.first
    ∙ found_none (lookup 0 s.heap) 0 handle char_handle _ op found scans

module _ (publish : Publication → Result (Unit {0})) where
  with_conn_reqs :
      (s : SilabsAccessPoint) (reqs : Dict String ConnectionRequest)
      → HasScan s
      → HasScan (record s { conn_reqs = reqs })
  with_conn_reqs s reqs h = record {
    rest = h.rest;
    first = h.first;
    scans = h.scans;
    fresh = h.fresh;
  }

  connected-HasScan :
      (i : ℕ) (address : String) (r : Answer (Unit {0}))
      → HasScan r.1
      → HasScan (connected i address r).1
  connected-HasScan i address (raise e, s) h = h
  connected-HasScan i address (ok u, s) h =
      if_induction (λ (t : Answer (Unit {0})). HasScan t.1) (is_set i s) (with_conn_reqs s _ h) h

  connect-HasScan :
      (radio : Calls.Radio) (address : String) (retries : ℕ) (s : SilabsAccessPoint)
      → HasScan s
      → HasScan (Calls.connect publish radio address retries s).1
  unfolding Calls.connect
  connect-HasScan radio address retries s h =
      if_induction (λ (t : Answer (Unit {0})). HasScan t.1) (connectable s)
        (if_induction (λ (t : Answer (Unit {0})). HasScan t.1)
          (is_some (lookup address s.conn_reqs)) h
          (connected-HasScan s.next address _ (
            Q-run_connect (HasScan-kept publish) radio s.next (lower address) retries
              (Calls.is_public_address (lower address)) _ h.fresh (append-HasScan publish _ s h))))
        h

  with_services-HasScan :
      (o : Option ConnectionRequest) (address : String) (services : Dict String Service)
      (s : SilabsAccessPoint)
      → HasScan s
      → HasScan (with_services o address services s)
  with_services-HasScan none address services s h = h
  with_services-HasScan (some r) address services s h = with_conn_reqs s _ h

  discovered-HasScan :
      (o : Option ConnectionRequest) (evts : List Evt) (address : String)
      (services : Dict String Service) (s : SilabsAccessPoint)
      → HasScan s
      → HasScan (discovered publish o evts address services s)
  discovered-HasScan none evts address services s h = h
  discovered-HasScan (some r) evts address services s h =
      with_services-HasScan _ address services _
        (receive_all-HasScan publish evts _ (append-HasScan publish _ s h))

  step-HasScan : (t : Step) (s : SilabsAccessPoint) → HasScan s → HasScan (step publish t s)
  step-HasScan (Step.events evts) s h = receive_all-HasScan publish evts s h
  step-HasScan (Step.connect radio address retries) s h = connect-HasScan radio address retries s h
  step-HasScan (Step.disconnect evts address) s h =
      disconnect-Q (HasScan-kept publish) evts address s h
  step-HasScan (Step.discover evts address services) s h =
      discovered-HasScan (lookup address s.conn_reqs) evts address services s h
  step-HasScan (Step.read evts key) s h = read-Q (HasScan-kept publish) evts key s h
  step-HasScan (Step.subscribe evts key) s h = subscribe-Q (HasScan-kept publish) evts key s h
  step-HasScan (Step.unsubscribe evts key) s h =
      unsubscribe-Q (HasScan-kept publish) evts key s
        (λ handle char_handle i found. cc (find_subscription_fails handle char_handle s h)) h
  step-HasScan (Step.write evts key value) s h = write-Q (HasScan-kept publish) evts key value s h

  steps-HasScan :
      (ts : List Step) (s : SilabsAccessPoint) → HasScan s → HasScan (steps publish ts s)
  steps-HasScan [] s h = h
  steps-HasScan (t ∷ ts) s h = steps-HasScan ts (step publish t s) (step-HasScan t s h)

  abbrev pub history : List Step → SilabsAccessPoint
  history ts = steps publish ts (start_scan publish init)

  history-HasScan : (ts : List Step) → HasScan (history ts)
  history-HasScan ts = steps-HasScan ts _ (record {
    rest = [];
    first = refl;
    scans = (new_operation scanning 0, scan_there, (refl, refl));
    fresh = omega arith;
  })
    where
      scan_there : lookup 0 (start_scan publish init).heap ≡ some (new_operation scanning 0)
      scan_there = lookup-insert 0 0 (new_operation scanning 0) []

  -- After the start of the scan and any events and calls, subscriptions among them: to unsubscribe
  -- from a characteristic that the connection of an address has fails with an `AttributeError`,
  -- sends nothing and leaves the state as it was.
  pub unsubscribe_fails :
      (ts : List Step) (evts : List Evt) (address service_uuid char_uuid : String)
      (r : ConnectionRequest) (c : Characteristic)
      → lookup address (history ts).conn_reqs ≡ some r
      → characteristic_of r service_uuid char_uuid ≡ ok c
      → unsubscribe publish evts (address, service_uuid, char_uuid) (history ts)
        ≡ (some (raise attribute_error), history ts)
  unfolding unsubscribe
  unsubscribe_fails ts evts address service_uuid char_uuid r c connected known = rw (
    connected,
    known,
    find_subscription_fails r.handle c.char_handle (history ts) (history-HasScan ts),
  )
