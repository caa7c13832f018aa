-- ===== src/AccessPoints/Silabs/Keeping.antt =====
-- What all parts of the methods keep of the state, the methods keep.
use tiedie.Prelude.{
  ◌≡◌, refl, ℕ, zero, suc, ◌+◌, Bool, true, false, Option, none, some, List, String, lookup,
  string_eq, ◌==ℕ◌, if_induction,
}
use tiedie.Python.{Exc, Result, ok, raise}
use tiedie.Ble.Services.{ConnectionRequest, Characteristic}
use tiedie.AccessPoints.Contract.{Key}
use tiedie.AccessPoints.Silabs.Operations.{Evt, Publication, Operation}
use tiedie.AccessPoints.Silabs.Events.{
  Command, open', close, set_notification, SilabsAccessPoint, receive_all,
}
use tiedie.AccessPoints.Silabs.Calls.{
  Radio, Answer, append, send, change, handle_of, is_set, after_wait, attempt, open_loop, give_up,
  run_connect, run, closed, disconnect_from, disconnect,
}
use tiedie.AccessPoints.Silabs.Values.{
  Waited, with_characteristic, characteristic_of, flag_of, waited_for, with_found, with_connection,
  read_of, write_of, subscribe_with, subscribe_of, find_subscription, disabling, disabled,
  unsubscribe, read, write, subscribe,
}

-- A property of the state that the parts of the methods keep. `Own` tells the operations that a
-- method may change.
pub record IsKept (publish : Publication → Result (Unit {0})) (Q : SilabsAccessPoint → Type 0)
    (Own : ℕ → Type 0) : Type 0 where
  pub Q-append : (op : Operation) (s : SilabsAccessPoint) → Q s → Q (append op s)
  pub Q-send : (c : Command) (s : SilabsAccessPoint) → Q s → Q (send c s)
  pub Q-change :
      (i : ℕ) (f : Operation → Operation) (s : SilabsAccessPoint) → Own i → Q s → Q (change i f s)
  pub Q-receive_all :
      (evts : List Evt) (s : SilabsAccessPoint) → Q s → Q (receive_all publish evts s)

module _ {publish : Publication → Result (Unit {0})} {Q : SilabsAccessPoint → Type 0}
    {Own : ℕ → Type 0} (kept : IsKept publish Q Own) where
  open kept use {Q-append, Q-send, Q-change, Q-receive_all}

  Q-after :
      (b : Bool) (i : ℕ) (waited : SilabsAccessPoint) (retries : ℕ)
      (f : SilabsAccessPoint → SilabsAccessPoint × ℕ)
      → Q waited
      → ((s : SilabsAccessPoint) → Q s → Q (f s).0)
      → Q (after_wait b i waited retries f).0
  Q-after true i waited retries f q g = q
  Q-after false i waited retries f q g = g _ (Q-send (close (handle_of i waited)) waited q)

  Q-loop :
      (rounds : ℕ) (radio : Radio) (i : ℕ) (address : String) (public : Bool) (retries : ℕ)
      (s : SilabsAccessPoint)
      → Own i
      → Q s
      → Q (open_loop publish rounds radio i address public retries s).0
  unfolding open_loop attempt
  Q-loop zero radio i address public retries s own q = q
  Q-loop (suc rounds) radio i address public retries s own q =
      Q-after (is_set i (attempt publish radio i address public retries s)) i _ retries _
        (Q-receive_all (radio retries).1 _ (
          Q-change i (λ op. record op { handle = (radio retries).0 }) _ own
            (Q-send (open' address public) s q)))
        (λ t. Q-loop rounds radio i address public (retries + 1) t own)

  -- the part of `connect` before its answer
  pub Q-run_connect :
      (radio : Radio) (i : ℕ) (address : String) (retries : ℕ) (r : Result Bool)
      (s : SilabsAccessPoint)
      → Own i
      → Q s
      → Q (run_connect publish radio i address retries r s).1
  Q-run_connect radio i address retries (raise e) s own q = q
  Q-run_connect radio i address retries (ok public) s own q =
      Q-give_up (open_loop publish (retries + 1) radio i address public 0 s)
        (Q-loop (retries + 1) radio i address public 0 s own q)
    where
      Q-give_up : (r : SilabsAccessPoint × ℕ) → Q r.0 → Q (give_up i retries r)
      Q-give_up (t, failed) q' =
          if_induction Q (failed ==ℕ retries + 1)
            (Q-change i (λ op. record op { is_done = true }) t own q') q'

  Q-run :
      (op : Operation) (c : Command) (evts : List Evt) (s : SilabsAccessPoint)
      → Q s
      → Q (run publish op c evts s)
  Q-run op c evts s q = Q-receive_all evts _ (Q-send c _ (Q-append op s q))

  closed-Q : (i : ℕ) (s : SilabsAccessPoint) → Q s → Q (closed publish i s).1
  closed-Q i s q = if_induction (λ (t : Answer (Unit {0})). Q t.1) (is_set i s) q q

  pub disconnect-Q :
      (evts : List Evt) (address : String) (s : SilabsAccessPoint)
      → Q s
      → Q (disconnect publish evts address s).1
  unfolding disconnect
  disconnect-Q evts address s q = from (lookup address s.conn_reqs)
    where
      from : (o : Option ConnectionRequest) → Q (disconnect_from publish o evts s).1
      from none = q
      from (some r) = closed-Q s.next _ (Q-run _ _ evts s q)

  waited_for-Q :
      {A : Type 0} (i : ℕ) (r : Result A) (s : SilabsAccessPoint) → Q s → Q (waited_for i r s).1
  waited_for-Q {A} i r s q = if_induction (λ (t : Waited A). Q t.1) (is_set i s) q q

  with_characteristic-Q :
      {A : Type 0} (key : Key) (e : Exc) (s : SilabsAccessPoint)
      (f : ConnectionRequest → Characteristic → Waited A)
      → Q s
      → ((r : ConnectionRequest) (c : Characteristic) → Q (f r c).1)
      → Q (with_characteristic key e s f).1
  with_characteristic-Q (address, service_uuid, char_uuid) e s f q g =
      from (lookup address s.conn_reqs)
    where
      found : (r : ConnectionRequest) (c : Result Characteristic) → Q (with_found c s (f r)).1
      found r (raise x) = q
      found r (ok c) = g r c

      from : (o : Option ConnectionRequest) → Q (with_connection o service_uuid char_uuid e s f).1
      from none = q
      from (some r) = found r (characteristic_of r service_uuid char_uuid)

  pub read-Q :
      (evts : List Evt) (key : Key) (s : SilabsAccessPoint) → Q s → Q (read publish evts key s).1
  unfolding read
  read-Q evts key s q =
      with_characteristic-Q key _ s (read_of publish evts s) q
        (λ r c. waited_for-Q s.next _ _ (Q-run _ _ evts s q))

  pub write-Q :
      (evts : List Evt) (key : Key) (value : List ℕ) (s : SilabsAccessPoint)
      → Q s
      → Q (write publish evts key value s).1
  unfolding write
  write-Q evts key value s q =
      with_characteristic-Q key _ s (write_of publish evts value s) q
        (λ r c. waited_for-Q s.next _ _ (Q-run _ _ evts s q))

  pub subscribe-Q :
      (evts : List Evt) (key : Key) (s : SilabsAccessPoint)
      → Q s
      → Q (subscribe publish evts key s).1
  unfolding subscribe
  subscribe-Q evts key s q =
      with_characteristic-Q key _ s (subscribe_of publish evts key s) q
        (λ r c. with_flag (flag_of c.properties) _ c.char_handle)
    where
      with_flag :
          (flag : Option ℕ) (op : Operation) (char_handle : ℕ)
          → Q (subscribe_with publish flag evts op char_handle s).1
      with_flag none op char_handle = Q-append op s q
      with_flag (some flag) op char_handle =
          waited_for-Q s.next _ _ (Q-run op (set_notification op.handle char_handle flag) evts s q)

  pub unsubscribe-Q :
      (evts : List Evt) (key : Key) (s : SilabsAccessPoint)
      → ((handle char_handle i : ℕ)
          → find_subscription handle char_handle s.operations s ≡ ok (some i)
          → Own i)
      → Q s
      → Q (unsubscribe publish evts key s).1
  unfolding unsubscribe
  unsubscribe-Q evts key s owned q =
      with_characteristic-Q key _ s _ q
        (λ r c. by_search r.handle c.char_handle _ (owned r.handle c.char_handle))
    where
      by_search :
          (handle char_handle : ℕ) (o : Result (Option ℕ))
          → ((i : ℕ) → o ≡ ok (some i) → Own i)
          → Q (disabled publish handle char_handle evts s o).1
      by_search handle char_handle (raise e) own = q
      by_search handle char_handle (ok none) own = q
      by_search handle char_handle (ok (some i)) own = waited_for-Q i _ _ (
          Q-receive_all evts _ (
            Q-send (set_notification handle char_handle 0) _ (
              Q-change i (λ op. record op { kind = disabling op.kind; is_set = false }) s
                (own i refl) q)))
