-- ===== src/AccessPoints/Silabs/Refusal.antt =====
-- When `connect` cannot succeed: the report of the new connection raises.
use mathlib.Core.Path.{subst}
use tiedie.Prelude.{
  ◌≡◌, refl, ap, sym, ◌∙◌, ℕ, zero, suc, ◌+◌, Bool, true, false, Option, none, some, String, lookup,
  insert, nat_eq, string_eq, lookup-insert, is_some, lower, arith, ◌==ℕ◌, if_induction,
}
use tiedie.Python.{Exc, Result, ok, raise, ble_connection_error}
use tiedie.AccessPoints.Silabs.Operations.{
  Evt, Publication, connection_status, connecting, Operation, handle_event, connection_opened,
  connection_closed, on_connecting, dispatch,
}
use tiedie.AccessPoints.Silabs.Events.{open', close, SilabsAccessPoint, Heap}
use tiedie.AccessPoints.Silabs.Calls.{
  Radio, Answer, after_wait, connectable, attempt, handle_of, append, new_operation, send, changed,
  is_set, is_set_of, open_loop, give_up, run_connect, connected, connect, is_public_address,
}
use tiedie.AccessPoints.Silabs.Histories.{At, At-insert, At-holds, At-receive_all}

-- The operation waits.
abbrev Waits : String → Operation → Type 0
Waits address op = (op.kind ≡ connecting address) × (op.is_set ≡ false)

lookup-insert_self : (i : ℕ) (op : Operation) (heap : Heap) → lookup i (insert i op heap) ≡ some op
lookup-insert_self i op heap = ground (arith, lookup-insert i i op heap)

module _ (publish : Publication → Result (Unit {0})) (address : String) (x : Exc)
    (refused : publish (connection_status none address true) ≡ raise x) where
  Waits-on_connecting :
      (evt : Evt) (op : Operation)
      → Waits address op
      → Waits address (on_connecting publish address evt op).1
  Waits-on_connecting (connection_opened c) op h = ground arith
  Waits-on_connecting (connection_closed c reason) op h = ground arith
  Waits-on_connecting evt op h = h

  Waits-handle_event :
      (evt : Evt) (op : Operation)
      → Waits address op
      → Waits address (handle_event publish evt op).1
  unfolding handle_event
  Waits-handle_event evt op h =
      subst (λ k. Waits address (dispatch publish k evt op).1) (sym h.0)
        (Waits-on_connecting evt op h)

  At-changed :
      (f : Operation → Operation)
      → ((op : Operation) → Waits address op → Waits address (f op))
      → (i : ℕ) (o : Option Operation) (s : SilabsAccessPoint) → lookup i s.heap ≡ o
      → At (Waits address) i s.heap
      → At (Waits address) i (changed o i f s).heap
  At-changed f keeps i none s e h = h
  At-changed f keeps i (some op) s e h =
      At-insert (Waits address) i i (f op) s.heap
        (λ same. keeps op (At-holds (Waits address) i i op s.heap same e h)) h

  At-attempt :
      (radio : Radio) (i : ℕ) (public : Bool) (retries : ℕ) (s : SilabsAccessPoint)
      → At (Waits address) i s.heap
      → At (Waits address) i (attempt publish radio i address public retries s).heap
  unfolding attempt
  At-attempt radio i public retries s h =
      At-receive_all (Waits address) i publish Waits-handle_event (radio retries).1 _ (
        At-changed (λ op. record op { handle = (radio retries).0 }) (λ op w. w) i (lookup i s.heap)
          (send (open' address public) s) refl h)

  At-after :
      (b : Bool) (i : ℕ) (waited : SilabsAccessPoint) (retries : ℕ)
      (f : SilabsAccessPoint → SilabsAccessPoint × ℕ)
      → At (Waits address) i waited.heap
      → ((s : SilabsAccessPoint) → At (Waits address) i s.heap → At (Waits address) i (f s).0.heap)
      → At (Waits address) i (after_wait b i waited retries f).0.heap
  At-after true i waited retries f h rest = h
  At-after false i waited retries f h rest = rest (send (close (handle_of i waited)) waited) h

  At-loop :
      (rounds : ℕ) (radio : Radio) (i : ℕ) (public : Bool) (retries : ℕ) (s : SilabsAccessPoint)
      → At (Waits address) i s.heap
      → At (Waits address) i (open_loop publish rounds radio i address public retries s).0.heap
  unfolding open_loop
  At-loop zero radio i public retries s h = h
  At-loop (suc rounds) radio i public retries s h =
      At-after (is_set i (attempt publish radio i address public retries s)) i _ retries _
        (At-attempt radio i public retries s h) (At-loop rounds radio i public (retries + 1))

  At-give_up :
      (i retries : ℕ) (r : SilabsAccessPoint × ℕ)
      → At (Waits address) i r.0.heap
      → At (Waits address) i (give_up i retries r).heap
  At-give_up i retries (s, failed) h =
      if_induction (λ (t : SilabsAccessPoint). At (Waits address) i t.heap) (failed ==ℕ retries + 1)
        (At-changed (λ op. record op { is_done = true }) (λ op w. w) i (lookup i s.heap) s refl h) h

  abbrev Raises : Answer (Unit {0}) → Type 0
  Raises r = (e : Exc) × (r.0 ≡ raise e)

  connected-Raises :
      (i : ℕ) (addr : String) (r : Answer (Unit {0}))
      → At (Waits address) i r.1.heap
      → Raises (connected i addr r)
  connected-Raises i addr (raise e, s) h = (e, refl)
  connected-Raises i addr (ok u, s) (op, found, h) =
      rw (ap is_set_of found ∙ h.1) (ble_connection_error, refl)

  At-run :
      (radio : Radio) (i : ℕ) (retries : ℕ) (r : Result Bool) (s : SilabsAccessPoint)
      → At (Waits address) i s.heap
      → At (Waits address) i (run_connect publish radio i address retries r s).1.heap
  At-run radio i retries (raise e) s h = h
  At-run radio i retries (ok public) s h =
      At-give_up i retries (open_loop publish (retries + 1) radio i address public 0 s)
        (At-loop (retries + 1) radio i public 0 s h)

-- If the report of a new connection with the address raises, then `connect` for the address raises
-- on every path, whatever the radio answers: also when the device is connected within the time.
pub connect_refused :
    (publish : Publication → Result (Unit {0})) (address : String) (x : Exc) (radio : Radio)
    (retries : ℕ) (s : SilabsAccessPoint)
    → publish (connection_status none (lower address) true) ≡ raise x
    → (e : Exc) × ((connect publish radio address retries s).0 ≡ raise e)
unfolding connect
connect_refused publish address x radio retries s refused =
    let waits : At (Waits (lower address)) s.next
        (append (new_operation (connecting (lower address)) 0) s).heap =
      (
        new_operation (connecting (lower address)) 0,
        lookup-insert_self s.next _ s.heap,
        (refl, refl),
      ) in
    if_induction (λ (t : Answer (Unit {0})). (e : Exc) × (t.0 ≡ raise e)) (connectable s)
      (if_induction (λ (t : Answer (Unit {0})). (e : Exc) × (t.0 ≡ raise e))
        (is_some (lookup address s.conn_reqs)) (ble_connection_error, refl)
        (connected-Raises publish (lower address) x refused s.next address _ (
          At-run publish (lower address) x refused radio s.next retries
            (is_public_address (lower address)) _ waits)))
      (ble_connection_error, refl)
