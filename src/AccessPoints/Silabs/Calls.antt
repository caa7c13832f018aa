-- ===== src/AccessPoints/Silabs/Calls.antt =====
-- `connect` and `disconnect` of gateway/silabs/silabs_access_point.py, each with the `run` of its
-- operation, and what all methods share.
--
-- What the radio does is an argument: the handle that it gives, and the events that arrive before a
-- wait is over, by an event or by its timeout.
use tiedie.Prelude.{
  ℕ, zero, suc, ◌+◌, ◌*◌, Bool, true, false, Option, none, some, List, [], ◌∷◌, ◌++◌, String,
  lookup, insert, nat_eq, string_eq, if◌then◌else◌, ◌==ℕ◌, ltb, length, is_some, lower, hex_value,
}
use Prim.Native.Nat.{bit_and}
use Prim.Native.Char.{code}
use Prim.Native.String.{String as Text}
use tiedie.Python.{
  Result, ok, raise, value_error, key_error, ble_connection_error, ble_disconnect_error, ◌>>=◌,
}
use tiedie.Ble.Services.{ConnectionRequest}
use tiedie.AccessPoints.Silabs.Operations.{
  Evt, Publication, Kind, connecting, disconnecting, scanning, Operation,
}
use tiedie.AccessPoints.Silabs.Events.{Command, open', close, SilabsAccessPoint, receive_all}

-- `SL_BT_CONFIG_MAX_CONNECTIONS`
abbrev pub max_connections : ℕ
max_connections = 32

unfoldable pub connectable : SilabsAccessPoint → Bool
connectable s = ltb (length s.conn_reqs) max_connections

abbrev pub new_operation : Kind → ℕ → Operation
new_operation kind handle = record { kind = kind; handle = handle; is_set = false; is_done = false }

-- a new operation, appended to the list
abbrev pub append : Operation → SilabsAccessPoint → SilabsAccessPoint
append op s = record s {
  heap = insert s.next op s.heap;
  next = s.next + 1;
  operations = s.operations ++ s.next ∷ [];
}

abbrev pub send : Command → SilabsAccessPoint → SilabsAccessPoint
send c s = record s { commands = s.commands ++ c ∷ [] }

abbrev pub changed :
    Option Operation → ℕ → (Operation → Operation) → SilabsAccessPoint → SilabsAccessPoint
changed none i f s = s
changed (some op) i f s = record s { heap = insert i (f op) s.heap }

-- a change of an operation
abbrev pub change : ℕ → (Operation → Operation) → SilabsAccessPoint → SilabsAccessPoint
change i f s = changed (lookup i s.heap) i f s

abbrev pub is_set_of : Option Operation → Bool
is_set_of none = false
is_set_of (some op) = op.is_set

abbrev pub is_set : ℕ → SilabsAccessPoint → Bool
is_set i s = is_set_of (lookup i s.heap)

abbrev pub handle_of : ℕ → SilabsAccessPoint → ℕ
handle_of i s = elim (lookup i s.heap) [ none ↦ 0 | some op ↦ op.handle ]

abbrev byte_of : Option ℕ → Option ℕ → Result ℕ
byte_of (some h) (some l) = ok (h * 16 + l)
byte_of _ _ = raise value_error

abbrev nibble : Option ℕ → Result ℕ
nibble none = raise value_error
nibble (some h) = ok h

-- `int(address[0:2], 16)`, for an address that begins with a hexadecimal digit or two
first_byte : String → Result ℕ
first_byte Text.[] = raise value_error
first_byte (Text.◌∷◌ a Text.[]) = nibble (hex_value (code a))
first_byte (Text.◌∷◌ a (Text.◌∷◌ b s)) = byte_of (hex_value (code a)) (hex_value (code b))

unfoldable pub is_public_address : String → Result Bool
unfolding first_byte
is_public_address address =
    first_byte address >>= λ b. ok (if bit_and b 0xC0 ==ℕ 0xC0 then false else true)

-- the handle that an `open` gives, and the events before its wait is over
abbrev pub Radio : Type 0
Radio = ℕ → ℕ × List Evt

abbrev pub Answer : Type 0 → Type 0
Answer A = Result A × SilabsAccessPoint

-- `break`, or the next round
abbrev pub after_wait :
    Bool
    → ℕ
    → SilabsAccessPoint
    → ℕ
    → (SilabsAccessPoint → SilabsAccessPoint × ℕ)
    → SilabsAccessPoint × ℕ
after_wait true i waited retries next_round = (waited, retries)
after_wait false i waited retries next_round = next_round (send (close (handle_of i waited)) waited)

-- without success, the operation is done
abbrev pub give_up : ℕ → ℕ → SilabsAccessPoint × ℕ → SilabsAccessPoint
give_up i retries (s, failed) =
    if failed ==ℕ retries + 1 then change i (λ op. record op { is_done = true }) s else s

abbrev pub connected : ℕ → String → Answer (Unit {0}) → Answer (Unit {0})
connected i address (raise e, s) = (raise e, s)
connected i address (ok _, s) =
    if is_set i s
    then (
      ok tt,
      record s {
        conn_reqs =
            insert address (record { address = address; handle = handle_of i s; services = [] })
              s.conn_reqs;
      },
    )
    else (raise ble_connection_error, s)

module _ (publish : Publication → Result (Unit {0})) where
  -- one `open`, and the wait after it
  unfoldable pub attempt : Radio → ℕ → String → Bool → ℕ → SilabsAccessPoint → SilabsAccessPoint
  attempt radio i address public retries s =
      receive_all publish (radio retries).1
        (change i (λ op. record op { handle = (radio retries).0 }) (send (open' address public) s))

  -- the loop of `ConnectOperation.run`, with the rounds that are left and the attempts that failed
  unfoldable pub open_loop :
      ℕ → Radio → ℕ → String → Bool → ℕ → SilabsAccessPoint → SilabsAccessPoint × ℕ
  unfolding attempt
  open_loop zero radio i address public retries s = (s, retries)
  open_loop (suc rounds) radio i address public retries s =
      let waited = attempt radio i address public retries s in
      after_wait (is_set i waited) i waited retries
        (open_loop rounds radio i address public (retries + 1))

  -- `ConnectOperation.run`
  abbrev pub run_connect :
      Radio → ℕ → String → ℕ → Result Bool → SilabsAccessPoint → Answer (Unit {0})
  run_connect radio i address retries (raise e) s = (raise e, s)
  run_connect radio i address retries (ok public) s =
      (ok tt, give_up i retries (open_loop (retries + 1) radio i address public 0 s))

  unfoldable pub connect : Radio → String → ℕ → SilabsAccessPoint → Answer (Unit {0})
  unfolding open_loop connectable
  connect radio address retries s =
      if connectable s
      then (if is_some (lookup address s.conn_reqs)
          then (raise ble_connection_error, s)
          else connected s.next address (
              run_connect radio s.next (lower address) retries (is_public_address (lower address))
                (append (new_operation (connecting (lower address)) 0) s)))
      else (raise ble_connection_error, s)

  -- an operation that is started with a command and waits for the events
  abbrev pub run : Operation → Command → List Evt → SilabsAccessPoint → SilabsAccessPoint
  run op command evts s = receive_all publish evts (send command (append op s))

  abbrev pub closed : ℕ → SilabsAccessPoint → Answer (Unit {0})
  closed i s = if is_set i s then (ok tt, s) else (raise ble_disconnect_error, s)

  abbrev pub disconnect_from :
      Option ConnectionRequest → List Evt → SilabsAccessPoint → Answer (Unit {0})
  disconnect_from none evts s = (raise key_error, s)
  disconnect_from (some r) evts s =
      closed s.next (run (new_operation disconnecting r.handle) (close r.handle) evts s)

  -- The `KeyError` of an unknown address is not caught.
  unfoldable pub disconnect : List Evt → String → SilabsAccessPoint → Answer (Unit {0})
  disconnect evts address s = disconnect_from (lookup address s.conn_reqs) evts s

  -- Scanning is started once, when the gateway starts, and has no wait.
  abbrev pub start_scan : SilabsAccessPoint → SilabsAccessPoint
  start_scan s = append (new_operation scanning 0) s
