-- ===== src/Serial/Lifecycle.antt =====
-- The reference count and the port of `ZephyrSerialBackend`: `acquire`, `release`, `_start` and
-- `_stop`. Whether the port can be opened is an argument.
use tiedie.Prelude.{◌+◌, ◌-◌, ℤ, Bool, true, false, [], ◌∷◌, ◌==ℕ◌, ◌||◌, if◌then◌else◌, Dict}
use tiedie.Python.{Result, ok, raise, runtime_error}
use tiedie.Serial.State.{Reply, stopped, Backend, set_result}

-- `_start`; a running reader is left alone
unfoldable pub start : Bool → Backend → Result (Unit {0}) × Backend
start can_open s =
    if s.reader_alive
    then (ok tt, s)
    else if can_open
    then (ok tt, record s { port_open = true; reader_alive = true })
    else (raise runtime_error, s)

-- The reader thread breaks out of `_reader_loop`, because a read or the call of the event loop
-- raised: nothing else is told, and the port stays open.
unfoldable pub end_reader : Backend → Backend
end_reader s = record s { reader_alive = false }

-- the loop of `_stop` over the pending requests
unfoldable pub fail_all : Dict ℤ ℤ → Dict ℤ Reply → Dict ℤ Reply
fail_all [] futures = futures
fail_all ((req_id, fut) ∷ pending) futures = fail_all pending (set_result fut stopped futures)

-- `_stop`; the exceptions that it schedules are set before anything else runs
unfoldable pub stop : Backend → Backend
stop s = record s {
  port_open = false;
  reader_alive = false;
  futures = fail_all s.pending s.futures;
  pending = [];
  discover_state = [];
}

-- one user more, with the callbacks that it brings
abbrev pub counted : Bool → Bool → Backend → Backend
counted on_adv on_conn_event s = record s {
  refcount = s.refcount + 1;
  on_adv = on_adv || s.on_adv;
  on_conn_event = on_conn_event || s.on_conn_event;
}

-- `acquire`; the count stays raised when `_start` fails
unfoldable pub acquire : Bool → Bool → Bool → Backend → Result (Unit {0}) × Backend
unfolding start
acquire can_open on_adv on_conn_event s =
    if s.refcount + 1 ==ℕ 1
    then start can_open (counted on_adv on_conn_event s)
    else (ok tt, counted on_adv on_conn_event s)

-- `release`; the count stays at 0 below 1
unfoldable pub release : Backend → Backend
unfolding stop
release s =
    let s' = record s { refcount = s.refcount - 1 } in if s'.refcount ==ℕ 0 then stop s' else s'
