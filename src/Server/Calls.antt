-- ===== src/Server/Calls.antt =====
-- The requests `Connect`, `Discover`, `Read`, `Write` and `Disconnect` of pi-ap/grpc_server.py: each
-- acquires the backend, calls it and releases it. `acquire` and `release` are those of
-- `Serial.Lifecycle`; a request to the dongle waits, so what it does to the backend meanwhile is an
-- argument. Times are in milliseconds.
use tiedie.Prelude.{
  ℕ, ℤ, pos, negsuc, zero, suc, ◌+◌, ◌-◌, Bool, true, false, Option, none, some, List, String,
  if◌then◌else◌, leb,
}
use tiedie.Python.{Exc, Result, ok, raise}
use tiedie.Serial.State.{Backend, Discovered}
use tiedie.Serial.Lifecycle.{acquire, release}
use tiedie.Server.Discovery.{Services, assemble}

-- the methods of the backend that send a command to the dongle
pub record Requests : Type 0 where
  pub connect : String → Backend → Result (Unit {0}) × Backend
  -- with the time that it may take, if it is limited
  pub discover : String → Option ℕ → Backend → Result Discovered × Backend
  pub read : String → String → Backend → Result (List ℕ) × Backend
  pub write : String → String → List ℕ → Backend → Result (Unit {0}) × Backend
  pub disconnect : String → Backend → Result (Unit {0}) × Backend

-- What a response says of an error: none, an exception, or that the deadline is too close.
pub data Error : Type 0 where
  no_error too_close : Error
  failed : Exc → Error

-- the outcome of a request, with its value if it succeeded
pub data Response (A : Type 0) : Type 0 where
  succeeded : A → Response A
  error : Error → Response A

-- `max(0, int(request.retries))`
abbrev pub retries_of : ℤ → ℕ
retries_of (pos n) = n
retries_of (negsuc n) = 0

module _ {A : Type 0} where
  -- `await acquire()`, then `try: …` and `finally: await release()`
  abbrev pub released :
      Result (Unit {0}) × Backend → (Backend → Response A × Backend) → Result (Response A) × Backend
  released (raise e, s) body = (raise e, s)
  released (ok _, s) body = let r = body s in (ok r.0, release r.1)

  abbrev pub with_backend :
      Bool → (Backend → Response A × Backend) → Backend → Result (Response A) × Backend
  with_backend can_open body s = released (acquire can_open false false s) body

  -- one call: what it raises is the error of the response
  abbrev pub answered : Result A × Backend → Response A × Backend
  answered (ok a, s) = (succeeded a, s)
  answered (raise e, s) = (error (failed e), s)

-- the next attempt after one that failed
abbrev pub or_next :
    Result (Unit {0}) × Backend
    → (Error → Backend → Response (Unit {0}) × Backend)
    → Response (Unit {0}) × Backend
or_next (ok _, s) next = (succeeded tt, s)
or_next (raise e, s) next = next (failed e) s

-- is the deadline too close, as `context.time_remaining()` tells it, if it does?
abbrev pub is_close : Option ℤ → Bool
is_close none = false
is_close (some (pos n)) = leb n 1000
is_close (some (negsuc n)) = true

abbrev min_of : ℕ → ℕ → ℕ
min_of a b = if leb a b then a else b

abbrev max_of : ℕ → ℕ → ℕ
max_of a b = if leb a b then b else a

-- `max(0.5, min(self._backend.request_timeout_s, remaining - 1.0))`, where there is a deadline
abbrev pub call_timeout : ℕ → Option ℤ → Option ℕ
call_timeout request_timeout none = none
call_timeout request_timeout (some (negsuc n)) = some 500
call_timeout request_timeout (some (pos n)) = some (max_of 500 (min_of request_timeout (n - 1000)))

module _ (backend : Requests) where
  -- the attempts that are left, and the last error
  unfoldable pub connect_loop : ℕ → String → Error → Backend → Response (Unit {0}) × Backend
  connect_loop zero mac_address last_error s = (error last_error, s)
  connect_loop (suc attempts) mac_address last_error s =
      or_next (backend.connect mac_address s) (connect_loop attempts mac_address)

  unfoldable pub connect : Bool → String → ℤ → Backend → Result (Response (Unit {0})) × Backend
  unfolding connect_loop
  connect can_open mac_address retries =
      with_backend can_open (connect_loop (retries_of retries + 1) mac_address no_error)

  unfoldable pub read : Bool → String → String → Backend → Result (Response (List ℕ)) × Backend
  read can_open mac_address characteristic_uuid =
      with_backend can_open (λ s. answered (backend.read mac_address characteristic_uuid s))

  unfoldable pub write :
      Bool → String → String → List ℕ → Backend → Result (Response (Unit {0})) × Backend
  write can_open mac_address characteristic_uuid value =
      with_backend can_open (λ s. answered (backend.write mac_address characteristic_uuid value s))

  unfoldable pub disconnect : Bool → String → Backend → Result (Response (Unit {0})) × Backend
  disconnect can_open mac_address =
      with_backend can_open (λ s. answered (backend.disconnect mac_address s))

  -- What `context.time_remaining()` gives before an attempt and after one that failed; its own
  -- exceptions count as no deadline.
  module _ (request_timeout : ℕ) (before after : ℕ → Option ℤ) where
    abbrev pub or_retry :
        Result Discovered × Backend
        → Bool
        → (Error → Backend → Response Services × Backend)
        → Response Services × Backend
    or_retry (ok snapshot, s) close next = (succeeded (assemble snapshot), s)
    or_retry (raise e, s) true next = (error (failed e), s)
    or_retry (raise e, s) false next = next (failed e) s

    unfoldable pub discover_loop : ℕ → ℕ → String → Error → Backend → Response Services × Backend
    discover_loop zero attempt mac_address last_error s = (error last_error, s)
    discover_loop (suc attempts) attempt mac_address last_error s =
        let next = discover_loop attempts (attempt + 1) mac_address in
        if is_close (before attempt)
        then (error too_close, s)
        else or_retry
            (backend.discover mac_address (call_timeout request_timeout (before attempt)) s)
            (is_close (after attempt)) next

    unfoldable pub discover : Bool → String → ℤ → Backend → Result (Response Services) × Backend
    unfolding discover_loop
    discover can_open mac_address retries =
        with_backend can_open (discover_loop (retries_of retries + 1) 0 mac_address no_error)
