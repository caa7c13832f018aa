-- ===== src/Server/Balance.antt =====
-- What a request of the server does to the number of users of the backend.
use tiedie.Prelude.{
  All, [], ◌∷◌, ◌≡◌, refl, ap, ◌∙◌, ℕ, ℤ, zero, suc, ◌+◌, ◌-◌, Bool, true, false, Option, List,
  String, arith, if_induction,
}
use tiedie.Python.{Exc, Result, ok, raise}
use tiedie.Serial.State.{Backend, Discovered}
use tiedie.Serial.Lifecycle.{acquire, release, end_reader}
use tiedie.Serial.Requests.{
  begin_request, connect_parts, disconnect_parts, discover_parts, read_parts, write_parts,
}
use tiedie.Serial.Runs.{Op, line, begin, finish, acquires, releases, reader_ends, step, run}
use tiedie.Serial.Leaks.{handle_parts-SamePort, begin-SamePort, finish-SamePort}
use tiedie.Server.Dongle.{KeepsUsers, waited, request, dongle}
use tiedie.Server.Discovery.{Services}
use tiedie.Server.Outcomes.{released_ok}
use tiedie.Server.Calls.{
  Requests, Error, no_error, failed, Response, released, answered, or_next, or_retry, is_close,
  call_timeout, connect_loop, connect, discover_loop, discover, read, write, disconnect,
}

-- The requests to the dongle neither acquire nor release.
pub record KeepsCount (backend : Requests) : Type 0 where
  pub connect : (m : String) (s : Backend) → (backend.connect m s).1.refcount ≡ s.refcount
  pub discover :
      (m : String) (t : Option ℕ) (s : Backend) → (backend.discover m t s).1.refcount ≡ s.refcount
  pub read : (m c : String) (s : Backend) → (backend.read m c s).1.refcount ≡ s.refcount
  pub write :
      (m c : String) (v : List ℕ) (s : Backend) → (backend.write m c v s).1.refcount ≡ s.refcount
  pub disconnect : (m : String) (s : Backend) → (backend.disconnect m s).1.refcount ≡ s.refcount

acquire-refcount :
    (can_open : Bool) (s : Backend) → (acquire can_open false false s).1.refcount ≡ s.refcount + 1
unfolding acquire
acquire-refcount can_open s = ground arith

release-refcount : (s : Backend) → (release s).refcount ≡ s.refcount - 1
unfolding release
release-refcount s = ground arith

released-refcount :
    {A : Type 0} (body : Backend → Response A × Backend) (can_open : Bool) (s : Backend)
    → ((t : Backend) → (body t).1.refcount ≡ t.refcount)
    → (acquire can_open false false s).0 ≡ ok tt
    → (released (acquire can_open false false s) body).1.refcount ≡ s.refcount
released-refcount body can_open s keeps opened =
    ap (λ r. r.1.refcount) (released_ok (acquire can_open false false s) body opened)
    ∙ omega (
      arith,
      release-refcount (body (acquire can_open false false s).1).1,
      keeps (acquire can_open false false s).1,
      acquire-refcount can_open s,
    )

answered-refcount : {A : Type 0} (r : Result A × Backend) → (answered r).1.refcount ≡ r.1.refcount
answered-refcount (ok a, s) = refl
answered-refcount (raise e, s) = refl

module _ (backend : Requests) (kept : KeepsCount backend) where
  or_next-refcount :
      (r : Result (Unit {0}) × Backend) (next : Error → Backend → Response (Unit {0}) × Backend)
      → ((e : Error) (t : Backend) → (next e t).1.refcount ≡ t.refcount)
      → (or_next r next).1.refcount ≡ r.1.refcount
  or_next-refcount (ok u, s) next h = refl
  or_next-refcount (raise e, s) next h = h (failed e) s

  connect_loop-refcount :
      (n : ℕ) (m : String) (e : Error) (s : Backend)
      → (connect_loop backend n m e s).1.refcount ≡ s.refcount
  unfolding connect_loop
  connect_loop-refcount zero m e s = refl
  connect_loop-refcount (suc n) m e s =
      or_next-refcount (backend.connect m s) (connect_loop backend n m) (connect_loop-refcount n m)
      ∙ kept.connect m s

  module _ (request_timeout : ℕ) (before after : ℕ → Option ℤ) where
    or_retry-refcount :
        (r : Result Discovered × Backend) (close : Bool)
        (next : Error → Backend → Response Services × Backend)
        → ((e : Error) (t : Backend) → (next e t).1.refcount ≡ t.refcount)
        → (or_retry backend request_timeout before after r close next).1.refcount ≡ r.1.refcount
    or_retry-refcount (ok snapshot, s) close next h = refl
    or_retry-refcount (raise e, s) true next h = refl
    or_retry-refcount (raise e, s) false next h = h (failed e) s

    discover_loop-refcount :
        (n attempt : ℕ) (m : String) (e : Error) (s : Backend)
        → (discover_loop backend request_timeout before after n attempt m e s).1.refcount
          ≡ s.refcount
    unfolding discover_loop
    discover_loop-refcount zero attempt m e s = refl
    discover_loop-refcount (suc n) attempt m e s =
        if_induction (λ (t : Response Services × Backend). t.1.refcount ≡ s.refcount)
          (is_close (before attempt)) refl
          (or_retry-refcount (backend.discover m (call_timeout request_timeout (before attempt)) s)
              (is_close (after attempt))
              (discover_loop backend request_timeout before after n (attempt + 1) m)
              (discover_loop-refcount n (attempt + 1) m)
            ∙ kept.discover m _ s)

module _ (meanwhile : ℕ → List Op) (quiet : (n : ℕ) → All KeepsUsers (meanwhile n)) where
  step-refcount : (op : Op) (s : Backend) → KeepsUsers op → (step op s).refcount ≡ s.refcount
  unfolding step end_reader
  step-refcount (line parts) s h = (handle_parts-SamePort parts s).refcount
  step-refcount (begin parts) s h = (begin-SamePort parts s).2
  step-refcount (finish req_id) s h = (finish-SamePort req_id s).refcount
  step-refcount (acquires can_open a e) s h = elim h [ ]
  step-refcount releases s h = elim h [ ]
  step-refcount reader_ends s h = refl

  run-refcount :
      (ops : List Op) (s : Backend) → All KeepsUsers ops → (run ops s).refcount ≡ s.refcount
  unfolding run
  run-refcount [] s h = refl
  run-refcount (op ∷ ops) s (h, hs) = run-refcount ops (step op s) hs ∙ step-refcount op s h

  waited-refcount :
      (n : ℕ) (r : Result ℤ × Backend) → (waited meanwhile n r).1.refcount ≡ r.1.refcount
  waited-refcount n (ok req_id, s) =
      (finish-SamePort req_id (run (meanwhile n) s)).refcount
      ∙ run-refcount (meanwhile n) s (quiet n)
  waited-refcount n (raise e, s) = refl

  request-refcount :
      (parts : List String) (s : Backend) → (request meanwhile parts s).1.refcount ≡ s.refcount
  unfolding request
  request-refcount parts s =
      waited-refcount s.next_id (begin_request parts s) ∙ (begin-SamePort parts s).2

  dongle-KeepsCount : KeepsCount (dongle meanwhile)
  unfolding dongle
  dongle-KeepsCount = record {
    connect = λ m s. request-refcount (connect_parts m) s;
    discover = λ m t s. request-refcount (discover_parts m) s;
    read = λ m c s. request-refcount (read_parts m c) s;
    write = λ m c v s. request-refcount (write_parts m c v) s;
    disconnect = λ m s. request-refcount (disconnect_parts m) s;
  }

-- What a request does to the count of users: it gives back what it acquired. When it could not
-- acquire the backend it raises, and the count stays raised.
pub record IsBalanced {A : Type 0} (can_open : Bool) (s : Backend) (r : Result A × Backend)
    : Type 0 where
  pub given_back : (acquire can_open false false s).0 ≡ ok tt → r.1.refcount ≡ s.refcount
  pub kept :
      (e : Exc)
      → (acquire can_open false false s).0 ≡ raise e
      → (r.0 ≡ raise e) × (r.1.refcount ≡ s.refcount + 1)

released_raise :
    {A : Type 0} (r : Result (Unit {0}) × Backend) (body : Backend → Response A × Backend) (e : Exc)
    → r.0 ≡ raise e
    → released r body ≡ (raise e, r.1)
released_raise (ok u, s) body e h = cc
released_raise (raise x, s) body e h = cc

with_backend-IsBalanced :
    {A : Type 0} (body : Backend → Response A × Backend) (can_open : Bool) (s : Backend)
    → ((t : Backend) → (body t).1.refcount ≡ t.refcount)
    → IsBalanced can_open s (released (acquire can_open false false s) body)
with_backend-IsBalanced body can_open s keeps = record {
  given_back = released-refcount body can_open s keeps;
  kept = λ e h. (
    ap (λ r. r.0) (released_raise (acquire can_open false false s) body e h),
    ap (λ r. r.1.refcount) (released_raise (acquire can_open false false s) body e h)
        ∙ acquire-refcount can_open s,
  );
}

-- The requests of the server over the serial line, where no user comes or goes while a command
-- waits: whatever lines, other commands and failures of the reader come in between, whatever the
-- attempts give and whatever deadline there is, each of the five requests leaves the number of
-- users as it found it if it could acquire the backend. If it could not, it raises and leaves the
-- number one higher.
pub requests_balance :
    (meanwhile : ℕ → List Op) (can_open : Bool) (mac characteristic : String) (value : List ℕ)
    (retries : ℤ) (request_timeout : ℕ) (before after : ℕ → Option ℤ) (s : Backend)
    → ((n : ℕ) → All KeepsUsers (meanwhile n))
    → IsBalanced can_open s (connect (dongle meanwhile) can_open mac retries s)
      × IsBalanced can_open s
          (discover (dongle meanwhile) request_timeout before after can_open mac retries s)
      × IsBalanced can_open s (read (dongle meanwhile) can_open mac characteristic s)
      × IsBalanced can_open s (write (dongle meanwhile) can_open mac characteristic value s)
      × IsBalanced can_open s (disconnect (dongle meanwhile) can_open mac s)
unfolding connect discover read write disconnect
requests_balance meanwhile can_open mac characteristic value retries request_timeout before after s
      quiet =
    let backend = dongle meanwhile in
    let kept = dongle-KeepsCount meanwhile quiet in
    (
      with_backend-IsBalanced _ can_open s (connect_loop-refcount backend kept _ mac no_error),
      with_backend-IsBalanced _ can_open s
          (discover_loop-refcount backend kept request_timeout before after _ 0 mac no_error),
      with_backend-IsBalanced _ can_open s (λ t.
          answered-refcount (backend.read mac characteristic t) ∙ kept.read mac characteristic t),
      with_backend-IsBalanced _ can_open s (λ t.
          answered-refcount (backend.write mac characteristic value t)
          ∙ kept.write mac characteristic value t),
      with_backend-IsBalanced _ can_open s
          (λ t. answered-refcount (backend.disconnect mac t) ∙ kept.disconnect mac t),
    )
