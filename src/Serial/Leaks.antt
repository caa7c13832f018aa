-- ===== src/Serial/Leaks.antt =====
-- The port and the reference count: what an orderly history keeps, and what a failed `acquire`
-- leaves behind.
use tiedie.Prelude.{
  ℕ, ◌+◌, ◌<◌, ℤ, ◌≡◌, refl, Bool, true, false, Option, none, some, List, [], ◌∷◌, String, arith,
  not, All, int_eq, ◌==ℕ◌,
}
use tiedie.Python.{raise, runtime_error}
use tiedie.Serial.State.{Backend, init, Reply, stopped}
use tiedie.Serial.Lines.{
  handle_parts, dispatch, handle_rsp, handle_rsp_id, rsp_ok, resolve, resolve_ok,
  handle_discover_parts, discover_parts_id, emit_conn_event, emit_adv,
}
use tiedie.Serial.Requests.{begin_request, finish_request, after_wait}
use tiedie.Serial.Lifecycle.{acquire, release, end_reader}
use tiedie.Serial.Runs.{Op, line, begin, finish, acquires, releases, reader_ends, step, run}

-- No open port, and a user count above `n`.
pub record IsLeakedAbove (n : ℕ) (s : Backend) : Type 0 where
  pub closed : s.port_open ≡ false
  pub no_reader : s.reader_alive ≡ false
  pub used : n < s.refcount

-- A user count above 0 with no open port.
abbrev pub IsLeaked : Backend → Type 0
IsLeaked = IsLeakedAbove 0

-- An `acquire` of a closed and unused port that fails to open it raises, and leaves the count
-- above 0 with no open port and no reader.
pub acquire_failed :
    (s : Backend) (a e : Bool)
    → s.refcount ≡ 0
    → s.port_open ≡ false
    → s.reader_alive ≡ false
    → ((acquire false a e s).0 ≡ raise runtime_error) × IsLeaked (acquire false a e s).1
unfolding acquire
acquire_failed s a e none_used closed no_reader = ground arith

-- What an RPC does with the transport: acquire it, send one request, wait for it, release it.
abbrev pub rpc : Bool → Bool → Bool → List String → ℤ → List Op
rpc can_open a e parts req_id = acquires can_open a e ∷ begin parts ∷ finish req_id ∷ releases ∷ []

acquire-IsLeakedAbove :
    (n : ℕ) (s : Backend) (can_open a e : Bool)
    → IsLeakedAbove n s
    → IsLeakedAbove (n + 1) (acquire can_open a e s).1
unfolding acquire
acquire-IsLeakedAbove n s can_open a e leaked = ground arith

begin-IsLeakedAbove :
    (n : ℕ) (s : Backend) (parts : List String)
    → IsLeakedAbove n s
    → ((begin_request parts s).0 ≡ raise runtime_error) × IsLeakedAbove n (begin_request parts s).1
unfolding begin_request
begin-IsLeakedAbove n s parts leaked = ground arith

after_wait-IsLeakedAbove :
    (n : ℕ) (req_id : ℤ) (o : Option Reply) (s : Backend)
    → IsLeakedAbove n s
    → IsLeakedAbove n (after_wait req_id o s).1
after_wait-IsLeakedAbove n req_id none s leaked = ground arith
after_wait-IsLeakedAbove n req_id (some stopped) s leaked = leaked
after_wait-IsLeakedAbove n req_id (some _) s leaked = leaked

release-IsLeakedAbove :
    (n : ℕ) (s : Backend) → IsLeakedAbove (n + 1) s → IsLeakedAbove n (release s)
unfolding release
release-IsLeakedAbove n s leaked = ground arith

-- When the count is above 0 with no open port and no reader, an RPC raises at its request, even if
-- the port could now be opened, and leaves the transport like that.
pub rpc-IsLeaked :
    (s : Backend) (can_open a e : Bool) (parts : List String) (req_id : ℤ)
    → IsLeaked s
    → ((begin_request parts (acquire can_open a e s).1).0 ≡ raise runtime_error)
      × IsLeaked (run (rpc can_open a e parts req_id) s)
unfolding run step finish_request
rpc-IsLeaked s can_open a e parts req_id leaked =
    let begun =
      begin-IsLeakedAbove 1 (acquire can_open a e s).1 parts
        (acquire-IsLeakedAbove 0 s can_open a e leaked) in
    (begun.0, release-IsLeakedAbove 0 _ (after_wait-IsLeakedAbove 1 req_id _ _ begun.1))

-- The port is open exactly while somebody uses it, and a reader has an open port.
pub record IsOrderly (s : Backend) : Type 0 where
  pub reader : s.reader_alive ≡ true → s.port_open ≡ true
  pub in_use : s.port_open ≡ not (s.refcount ==ℕ 0)

-- The port has a reader exactly while it is open.
abbrev pub IsRead : Backend → Type 0
IsRead s = s.reader_alive ≡ s.port_open

-- A step at which the port can be opened.
abbrev pub CanOpen : Op → Type 0
CanOpen (acquires can_open a e) = can_open ≡ true
CanOpen _ = Unit

-- A step at which the reader does not end by itself.
abbrev pub KeepsReader : Op → Type 0
KeepsReader reader_ends = ⊥
KeepsReader _ = Unit

acquire-IsOrderly : (s : Backend) (a e : Bool) → IsOrderly s → IsOrderly (acquire true a e s).1
unfolding acquire
acquire-IsOrderly s a e h = ground arith

release-IsOrderly : (s : Backend) → IsOrderly s → IsOrderly (release s)
unfolding release
release-IsOrderly s h = ground arith

-- The fields that no line changes.
pub record SamePort (s t : Backend) : Type 0 where
  pub port_open : t.port_open ≡ s.port_open
  pub reader_alive : t.reader_alive ≡ s.reader_alive
  pub refcount : t.refcount ≡ s.refcount
  pub next_id : t.next_id ≡ s.next_id

dispatch-SamePort : (parts : List String) (s : Backend) → SamePort s (dispatch parts s)
unfolding dispatch handle_rsp handle_rsp_id rsp_ok resolve resolve_ok handle_discover_parts
    discover_parts_id emit_conn_event
dispatch-SamePort parts s = ground arith

pub handle_parts-SamePort : (parts : List String) (s : Backend) → SamePort s (handle_parts parts s)
unfolding handle_parts emit_adv
handle_parts-SamePort parts s = ground (arith, dispatch-SamePort parts s)

pub begin-SamePort :
    (parts : List String) (s : Backend)
    → ((begin_request parts s).1.port_open ≡ s.port_open)
      × ((begin_request parts s).1.reader_alive ≡ s.reader_alive)
      × ((begin_request parts s).1.refcount ≡ s.refcount)
unfolding begin_request
begin-SamePort parts s = ground arith

pub finish-SamePort : (req_id : ℤ) (s : Backend) → SamePort s (finish_request req_id s).1
unfolding finish_request
finish-SamePort req_id s = ground arith

step-IsOrderly : (op : Op) (s : Backend) → CanOpen op → IsOrderly s → IsOrderly (step op s)
unfolding step end_reader
step-IsOrderly (line parts) s can h = ground (arith, handle_parts-SamePort parts s)
step-IsOrderly (begin parts) s can h = ground (arith, begin-SamePort parts s)
step-IsOrderly (finish req_id) s can h = ground (arith, finish-SamePort req_id s)
step-IsOrderly (acquires can_open a e) s can h = rw can (acquire-IsOrderly s a e h)
step-IsOrderly releases s can h = release-IsOrderly s h
step-IsOrderly reader_ends s can h = record { reader = λ e. cc; in_use = h.in_use }

acquire-IsRead : (s : Backend) (a e : Bool) → IsOrderly s → IsRead s → IsRead (acquire true a e s).1
unfolding acquire
acquire-IsRead s a e h r = ground arith

release-IsRead : (s : Backend) → IsRead s → IsRead (release s)
unfolding release
release-IsRead s r = ground arith

step-IsRead :
    (op : Op) (s : Backend)
    → CanOpen op
    → KeepsReader op
    → IsOrderly s
    → IsRead s
    → IsRead (step op s)
unfolding step
step-IsRead (line parts) s can keeps h r = ground (arith, handle_parts-SamePort parts s)
step-IsRead (begin parts) s can keeps h r = ground (arith, begin-SamePort parts s)
step-IsRead (finish req_id) s can keeps h r = ground (arith, finish-SamePort req_id s)
step-IsRead (acquires can_open a e) s can keeps h r = rw can (acquire-IsRead s a e h r)
step-IsRead releases s can keeps h r = release-IsRead s r
step-IsRead reader_ends s can keeps h r = elim keeps [ ]

run-IsOrderly :
    (ops : List Op) (s : Backend) → All CanOpen ops → IsOrderly s → IsOrderly (run ops s)
unfolding run
run-IsOrderly [] s can h = h
run-IsOrderly (op ∷ ops) s can h = run-IsOrderly ops (step op s) can.1 (step-IsOrderly op s can.0 h)

run-IsRead :
    (ops : List Op) (s : Backend)
    → All CanOpen ops
    → All KeepsReader ops
    → IsOrderly s
    → IsRead s
    → IsRead (run ops s)
unfolding run
run-IsRead [] s can keeps h r = r
run-IsRead (op ∷ ops) s can keeps h r =
    run-IsRead ops (step op s) can.1 keeps.1 (step-IsOrderly op s can.0 h)
      (step-IsRead op s can.0 keeps.0 h r)

-- As long as the port can be opened when it is acquired, it is open exactly while the reference
-- count is not 0, and a reader has an open port, whatever the order of lines, requests, acquires,
-- releases and failures of the reader. If the reader never fails, then the port has a reader exactly
-- while it is open.
pub run-init-IsOrderly :
    (ops : List Op)
    → All CanOpen ops
    → IsOrderly (run ops init) × (All KeepsReader ops → IsRead (run ops init))
run-init-IsOrderly ops can =
    (run-IsOrderly ops init can unused, λ keeps. run-IsRead ops init can keeps unused refl)
  where
    unused : IsOrderly init
    unused = record { reader = λ e. e; in_use = refl }
