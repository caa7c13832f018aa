-- ===== src/Serial/State.antt =====
-- The state of `ZephyrSerialBackend` of pi-ap/zephyr_serial_backend.py.
--
-- The future of a request is named by the request's id. `futures` has the reply of each future that
-- is done. `written` and `emitted` are what went to the port and to the two callbacks, in order.
use tiedie.Prelude.{
  ℕ, ℤ, Bool, false, Option, none, some, List, [], String, Dict, lookup, insert, int_eq,
}

-- a characteristic of a `CHR` line
pub record Chr : Type 0 where
  pub svc_uuid : String
  pub uuid : String
  pub props : String

pub record Discovered : Type 0 where
  pub services : List String
  pub chars : List Chr

pub data Reply : Type 0 where
  done : String → List String → Reply
  discovered : Discovered → Reply
  error : String → Reply
  stopped : Reply

pub data Emitted : Type 0 where
  adv : String → ℤ → Emitted
  conn : String → Bool → Emitted

pub record Backend : Type 0 where
  pub port_open : Bool
  pub reader_alive : Bool
  pub next_id : ℕ
  pub refcount : ℕ
  pub on_adv : Bool
  pub on_conn_event : Bool
  pub pending : Dict ℤ ℤ
  pub discover_state : Dict ℤ Discovered
  pub futures : Dict ℤ Reply
  pub written : List String
  pub emitted : List Emitted

-- `__init__`
abbrev pub init : Backend
init = record {
  port_open = false;
  reader_alive = false;
  next_id = 1;
  refcount = 0;
  on_adv = false;
  on_conn_event = false;
  pending = [];
  discover_state = [];
  futures = [];
  written = [];
  emitted = [];
}

abbrev pub keep_first : Option Reply → Dict ℤ Reply → Dict ℤ Reply → Dict ℤ Reply
keep_first none old new = new
keep_first (some r) old new = old

-- `if not fut.done(): fut.set_result(r)`
unfoldable pub set_result : ℤ → Reply → Dict ℤ Reply → Dict ℤ Reply
set_result fut r futures = keep_first (lookup fut futures) futures (insert fut r futures)

abbrev pub set_if_found : Option ℤ → Reply → Dict ℤ Reply → Dict ℤ Reply
set_if_found none r futures = futures
set_if_found (some fut) r futures = set_result fut r futures
