-- ===== src/Server/Dongle.antt =====
-- The commands of `ZephyrSerialBackend` (pi-ap/zephyr_serial_backend.py) as the server calls them: a
-- request begins, other things happen while it waits, and it ends with its reply or a timeout.
use tiedie.Prelude.{ℕ, ℤ, List, String}
use tiedie.Python.{Result, ok, raise, ◌>>=◌}
use tiedie.Serial.State.{Backend, Reply}
use tiedie.Serial.Requests.{
  begin_request, finish_request, check_ok, discover_result, read_result, connect_parts,
  disconnect_parts, discover_parts, read_parts, write_parts,
}
use tiedie.Serial.Runs.{Op, acquires, releases, run}
use tiedie.Server.Calls.{Requests}

-- A step that is no user's coming or going.
abbrev pub KeepsUsers : Op → Type 0
KeepsUsers (acquires can_open on_adv on_conn_event) = ⊥
KeepsUsers releases = ⊥
KeepsUsers _ = Unit

-- `meanwhile` has, for the number of a request, the steps that happen while it waits.
module _ (meanwhile : ℕ → List Op) where
  abbrev pub waited : ℕ → Result ℤ × Backend → Result Reply × Backend
  waited n (ok req_id, s) = finish_request req_id (run (meanwhile n) s)
  waited n (raise e, s) = (raise e, s)

  unfoldable pub request : List String → Backend → Result Reply × Backend
  request parts s = waited s.next_id (begin_request parts s)

  -- A time limit for a discovery decides when the steps are over; it has no other effect.
  unfoldable pub dongle : Requests
  unfolding request
  dongle = record {
    connect = λ m s. let r = request (connect_parts m) s in (r.0 >>= check_ok, r.1);
    discover = λ m t s. let r = request (discover_parts m) s in (r.0 >>= discover_result, r.1);
    read = λ m c s. let r = request (read_parts m c) s in (r.0 >>= read_result, r.1);
    write = λ m c v s. let r = request (write_parts m c v) s in (r.0 >>= check_ok, r.1);
    disconnect = λ m s. let r = request (disconnect_parts m) s in (r.0 >>= check_ok, r.1);
  }
