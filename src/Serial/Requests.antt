-- ===== src/Serial/Requests.antt =====
-- Requests to the dongle: `_next_request_id`, `_write_line`, `_request` and the five commands of
-- `ZephyrSerialBackend`. A request is cut in two at its `await`: what other requests and lines do
-- in between is a sequence of steps of their own. The errors are `RuntimeError`s.
use tiedie.Prelude.{
  ℕ, ◌+◌, ℤ, pos, Option, none, some, List, [], ◌∷◌, ◌++◌, String, ◌==◌, ◌+++◌, if◌then◌else◌, join,
  strip, lookup, insert, erase, int_eq, hexlify, unhexlify, decimal,
}
use tiedie.Python.{Result, ok, raise, runtime_error}
use tiedie.Serial.State.{Discovered, Reply, done, discovered, error, stopped, Backend}
use tiedie.Serial.Lines.{no_services}

abbrev pub request_line : ℕ → List String → String
request_line req_id parts = join "," ("REQ" ∷ decimal req_id ∷ parts)

-- The part of `_request` before the `await`: the id of the request, or the error of the write.
unfoldable pub begin_request : List String → Backend → Result ℤ × Backend
begin_request parts s =
    if s.port_open
    then (
      ok (pos s.next_id),
      record s {
        next_id = s.next_id + 1;
        pending = insert (pos s.next_id) (pos s.next_id) s.pending;
        written = s.written ++ (strip (request_line s.next_id parts) +++ "\n") ∷ [];
      },
    )
    else (
      raise runtime_error,
      record s {
        next_id = s.next_id + 1;
        pending = erase (pos s.next_id) (insert (pos s.next_id) (pos s.next_id) s.pending);
      },
    )

abbrev pub after_wait : ℤ → Option Reply → Backend → Result Reply × Backend
after_wait req_id (some stopped) s = (raise runtime_error, s)
after_wait req_id (some r) s = (ok r, s)
after_wait req_id none s = (
  raise runtime_error,
  record s { pending = erase req_id s.pending; discover_state = erase req_id s.discover_state },
)

-- The end of `wait_for`: the reply if the future is done, else the timeout.
unfoldable pub finish_request : ℤ → Backend → Result Reply × Backend
finish_request req_id s = after_wait req_id (lookup req_id s.futures) s

-- What `connect`, `disconnect` and `write` make of a reply.
unfoldable pub check_ok : Reply → Result (Unit {0})
check_ok (error msg) = raise runtime_error
check_ok r = ok tt

-- What `discover` makes of a reply; a generic OK has no services.
unfoldable pub discover_result : Reply → Result Discovered
discover_result (error msg) = raise runtime_error
discover_result (discovered d) = ok d
discover_result r = ok no_services

abbrev pub bytes_or_error : Option (List ℕ) → Result (List ℕ)
bytes_or_error none = raise runtime_error
bytes_or_error (some bs) = ok bs

-- What `read` makes of a reply: RSP,id,OK,READ,<hex>.
unfoldable pub read_result : Reply → Result (List ℕ)
read_result (done tag (p ∷ hex_str ∷ rest)) =
    if tag == "READ" then bytes_or_error (unhexlify hex_str) else raise runtime_error
read_result r = raise runtime_error

abbrev pub connect_parts : String → List String
connect_parts mac_address = "CONNECT" ∷ mac_address ∷ []

abbrev pub disconnect_parts : String → List String
disconnect_parts mac_address = "DISCONNECT" ∷ mac_address ∷ []

abbrev pub discover_parts : String → List String
discover_parts mac_address = "DISCOVER" ∷ mac_address ∷ []

abbrev pub read_parts : String → String → List String
read_parts mac_address characteristic_uuid = "READ" ∷ mac_address ∷ characteristic_uuid ∷ []

abbrev pub write_parts : String → String → List ℕ → List String
write_parts mac_address characteristic_uuid value =
    "WRITE" ∷ mac_address ∷ characteristic_uuid ∷ hexlify value ∷ []
