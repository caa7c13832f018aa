-- ===== src/Serial/Lines.antt =====
-- What the event loop does with one line from the dongle: `_handle_line`, `_emit_adv`,
-- `_emit_conn_event`, `_handle_rsp` and `_handle_discover_parts`.
use tiedie.Prelude.{
  ℕ, zero, suc, ℤ, Bool, true, false, ◌&&◌, ◌||◌, Option, none, some, List, [], ◌∷◌, ◌++◌, map,
  String, ◌==◌, ◌==ℕ◌, leb, if◌then◌else◌, length, has_char, count_char, split, strip, upper,
  int_of_text, lookup, insert, erase, int_eq,
}
use tiedie.Serial.State.{
  Chr, Discovered, Reply, done, discovered, error, adv, conn, Backend, set_if_found,
}

-- `parts[i]`, which the code reads only below the length
unfoldable pub part : List String → ℕ → String
part [] i = ""
part (p ∷ ps) zero = p
part (p ∷ ps) (suc i) = part ps i

unfoldable pub parts_of : String → List String
parts_of line = map strip (split b',' line)

-- The address and the RSSI of an advertisement line, in any of its three forms:
-- ADV,<ts>,<mac>,<rssi>; ADV,<mac>,<rssi>,<len>; <mac>,<rssi>,<len>.
unfoldable pub adv_fields : List String → Option (String × String)
unfolding part
adv_fields parts =
    if leb 4 (length parts) && upper (part parts 0) == "ADV"
    then (if has_char b'.' (part parts 1) && count_char b':' (part parts 2) ==ℕ 5
        then some (part parts 2, part parts 3)
        else if count_char b':' (part parts 1) ==ℕ 5
        then some (part parts 1, part parts 2)
        else none)
    else if length parts ==ℕ 3 && count_char b':' (part parts 0) ==ℕ 5
    then some (part parts 0, part parts 1)
    else none

abbrev pub emit_rssi : String → Option ℤ → Backend → Backend
emit_rssi mac none s = s
emit_rssi mac (some rssi) s = record s { emitted = s.emitted ++ adv mac rssi ∷ [] }

unfoldable pub emit_adv : String → String → Backend → Backend
emit_adv mac rssi_str s = if s.on_adv then emit_rssi mac (int_of_text rssi_str) s else s

unfoldable pub emit_conn_event : String → Bool → Backend → Backend
emit_conn_event mac connected s =
    if s.on_conn_event then record s { emitted = s.emitted ++ conn mac connected ∷ [] } else s

-- Takes the request out of both tables and gives its future the reply.
unfoldable pub resolve : ℤ → Reply → Backend → Backend
resolve req_id r s = record s {
  pending = erase req_id s.pending;
  discover_state = erase req_id s.discover_state;
  futures = set_if_found (lookup req_id s.pending) r s.futures;
}

-- A generic OK leaves the discovery table alone.
unfoldable pub resolve_ok : ℤ → Reply → Backend → Backend
resolve_ok req_id r s = record s {
  pending = erase req_id s.pending;
  futures = set_if_found (lookup req_id s.pending) r s.futures;
}

abbrev pub no_services : Discovered
no_services = record { services = []; chars = [] }

abbrev pub or_empty : Option Discovered → Discovered
or_empty none = no_services
or_empty (some d) = d

-- `parts[3:]`
unfoldable pub from_third : List String → List String
from_third (a ∷ b ∷ c ∷ rest) = rest
from_third _ = []

abbrev pub tag_of : List String → String
tag_of parts = if leb 4 (length parts) then upper (part parts 3) else ""

unfoldable pub rsp_ok : ℤ → List String → Backend → Backend
unfolding part from_third
rsp_ok req_id parts s =
    if tag_of parts == "DISCOVER_BEGIN"
    then record s { discover_state = insert req_id no_services s.discover_state }
    else if tag_of parts == "DISCOVER_END"
    then resolve req_id (discovered (or_empty (lookup req_id s.discover_state))) s
    else resolve_ok req_id (done (tag_of parts) (from_third parts)) s

unfoldable pub handle_rsp_id : Option ℤ → List String → Backend → Backend
handle_rsp_id none parts s = s
handle_rsp_id (some req_id) parts s =
    if upper (part parts 2) == "ERR"
    then resolve req_id (error (if leb 4 (length parts) then part parts 3 else "")) s
    else if upper (part parts 2) == "OK"
    then rsp_ok req_id parts s
    else s

unfoldable pub handle_rsp : List String → Backend → Backend
unfolding part handle_rsp_id
handle_rsp parts s = handle_rsp_id (int_of_text (part parts 1)) parts s

abbrev pub chr_of : List String → Chr
chr_of parts = record { svc_uuid = part parts 2; uuid = part parts 3; props = part parts 4 }

-- The discovery with the service or the characteristic of the line at its end.
unfoldable pub with_part : List String → Discovered → Discovered
unfolding part
with_part parts d =
    if upper (part parts 0) == "SVC"
    then record d { services = d.services ++ part parts 2 ∷ [] }
    else if upper (part parts 0) == "CHR" && leb 5 (length parts)
    then record d { chars = d.chars ++ chr_of parts ∷ [] }
    else d

abbrev pub put_part : ℤ → List String → Option Discovered → Backend → Backend
put_part req_id parts none s = s
put_part req_id parts (some d) s = record s {
  discover_state = insert req_id (with_part parts d) s.discover_state;
}

unfoldable pub discover_parts_id : Option ℤ → List String → Backend → Backend
discover_parts_id none parts s = s
discover_parts_id (some req_id) parts s = put_part req_id parts (lookup req_id s.discover_state) s

unfoldable pub handle_discover_parts : List String → Backend → Backend
unfolding part discover_parts_id
handle_discover_parts parts s = discover_parts_id (int_of_text (part parts 1)) parts s

-- The lines that are no advertisement.
unfoldable pub dispatch : List String → Backend → Backend
unfolding part
dispatch parts s =
    if leb 3 (length parts) && upper (part parts 0) == "RSP"
    then handle_rsp parts s
    else if leb 3 (length parts) && (upper (part parts 0) == "SVC" || upper (part parts 0) == "CHR")
    then handle_discover_parts parts s
    else if leb 3 (length parts) && upper (part parts 0) == "EVENT"
    then (if upper (part parts 1) == "CONNECT"
        then emit_conn_event (part parts 2) true s
        else if upper (part parts 1) == "DISCONNECT"
        then emit_conn_event (part parts 2) false s
        else s)
    else s

abbrev pub adv_or_dispatch : Option (String × String) → List String → Backend → Backend
adv_or_dispatch (some (mac, rssi_str)) parts s = emit_adv mac rssi_str s
adv_or_dispatch none parts s = dispatch parts s

unfoldable pub handle_parts : List String → Backend → Backend
handle_parts parts s = adv_or_dispatch (adv_fields parts) parts s

unfoldable pub handle_line : String → Backend → Backend
handle_line line s = handle_parts (parts_of line) s
