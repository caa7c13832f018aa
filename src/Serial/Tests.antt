-- ===== src/Serial/Tests.antt =====
-- Runs of the serial transport, and its theorems at concrete inputs.
use tiedie.Prelude.{
  pos, negsuc, ◌≡◌, ◌≢◌, refl, true, false, none, some, List, [], ◌∷◌, String, arith, inl, inr,
  lookup, int_eq, int_of_text, hexlify, upper, split, strip, count_char, has_char, decimal, join,
  All,
}
use tiedie.Python.{ok, raise, runtime_error, ◌>>=◌}
use tiedie.Serial.State.{Backend, discovered, error, adv, init}
use tiedie.Serial.Lines.{part, parts_of, adv_fields, handle_parts, handle_line, emit_adv}
use tiedie.Serial.Requests.{begin_request, finish_request, read_result, read_parts, write_parts}
use tiedie.Serial.Lifecycle.{acquire}
use tiedie.Serial.Runs.{Op, line, begin, acquires, releases, reader_ends, step, run}
use tiedie.Serial.Isolation.{Same, handle_parts-Same}
use tiedie.Serial.Invariant.{IsValid, init-IsValid, Inv-OwnFutures}
use tiedie.Serial.Replies.{run-IsValid, run-KeepsReplies, step-Keeps}
use tiedie.Serial.Leaks.{
  IsLeaked, acquire_failed, rpc, rpc-IsLeaked, IsOrderly, IsRead, KeepsReader, run-init-IsOrderly,
}
use tiedie.Serial.Discovery.{
  IsPartFor, IsBetween, lines_of, discover_begin, discover_end, discovery-delivers,
}
use tiedie.Serial.Transfer.{begin-is_new, read_round_trip}

-- An open port with one user.
abbrev opened : Backend
opened = record init { port_open = true; reader_alive = true; refcount = 1; on_adv = true }

opened-IsValid : IsValid opened
opened-IsValid = init-IsValid

id_one : int_of_text "1" ≡ some (pos 1)
unfolding int_of_text
id_one = refl

other_id : int_of_text "7" ≢ some (pos 1)
unfolding int_of_text
other_id h = ground arith

int_texts :
    (int_of_text "-12" ≡ some (negsuc 11))
    × (int_of_text "1_0" ≡ some (pos 10))
    × (int_of_text "1__0" ≡ none)
    × (int_of_text "" ≡ none)
unfolding int_of_text
int_texts = (refl, refl, refl, refl)

write_line :
    (begin_request (write_parts "AA:BB" "2a39" (0 ∷ 255 ∷ [])) opened).1.written
    ≡ "REQ,1,WRITE,AA:BB,2a39,00ff\n" ∷ []
unfolding begin_request decimal join strip hexlify
write_line = refl

adv_line :
    (handle_line "ADV,12.5,AA:BB:CC:DD:EE:FF, -60" opened).emitted
    ≡ adv "AA:BB:CC:DD:EE:FF" (negsuc 59) ∷ []
unfolding handle_line parts_of split strip upper handle_parts adv_fields has_char count_char
    emit_adv int_of_text
adv_line = refl

old_adv_line :
    (handle_line "adv,AA:BB:CC:DD:EE:FF,-60,31" opened).emitted
    ≡ adv "AA:BB:CC:DD:EE:FF" (negsuc 59) ∷ []
unfolding handle_line parts_of split strip upper handle_parts adv_fields has_char count_char
    emit_adv int_of_text
old_adv_line = refl

read_round_trip_example :
    ((finish_request (pos 1) (
        step (line ("RSP" ∷ "1" ∷ "OK" ∷ "READ" ∷ hexlify (1 ∷ 255 ∷ []) ∷ [])) (
          run
            (lines_of (("RSP" ∷ "7" ∷ "ERR" ∷ "busy" ∷ []) ∷ []))
            (begin_request (read_parts "AA:BB" "2a38") opened).1))).0
      >>= read_result)
    ≡ ok (1 ∷ 255 ∷ [])
unfolding part
read_round_trip_example =
    read_round_trip "AA:BB" "2a38" "1" (1 ∷ 255 ∷ []) (("RSP" ∷ "7" ∷ "ERR" ∷ "busy" ∷ []) ∷ [])
      opened opened-IsValid refl id_one (other_id, tt) (omega arith)

run-IsValid_example :
    IsValid (run (acquires true true false ∷ begin ("CONNECT" ∷ "AA:BB" ∷ []) ∷ releases ∷ []) init)
run-IsValid_example =
    run-IsValid (acquires true true false ∷ begin ("CONNECT" ∷ "AA:BB" ∷ []) ∷ releases ∷ [])

-- A request that has been answered with an error.
abbrev answered : Backend
answered = record opened { next_id = 2; futures = (pos 1, error "busy") ∷ [] }

run-KeepsReplies_example :
    lookup
      (pos 1)
      (run (line ("RSP" ∷ "1" ∷ "OK" ∷ "CONNECT" ∷ []) ∷ releases ∷ []) answered).futures
    ≡ some (error "busy")
unfolding lookup
run-KeepsReplies_example =
    run-KeepsReplies (line ("RSP" ∷ "1" ∷ "OK" ∷ "CONNECT" ∷ []) ∷ releases ∷ []) answered (pos 1)
      (error "busy") refl

handle_parts-Same_example :
    Same (pos 1) opened (handle_parts ("RSP" ∷ "7" ∷ "ERR" ∷ "busy" ∷ []) opened)
unfolding part
handle_parts-Same_example =
    handle_parts-Same (pos 1) opened (Inv-OwnFutures opened-IsValid)
      ("RSP" ∷ "7" ∷ "ERR" ∷ "busy" ∷ []) other_id

rpc-IsLeaked_example :
    ((begin_request
        ("CONNECT" ∷ "AA:BB" ∷ [])
        (acquire true false false (acquire false true false init).1).1).0
      ≡ raise runtime_error)
    × IsLeaked (
        run
          (rpc true false false ("CONNECT" ∷ "AA:BB" ∷ []) (pos 1))
          (acquire false true false init).1)
rpc-IsLeaked_example =
    rpc-IsLeaked (acquire false true false init).1 true false false ("CONNECT" ∷ "AA:BB" ∷ [])
      (pos 1) (acquire_failed init true false refl refl refl).1

-- The reader fails while two users share the port.
abbrev shared : List Op
shared = acquires true true false ∷ acquires true false false ∷ reader_ends ∷ releases ∷ []

run-init-IsOrderly_example :
    IsOrderly (run shared init) × (All KeepsReader shared → IsRead (run shared init))
run-init-IsOrderly_example = run-init-IsOrderly shared (refl, (refl, (tt, (tt, tt))))

-- Request 1 waits.
abbrev waiting : Backend
waiting = (begin_request ("DISCOVER" ∷ "AA:BB" ∷ []) opened).1

waiting-IsValid : IsValid waiting
unfolding step
waiting-IsValid = (step-Keeps (begin ("DISCOVER" ∷ "AA:BB" ∷ [])) opened).valid opened-IsValid

abbrev service_line : List String
service_line = "SVC" ∷ "1" ∷ "180d" ∷ []

service_part : IsPartFor (pos 1) service_line
unfolding adv_fields upper part int_of_text count_char
service_part = record { no_adv = refl; long = refl; kind = refl; no_rsp = refl; id = refl }

abbrev between_lines : List (List String)
between_lines = service_line ∷ ("RSP" ∷ "7" ∷ "ERR" ∷ "busy" ∷ []) ∷ []

between_ok : All (IsBetween (pos 1)) between_lines
unfolding part
between_ok = (inl service_part, (inr other_id, tt))

discovery-delivers_example :
    lookup
      (pos 1)
      (step
        (line (discover_end "1"))
        (run (lines_of between_lines) (step (line (discover_begin "1")) waiting))).futures
    ≡ some (discovered (record { services = "180d" ∷ []; chars = [] }))
unfolding upper part between_ok
discovery-delivers_example =
    discovery-delivers (pos 1) "1" between_lines between_ok waiting id_one waiting-IsValid
      (begin-is_new ("DISCOVER" ∷ "AA:BB" ∷ []) opened opened-IsValid refl).2
