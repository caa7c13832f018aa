-- ===== src/Serial/Transfer.antt =====
-- A request and its answer, from end to end.
use tiedie.Prelude.{
  ℕ, ◌<◌, ℤ, pos, ◌≡◌, ◌≢◌, refl, ◌∙◌, true, none, some, List, [], ◌∷◌, String, arith, All, lookup,
  lookup-insert, int_eq, int_beq_self, int_of_text, upper, hexlify, unhexlify, unhexlify-hexlify,
}
use tiedie.Python.{ok, ◌>>=◌}
use tiedie.Serial.State.{Backend, done}
use tiedie.Serial.Lines.{
  part, resolve_ok, rsp_ok, handle_rsp_id, handle_rsp, dispatch, adv_fields, handle_parts,
  from_third,
}
use tiedie.Serial.Requests.{begin_request, finish_request, read_result, read_parts}
use tiedie.Serial.Isolation.{handle_parts-Same}
use tiedie.Serial.Invariant.{IsValid, Inv-OwnFutures, lookup-set_result}
use tiedie.Serial.Runs.{line, begin, step, run}
use tiedie.Serial.Replies.{step-Keeps}
use tiedie.Serial.Discovery.{lines_of}

-- In a valid state with an open port, a new request gets the next id, under which no reply is
-- stored, and then waits under it.
pub begin-is_new :
    (parts : List String) (s : Backend)
    → IsValid s
    → s.port_open ≡ true
    → ((begin_request parts s).0 ≡ ok (pos s.next_id))
      × (lookup (pos s.next_id) s.futures ≡ none)
      × (lookup (pos s.next_id) (begin_request parts s).1.pending ≡ some (pos s.next_id))
unfolding begin_request
begin-is_new parts s v open_port = rw open_port (
  refl,
  v.unborn s.next_id (omega arith),
  lookup-insert (pos s.next_id) (pos s.next_id) (pos s.next_id) s.pending
      ∙ rw (int_beq_self (pos s.next_id)) refl,
)

-- Lines for other requests leave a waiting request waiting.
record IsWaiting (k : ℤ) (s : Backend) : Type 0 where
  valid : IsValid s
  pending : lookup k s.pending ≡ some k

module _ (k : ℤ) where
  lines-IsWaiting :
      (others : List (List String)) (s : Backend)
      → All (λ parts. int_of_text (part parts 1) ≢ some k) others
      → IsWaiting k s
      → IsWaiting k (run (lines_of others) s)
  unfolding run
  lines-IsWaiting [] s foreign h = h
  lines-IsWaiting (parts ∷ others) s foreign h =
      lines-IsWaiting others (step (line parts) s) foreign.1 one
    where
      one : IsWaiting k (step (line parts) s)
      one = record {
        valid = (step-Keeps (line parts) s).valid h.valid;
        pending =
            unfold step in
            (handle_parts-Same k s (Inv-OwnFutures h.valid) parts foreign.0).pending ∙ h.pending;
      }

  -- RSP,<t>,OK,READ,<hex>
  read-answer :
      (t hex : String) (s : Backend)
      → int_of_text t ≡ some k
      → IsWaiting k s
      → lookup k (step (line ("RSP" ∷ t ∷ "OK" ∷ "READ" ∷ hex ∷ [])) s).futures
        ≡ some (done "READ" ("READ" ∷ hex ∷ []))
  unfolding step handle_parts adv_fields dispatch handle_rsp handle_rsp_id rsp_ok part upper
      from_third resolve_ok
  read-answer t hex s named h =
      rw (named, handle_rsp)
        (rw h.pending (
          lookup-set_result k (done "READ" ("READ" ∷ hex ∷ [])) s.futures
            (h.valid.waiting k k h.pending)))

finish-read :
    (k : ℤ) (s : Backend) (hex : String) (bytes : List ℕ)
    → lookup k s.futures ≡ some (done "READ" ("READ" ∷ hex ∷ []))
    → unhexlify hex ≡ some bytes
    → ((finish_request k s).0 >>= read_result) ≡ ok bytes
unfolding finish_request read_result
finish-read k s hex bytes h u = rw h (rw u)

begin-IsWaiting :
    (parts : List String) (s : Backend)
    → IsValid s
    → s.port_open ≡ true
    → IsWaiting (pos s.next_id) (begin_request parts s).1
unfolding step
begin-IsWaiting parts s v open_port = record {
  valid = (step-Keeps (begin parts) s).valid v;
  pending = (begin-is_new parts s v open_port).2;
}

-- From a valid state with an open port: a `READ` request, then lines that do not carry its id,
-- then a line that carries its id and the bytes in hexadecimal, give the caller exactly these
-- bytes.
pub read_round_trip :
    (mac_address uuid t : String) (bytes : List ℕ) (others : List (List String)) (s : Backend)
    → IsValid s
    → s.port_open ≡ true
    → int_of_text t ≡ some (pos s.next_id)
    → All (λ parts. int_of_text (part parts 1) ≢ some (pos s.next_id)) others
    → All (λ b. b < 256) bytes
    → ((finish_request (pos s.next_id) (
          step
            (line ("RSP" ∷ t ∷ "OK" ∷ "READ" ∷ hexlify bytes ∷ []))
            (run (lines_of others) (begin_request (read_parts mac_address uuid) s).1))).0
        >>= read_result)
      ≡ ok bytes
read_round_trip mac_address uuid t bytes others s v open_port named foreign small =
    let k = pos s.next_id in
    finish-read k _ (hexlify bytes) bytes
      (read-answer k t (hexlify bytes) _ named (
        lines-IsWaiting k others _ foreign
          (begin-IsWaiting (read_parts mac_address uuid) s v open_port)))
      (unhexlify-hexlify bytes small)
