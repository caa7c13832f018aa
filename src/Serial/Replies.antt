-- ===== src/Serial/Replies.antt =====
-- Every step keeps the invariant, and a reply that is there stays as it is.
use tiedie.Prelude.{
  ◌+◌, ◌-◌, ℤ, pos, ◌≡◌, ◌∙◌, Bool, true, false, Option, none, some, List, [], ◌∷◌, String,
  if_induction, Option-cases, inl, inr, Dict, lookup, lookup-insert, int_eq, int_beq-ne,
  int_of_text, upper, ◌==◌, ◌==ℕ◌, ◌&&◌, ◌||◌, length, leb,
}
use tiedie.Python.{Result}
use tiedie.Serial.State.{Backend, Discovered, Reply, stopped, init, set_result, set_if_found}
use tiedie.Serial.Lines.{
  part, emit_adv, emit_rssi, emit_conn_event, resolve, resolve_ok, rsp_ok, handle_rsp_id,
  handle_rsp, put_part, discover_parts_id, handle_discover_parts, dispatch, adv_fields,
  handle_parts, adv_or_dispatch, tag_of,
}
use tiedie.Serial.Requests.{begin_request, finish_request, after_wait}
use tiedie.Serial.Lifecycle.{start, counted, stop, fail_all, acquire, release, end_reader}
use tiedie.Serial.Runs.{Op, line, begin, finish, acquires, releases, reader_ends, step, run}
use tiedie.Serial.Invariant.{IsValid, resolve-Inv, erase-Inv, begin-Inv, stop-Inv, init-IsValid}

-- `t` has every reply that `s` has.
abbrev pub KeepsReplies : Dict ℤ Reply → Dict ℤ Reply → Type 0
KeepsReplies old new = (k : ℤ) (r : Reply) → lookup k old ≡ some r → lookup k new ≡ some r

set_result-KeepsReplies :
    (j : ℤ) (r : Reply) (futures : Dict ℤ Reply) → KeepsReplies futures (set_result j r futures)
unfolding set_result
set_result-KeepsReplies j r futures k r' h = elim (Option-cases (lookup j futures)) [
  | inl e ↦ rw e (lookup-insert j k r futures ∙ rw (int_beq-ne j k (λ p. cc (p, e, h))) h)
  | inr (r₀, e) ↦ rw e h
]

set_if_found-KeepsReplies :
    (o : Option ℤ) (r : Reply) (futures : Dict ℤ Reply)
    → KeepsReplies futures (set_if_found o r futures)
set_if_found-KeepsReplies none r futures k r' h = h
set_if_found-KeepsReplies (some j) r futures k r' h = set_result-KeepsReplies j r futures k r' h

fail_all-KeepsReplies :
    (pending : Dict ℤ ℤ) (futures : Dict ℤ Reply) → KeepsReplies futures (fail_all pending futures)
unfolding fail_all
fail_all-KeepsReplies [] futures k r h = h
fail_all-KeepsReplies ((j, fut) ∷ pending) futures k r h =
    fail_all-KeepsReplies pending (set_result fut stopped futures) k r
      (set_result-KeepsReplies fut stopped futures k r h)

-- A step from `s` to `t` keeps the invariant and the replies.
pub record Keeps (s t : Backend) : Type 0 where
  pub valid : IsValid s → IsValid t
  pub replies : KeepsReplies s.futures t.futures

module _ (s : Backend) where
  Keeps-refl : Keeps s s
  Keeps-refl = record { valid = λ v. v; replies = λ k r h. h }

  resolve-Keeps : (j : ℤ) (r : Reply) → Keeps s (resolve j r s)
  unfolding resolve
  resolve-Keeps j r = record {
    valid = resolve-Inv s.next_id s.pending s.futures j r;
    replies = set_if_found-KeepsReplies (lookup j s.pending) r s.futures;
  }

  resolve_ok-Keeps : (j : ℤ) (r : Reply) → Keeps s (resolve_ok j r s)
  unfolding resolve_ok
  resolve_ok-Keeps j r = record {
    valid = resolve-Inv s.next_id s.pending s.futures j r;
    replies = set_if_found-KeepsReplies (lookup j s.pending) r s.futures;
  }

  handle_rsp-Keeps : (o : Option ℤ) (parts : List String) → Keeps s (handle_rsp_id o parts s)
  unfolding handle_rsp_id rsp_ok
  handle_rsp-Keeps none parts = Keeps-refl
  handle_rsp-Keeps (some j) parts =
      if_induction (Keeps s) (upper (part parts 2) == "ERR") (resolve-Keeps j _) (
        if_induction (Keeps s) (upper (part parts 2) == "OK")
          (if_induction (Keeps s) (tag_of parts == "DISCOVER_BEGIN")
            (record { valid = λ v. v; replies = λ k r h. h })
            (if_induction (Keeps s) (tag_of parts == "DISCOVER_END") (resolve-Keeps j _)
              (resolve_ok-Keeps j _)))
          Keeps-refl)

  discover-Keeps : (o : Option ℤ) (parts : List String) → Keeps s (discover_parts_id o parts s)
  unfolding discover_parts_id
  discover-Keeps none parts = Keeps-refl
  discover-Keeps (some j) parts = put (lookup j s.discover_state)
    where
      put : (o : Option Discovered) → Keeps s (put_part j parts o s)
      put none = Keeps-refl
      put (some d) = record { valid = λ v. v; replies = λ k r h. h }

  emit_conn_event-Keeps : (mac : String) (b : Bool) → Keeps s (emit_conn_event mac b s)
  unfolding emit_conn_event
  emit_conn_event-Keeps mac b =
      if_induction (Keeps s) s.on_conn_event (record { valid = λ v. v; replies = λ k r h. h })
        Keeps-refl

  emit_adv-Keeps : (mac rssi_str : String) → Keeps s (emit_adv mac rssi_str s)
  unfolding emit_adv
  emit_adv-Keeps mac rssi_str =
      if_induction (Keeps s) s.on_adv (emitted (int_of_text rssi_str)) Keeps-refl
    where
      emitted : (o : Option ℤ) → Keeps s (emit_rssi mac o s)
      emitted none = Keeps-refl
      emitted (some rssi) = record { valid = λ v. v; replies = λ k r h. h }

  dispatch-Keeps : (parts : List String) → Keeps s (dispatch parts s)
  unfolding dispatch handle_rsp handle_discover_parts
  dispatch-Keeps parts =
      if_induction (Keeps s) (leb 3 (length parts) && head == "RSP") (handle_rsp-Keeps _ parts) (
        if_induction (Keeps s) (leb 3 (length parts) && (head == "SVC" || head == "CHR"))
          (discover-Keeps _ parts)
          (if_induction (Keeps s) (leb 3 (length parts) && head == "EVENT")
            (if_induction (Keeps s) (upper (part parts 1) == "CONNECT")
              (emit_conn_event-Keeps _ true)
              (if_induction (Keeps s) (upper (part parts 1) == "DISCONNECT")
                (emit_conn_event-Keeps _ false) Keeps-refl))
            Keeps-refl))
    where
      head : String
      head = upper (part parts 0)

  line-Keeps :
      (o : Option (String × String)) (parts : List String) → Keeps s (adv_or_dispatch o parts s)
  line-Keeps (some (mac, rssi_str)) parts = emit_adv-Keeps mac rssi_str
  line-Keeps none parts = dispatch-Keeps parts

  begin-Keeps : (parts : List String) → Keeps s (begin_request parts s).1
  unfolding begin_request
  begin-Keeps parts =
      if_induction (λ (r : Result ℤ × Backend). Keeps s r.1) s.port_open
        (record { valid = begin-Inv s.next_id s.pending s.futures; replies = λ k r h. h })
        (record {
          valid = λ v.
              erase-Inv _ _ s.futures (pos s.next_id) (begin-Inv s.next_id s.pending s.futures v);
          replies = λ k r h. h;
        })

  finish-Keeps : (req_id : ℤ) (o : Option Reply) → Keeps s (after_wait req_id o s).1
  finish-Keeps req_id none = record {
    valid = erase-Inv s.next_id s.pending s.futures req_id;
    replies = λ k r h. h;
  }
  finish-Keeps req_id (some stopped) = Keeps-refl
  finish-Keeps req_id (some _) = Keeps-refl

  start-Keeps : (t : Backend) (can_open : Bool) → Keeps s t → Keeps s (start can_open t).1
  unfolding start
  start-Keeps t can_open h =
      if_induction (λ (r : Result (Unit {0}) × Backend). Keeps s r.1) t.reader_alive h
        (if_induction (λ (r : Result (Unit {0}) × Backend). Keeps s r.1) can_open
          (record { valid = h.valid; replies = h.replies }) h)

  acquire-Keeps : (c a e : Bool) → Keeps s (acquire c a e s).1
  unfolding acquire
  acquire-Keeps c a e =
      if_induction (λ (r : Result (Unit {0}) × Backend). Keeps s r.1) (s.refcount + 1 ==ℕ 1)
        (start-Keeps (counted a e s) c (record { valid = λ v. v; replies = λ k r h. h }))
        (record { valid = λ v. v; replies = λ k r h. h })

  release-Keeps : Keeps s (release s)
  unfolding release stop
  release-Keeps =
      if_induction (Keeps s) (s.refcount - 1 ==ℕ 0)
        (record {
          valid = stop-Inv s.next_id s.pending s.futures;
          replies = fail_all-KeepsReplies s.pending s.futures;
        })
        (record { valid = λ v. v; replies = λ k r h. h })

pub step-Keeps : (op : Op) (s : Backend) → Keeps s (step op s)
unfolding step handle_parts finish_request end_reader
step-Keeps (line parts) s = line-Keeps s (adv_fields parts) parts
step-Keeps (begin parts) s = begin-Keeps s parts
step-Keeps (finish req_id) s = finish-Keeps s req_id (lookup req_id s.futures)
step-Keeps (acquires c a e) s = acquire-Keeps s c a e
step-Keeps releases s = release-Keeps s
step-Keeps reader_ends s = record { valid = λ v. v; replies = λ k r h. h }

pub run-Keeps : (ops : List Op) (s : Backend) → Keeps s (run ops s)
unfolding run
run-Keeps [] s = Keeps-refl s
run-Keeps (op ∷ ops) s = record {
  valid = λ v. (run-Keeps ops (step op s)).valid ((step-Keeps op s).valid v);
  replies = λ k r h. (run-Keeps ops (step op s)).replies k r ((step-Keeps op s).replies k r h);
}

-- After any history, every pending request waits for the future of its own id, an id that was
-- given out before and that has no reply yet, and no id that is still to come has a reply.
pub run-IsValid : (ops : List Op) → IsValid (run ops init)
run-IsValid ops = (run-Keeps ops init).valid init-IsValid

-- A request gets one reply at most: once its future is done, nothing that happens later changes it.
pub run-KeepsReplies :
    (ops : List Op) (s : Backend) (k : ℤ) (r : Reply)
    → lookup k s.futures ≡ some r
    → lookup k (run ops s).futures ≡ some r
run-KeepsReplies ops s = (run-Keeps ops s).replies
