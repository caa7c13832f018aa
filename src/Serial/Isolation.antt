-- ===== src/Serial/Isolation.antt =====
-- A line for one request leaves the others alone.
use tiedie.Prelude.{
  ℤ, ◌≡◌, ◌≢◌, refl, ap, ◌∙◌, Bool, true, false, Option, none, some, List, String, if_induction,
  Option-cases, inl, inr, Dict, lookup, insert, erase, lookup-insert, lookup-erase, int_eq,
  int_beq-ne, int_of_text, upper, ◌==◌, ◌&&◌, ◌||◌, length, leb,
}
use tiedie.Serial.State.{Backend, Discovered, Reply, set_result, set_if_found}
use tiedie.Serial.Lines.{
  part, emit_adv, emit_rssi, emit_conn_event, resolve, resolve_ok, rsp_ok, handle_rsp_id,
  handle_rsp, put_part, discover_parts_id, handle_discover_parts, dispatch, adv_fields,
  handle_parts, adv_or_dispatch, tag_of, no_services,
}

-- Every pending request waits for the future of its own id.
abbrev pub OwnFutures : Dict ℤ ℤ → Type 0
OwnFutures pending = (k fut : ℤ) → lookup k pending ≡ some fut → fut ≡ k

-- Request `k` stands in `t` as it stands in `s`.
pub record Same (k : ℤ) (s t : Backend) : Type 0 where
  pub pending : lookup k t.pending ≡ lookup k s.pending
  pub discovery : lookup k t.discover_state ≡ lookup k s.discover_state
  pub future : lookup k t.futures ≡ lookup k s.futures

pub lookup-erase_ne :
    {V : Type 0} (j k : ℤ) (d : Dict ℤ V) → j ≢ k → lookup k (erase j d) ≡ lookup k d
lookup-erase_ne j k d h = lookup-erase j k d ∙ rw (int_beq-ne j k h) refl

pub lookup-insert_ne :
    {V : Type 0} (j k : ℤ) (v : V) (d : Dict ℤ V) → j ≢ k → lookup k (insert j v d) ≡ lookup k d
lookup-insert_ne j k v d h = lookup-insert j k v d ∙ rw (int_beq-ne j k h) refl

pub lookup-set_result_ne :
    (j k : ℤ) (r : Reply) (futures : Dict ℤ Reply)
    → j ≢ k
    → lookup k (set_result j r futures) ≡ lookup k futures
unfolding set_result
lookup-set_result_ne j k r futures h = elim (Option-cases (lookup j futures)) [
  | inl e ↦ rw e (lookup-insert_ne j k r futures h)
  | inr (r', e) ↦ rw e
]

module _ (k : ℤ) (s : Backend) where
  Same-refl : Same k s s
  Same-refl = record { pending = refl; discovery = refl; future = refl }

  emit_adv-Same : (mac rssi_str : String) → Same k s (emit_adv mac rssi_str s)
  unfolding emit_adv
  emit_adv-Same mac rssi_str =
      if_induction (Same k s) s.on_adv (emitted (int_of_text rssi_str)) Same-refl
    where
      emitted : (o : Option ℤ) → Same k s (emit_rssi mac o s)
      emitted none = Same-refl
      emitted (some rssi) = record { pending = refl; discovery = refl; future = refl }

  emit_conn_event-Same : (mac : String) (b : Bool) → Same k s (emit_conn_event mac b s)
  unfolding emit_conn_event
  emit_conn_event-Same mac b =
      if_induction (Same k s) s.on_conn_event
        (record { pending = refl; discovery = refl; future = refl }) Same-refl

  module _ (own : OwnFutures s.pending) (j : ℤ) (other : j ≢ k) where
    future_of_other :
        (o : Option ℤ) (r : Reply)
        → lookup j s.pending ≡ o
        → lookup k (set_if_found o r s.futures) ≡ lookup k s.futures
    future_of_other none r e = refl
    future_of_other (some fut) r e = rw (own j fut e) (lookup-set_result_ne j k r s.futures other)

    resolve-Same : (r : Reply) → Same k s (resolve j r s)
    unfolding resolve
    resolve-Same r = record {
      pending = lookup-erase_ne j k s.pending other;
      discovery = lookup-erase_ne j k s.discover_state other;
      future = future_of_other (lookup j s.pending) r refl;
    }

    resolve_ok-Same : (r : Reply) → Same k s (resolve_ok j r s)
    unfolding resolve_ok
    resolve_ok-Same r = record {
      pending = lookup-erase_ne j k s.pending other;
      discovery = refl;
      future = future_of_other (lookup j s.pending) r refl;
    }

    rsp_ok-Same : (parts : List String) → Same k s (rsp_ok j parts s)
    unfolding rsp_ok
    rsp_ok-Same parts =
        if_induction (Same k s) (tag_of parts == "DISCOVER_BEGIN")
          (record {
            pending = refl;
            discovery = lookup-insert_ne j k no_services s.discover_state other;
            future = refl;
          })
          (if_induction (Same k s) (tag_of parts == "DISCOVER_END") (resolve-Same _)
            (resolve_ok-Same _))

    handle_rsp_id-Same : (parts : List String) → Same k s (handle_rsp_id (some j) parts s)
    unfolding handle_rsp_id
    handle_rsp_id-Same parts =
        if_induction (Same k s) (upper (part parts 2) == "ERR") (resolve-Same _)
          (if_induction (Same k s) (upper (part parts 2) == "OK") (rsp_ok-Same parts) Same-refl)

  discover_parts_id-Same :
      (j : ℤ) (parts : List String) → j ≢ k → Same k s (discover_parts_id (some j) parts s)
  unfolding discover_parts_id
  discover_parts_id-Same j parts other = put (lookup j s.discover_state)
    where
      put : (o : Option Discovered) → Same k s (put_part j parts o s)
      put none = Same-refl
      put (some d) = record {
        pending = refl;
        discovery = lookup-insert_ne j k _ s.discover_state other;
        future = refl;
      }

  module _ (own : OwnFutures s.pending) (parts : List String) where
    rsp-Same : (o : Option ℤ) → o ≢ some k → Same k s (handle_rsp_id o parts s)
    unfolding handle_rsp_id
    rsp-Same none h = Same-refl
    rsp-Same (some j) h = handle_rsp_id-Same own j (λ e. h (ap some e)) parts

    parts-Same : (o : Option ℤ) → o ≢ some k → Same k s (discover_parts_id o parts s)
    unfolding discover_parts_id
    parts-Same none h = Same-refl
    parts-Same (some j) h = discover_parts_id-Same j parts (λ e. h (ap some e))

    dispatch-Same : int_of_text (part parts 1) ≢ some k → Same k s (dispatch parts s)
    unfolding dispatch handle_rsp handle_discover_parts
    dispatch-Same h =
        if_induction (Same k s) (leb 3 (length parts) && head == "RSP") (rsp-Same _ h) (
          if_induction (Same k s) (leb 3 (length parts) && (head == "SVC" || head == "CHR"))
            (parts-Same _ h)
            (if_induction (Same k s) (leb 3 (length parts) && head == "EVENT")
              (if_induction (Same k s) (upper (part parts 1) == "CONNECT")
                (emit_conn_event-Same _ true)
                (if_induction (Same k s) (upper (part parts 1) == "DISCONNECT")
                  (emit_conn_event-Same _ false) Same-refl))
              Same-refl))
      where
        head : String
        head = upper (part parts 0)

    -- When every pending request waits for the future of its own id, a line that carries another
    -- id than `k`, or none, leaves request `k` as it was: whether it waits, what it has discovered
    -- so far, and its reply.
    pub handle_parts-Same : int_of_text (part parts 1) ≢ some k → Same k s (handle_parts parts s)
    unfolding handle_parts
    handle_parts-Same h = by_fields (adv_fields parts)
      where
        by_fields : (o : Option (String × String)) → Same k s (adv_or_dispatch o parts s)
        by_fields (some (mac, rssi_str)) = emit_adv-Same mac rssi_str
        by_fields none = dispatch-Same h
