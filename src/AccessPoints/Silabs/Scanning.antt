-- ===== src/AccessPoints/Silabs/Scanning.antt =====
-- The scan that the gateway starts first stays the first operation.
use mathlib.Core.Path.{subst}
use tiedie.Prelude.{
  ◌≡◌, ap, sym, ◌∙◌, ℕ, ◌<◌, Bool, true, false, Option, none, some, List, [], ◌∷◌, ◌++◌, lookup,
  string_eq, nat_eq, arith, if◌then◌else◌, keep, if_induction,
}
use tiedie.Python.{Result, ok, raise}
use tiedie.AccessPoints.Silabs.Operations.{
  Evt, connection_closed, Publication, scanning, Operation, handle_event, dispatch,
}
use tiedie.AccessPoints.Silabs.Events.{
  SilabsAccessPoint, Heap, handle_all, handled, is_done_in, is_done_of, receive, receive_all,
}
use tiedie.AccessPoints.Silabs.Calls.{append, changed, change}
use tiedie.AccessPoints.Silabs.Histories.{At, At-insert, At-handle_all}
use tiedie.AccessPoints.Silabs.Keeping.{IsKept}

abbrev pub IsScan : Operation → Type 0
IsScan op = (op.kind ≡ scanning) × (op.is_done ≡ false)

-- The first operation scans.
pub record HasScan (s : SilabsAccessPoint) : Type 0 where
  pub rest : List ℕ
  pub first : s.operations ≡ 0 ∷ rest
  pub scans : At IsScan 0 s.heap
  pub fresh : 0 < s.next

not_done : (heap : Heap) → At IsScan 0 heap → (if is_done_in heap 0 then false else true) ≡ true
not_done heap (op, found, (k, d)) =
    ap (λ (b : Bool). if b then false else true) (ap is_done_of found ∙ d)

keep-first :
    (p : ℕ → Bool) (is rest : List ℕ) → is ≡ 0 ∷ rest → p 0 ≡ true → keep p is ≡ 0 ∷ keep p rest
unfolding keep
keep-first p is rest e h = rw (e, h)

module _ (publish : Publication → Result (Unit {0})) where
  IsScan-dispatch :
      (evt : Evt) (op : Operation) → IsScan op → IsScan (dispatch publish scanning evt op).1
  IsScan-dispatch evt op h = ground arith

  IsScan-handle_event :
      (evt : Evt) (op : Operation) → IsScan op → IsScan (handle_event publish evt op).1
  unfolding handle_event
  IsScan-handle_event evt op h =
      subst (λ k. IsScan (dispatch publish k evt op).1) (sym h.0) (IsScan-dispatch evt op h)

  handled-HasScan :
      (r : Result (Unit {0}) × Heap) (evt : Evt) (s : SilabsAccessPoint)
      → HasScan s
      → At IsScan 0 r.1
      → HasScan (handled r evt s)
  handled-HasScan (raise e, heap) evt s h a = record {
    rest = h.rest;
    first = h.first;
    scans = a;
    fresh = h.fresh;
  }
  handled-HasScan (ok u, heap) (connection_closed c reason) s h a = record {
    rest = keep (λ i. if is_done_in heap i then false else true) h.rest;
    first = keep-first _ s.operations h.rest h.first (not_done heap a);
    scans = a;
    fresh = h.fresh;
  }
  handled-HasScan (ok u, heap) evt s h a = record {
    rest = keep (λ i. if is_done_in heap i then false else true) h.rest;
    first = keep-first _ s.operations h.rest h.first (not_done heap a);
    scans = a;
    fresh = h.fresh;
  }

  pub receive_all-HasScan :
      (evts : List Evt) (s : SilabsAccessPoint) → HasScan s → HasScan (receive_all publish evts s)
  unfolding receive_all receive
  receive_all-HasScan [] s h = h
  receive_all-HasScan (evt ∷ evts) s h = receive_all-HasScan evts (receive publish evt s) (
      if_induction HasScan s.running
        (handled-HasScan (handle_all publish evt s.operations s.heap) evt s h (
          At-handle_all IsScan 0 publish evt (IsScan-handle_event evt) s.operations s.heap h.scans))
        h)

  pub append-HasScan : (op : Operation) (s : SilabsAccessPoint) → HasScan s → HasScan (append op s)
  append-HasScan op s h = record {
    rest = h.rest ++ s.next ∷ [];
    first = ap (λ is. is ++ s.next ∷ []) h.first;
    scans = At-insert IsScan 0 s.next op s.heap (λ e. absurd (omega (arith, e, h.fresh))) h.scans;
    fresh = omega arith;
  }

  change-HasScan :
      (i : ℕ) (f : Operation → Operation) (s : SilabsAccessPoint)
      → 0 < i
      → HasScan s
      → HasScan (change i f s)
  change-HasScan i f s own h = by_lookup (lookup i s.heap)
    where
      by_lookup : (o : Option Operation) → HasScan (changed o i f s)
      by_lookup none = h
      by_lookup (some op) = record {
        rest = h.rest;
        first = h.first;
        scans = At-insert IsScan 0 i (f op) s.heap (λ e. absurd (omega (arith, e, own))) h.scans;
        fresh = h.fresh;
      }

  pub HasScan-kept : IsKept publish HasScan (λ i. 0 < i)
  HasScan-kept = record {
    Q-append = append-HasScan;
    Q-send = λ c s h. record { rest = h.rest; first = h.first; scans = h.scans; fresh = h.fresh };
    Q-change = change-HasScan;
    Q-receive_all = receive_all-HasScan;
  }
