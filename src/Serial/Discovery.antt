-- ===== src/Serial/Discovery.antt =====
-- A discovery that runs to its end delivers what its lines say, whatever comes in between for
-- other requests.
use mathlib.Core.Path.{ap₂}
use tiedie.Prelude.{
  ℤ, ◌≡◌, ◌≢◌, ◌⊎◌, refl, ◌∙◌, true, false, ◌||◌, none, some, List, [], ◌∷◌, ◌++◌, append-nil,
  append_assoc, ap, Bool-cases, if◌then◌else◌, Bool, String, arith, All, lookup, insert,
  lookup-insert, int_eq, int_beq_self, int_of_text, upper, ◌==◌, leb, length, inl, inr,
}
use tiedie.Serial.State.{Chr, Backend, Discovered, discovered}
use tiedie.Serial.Lines.{
  part, resolve, rsp_ok, handle_rsp_id, handle_rsp, put_part, with_part, discover_parts_id,
  handle_discover_parts, dispatch, adv_fields, handle_parts, no_services, or_empty,
}
use tiedie.Serial.Isolation.{Same, handle_parts-Same}
use tiedie.Serial.Invariant.{lookup-set_result, IsValid, Inv-OwnFutures}
use tiedie.Serial.Runs.{Op, line, step, run}
use tiedie.Serial.Replies.{step-Keeps}

-- A line with a service or a characteristic for request `k`.
pub record IsPartFor (k : ℤ) (parts : List String) : Type 0 where
  pub no_adv : adv_fields parts ≡ none
  pub long : leb 3 (length parts) ≡ true
  pub kind : (upper (part parts 0) == "SVC" || upper (part parts 0) == "CHR") ≡ true
  pub no_rsp : (upper (part parts 0) == "RSP") ≡ false
  pub id : int_of_text (part parts 1) ≡ some k

-- Either such a line, or one with another id or none.
abbrev pub IsBetween : ℤ → List String → Type 0
IsBetween k parts = IsPartFor k parts ⊎ (int_of_text (part parts 1) ≢ some k)

-- the service, and the characteristic, that a line for the discovery tells
abbrev pub service_of : List String → List String
service_of parts = if upper (part parts 0) == "SVC" then part parts 2 ∷ [] else []

abbrev pub characteristic_of : List String → List Chr
characteristic_of parts =
    if upper (part parts 0) == "SVC"
    then []
    else if leb 5 (length parts)
    then record { svc_uuid = part parts 2; uuid = part parts 3; props = part parts 4 } ∷ []
    else []

-- The services and the characteristics of the lines for `k`, in order.
abbrev pub services_of :
    (k : ℤ) (lines : List (List String)) → All (IsBetween k) lines → List String
services_of k [] between = []
services_of k (parts ∷ lines) (inl mine, between) = service_of parts ++ services_of k lines between
services_of k (parts ∷ lines) (inr other, between) = services_of k lines between

abbrev pub characteristics_of :
    (k : ℤ) (lines : List (List String)) → All (IsBetween k) lines → List Chr
characteristics_of k [] between = []
characteristics_of k (parts ∷ lines) (inl mine, between) =
    characteristic_of parts ++ characteristics_of k lines between
characteristics_of k (parts ∷ lines) (inr other, between) = characteristics_of k lines between

-- What the code makes of the lines for `k`, in order, from `d` on.
collect : (k : ℤ) (lines : List (List String)) → All (IsBetween k) lines → Discovered → Discovered
collect k [] between d = d
collect k (parts ∷ lines) (inl mine, between) d = collect k lines between (with_part parts d)
collect k (parts ∷ lines) (inr other, between) d = collect k lines between d

abbrev pub lines_of : List (List String) → List Op
lines_of [] = []
lines_of (parts ∷ lines) = line parts ∷ lines_of lines

-- the first and the last line of a discovery
abbrev pub discover_begin : String → List String
discover_begin t = "RSP" ∷ t ∷ "OK" ∷ "DISCOVER_BEGIN" ∷ []

abbrev pub discover_end : String → List String
discover_end t = "RSP" ∷ t ∷ "OK" ∷ "DISCOVER_END" ∷ []

right_of_or : (a b : Bool) → (a || b) ≡ true → a ≡ false → b ≡ true
right_of_or a b h e = ground arith

with_part-lists :
    (k : ℤ) (parts : List String) (d : Discovered)
    → IsPartFor k parts
    → with_part parts d ≡ record {
      services = d.services ++ service_of parts;
      chars = d.chars ++ characteristic_of parts;
    }
unfolding with_part
with_part-lists k parts d mine = elim (Bool-cases (upper (part parts 0) == "SVC")) [
  | inl svc ↦ rw (svc, append-nil d.chars) refl
  | inr chr ↦ elim (Bool-cases (leb 5 (length parts))) [
    | inl long ↦
        rw
          (
            chr,
            right_of_or (upper (part parts 0) == "SVC") (upper (part parts 0) == "CHR") mine.kind
                chr,
            long,
            append-nil d.services,
          )
          refl
    | inr short ↦
        rw
          (
            chr,
            right_of_or (upper (part parts 0) == "SVC") (upper (part parts 0) == "CHR") mine.kind
                chr,
            short,
            append-nil d.services,
            append-nil d.chars,
          )
          refl
  ]
]

collect-lists :
    (k : ℤ) (lines : List (List String)) (between : All (IsBetween k) lines) (d : Discovered)
    → collect k lines between d ≡ record {
      services = d.services ++ services_of k lines between;
      chars = d.chars ++ characteristics_of k lines between;
    }
unfolding collect
collect-lists k [] between d = rw (append-nil d.services, append-nil d.chars) refl
collect-lists k (parts ∷ lines) (inl mine, between) d =
    collect-lists k lines between (with_part parts d)
    ∙ rw (with_part-lists k parts d mine) (
        ap₂ lists (append_assoc d.services (service_of parts) (services_of k lines between))
          (append_assoc d.chars (characteristic_of parts) (characteristics_of k lines between)))
  where
    lists : List String → List Chr → Discovered
    lists services chars = record { services = services; chars = chars }
collect-lists k (parts ∷ lines) (inr other, between) d = collect-lists k lines between d

record IsDiscovering (k : ℤ) (d : Discovered) (s : Backend) : Type 0 where
  valid : IsValid s
  pending : lookup k s.pending ≡ some k
  discovery : lookup k s.discover_state ≡ some d

part-step :
    (k : ℤ) (d : Discovered) (parts : List String) (s : Backend)
    → IsPartFor k parts
    → lookup k s.discover_state ≡ some d
    → step (line parts) s ≡ put_part k parts (some d) s
unfolding step handle_parts dispatch handle_discover_parts discover_parts_id
part-step k d parts s mine e = ground arith

module _ (k : ℤ) where
  IsDiscovering-part :
      (d : Discovered) (parts : List String) (s : Backend)
      → IsPartFor k parts
      → IsDiscovering k d s
      → IsDiscovering k (with_part parts d) (step (line parts) s)
  IsDiscovering-part d parts s mine h = record {
    valid = (step-Keeps (line parts) s).valid h.valid;
    pending = rw (part-step k d parts s mine h.discovery) h.pending;
    discovery =
        rw (part-step k d parts s mine h.discovery)
          (lookup-insert k k (with_part parts d) s.discover_state ∙ rw (int_beq_self k) refl);
  }

  IsDiscovering-other :
      (d : Discovered) (parts : List String) (s : Backend)
      → int_of_text (part parts 1) ≢ some k
      → IsDiscovering k d s
      → IsDiscovering k d (step (line parts) s)
  unfolding step
  IsDiscovering-other d parts s other h = record {
    valid = (step-Keeps (line parts) s).valid h.valid;
    pending = same.pending ∙ h.pending;
    discovery = same.discovery ∙ h.discovery;
  }
    where
      same : Same k s (handle_parts parts s)
      same = handle_parts-Same k s (Inv-OwnFutures h.valid) parts other

  IsDiscovering-lines :
      (lines : List (List String)) (between : All (IsBetween k) lines) (d : Discovered)
      (s : Backend)
      → IsDiscovering k d s
      → IsDiscovering k (collect k lines between d) (run (lines_of lines) s)
  unfolding run collect
  IsDiscovering-lines [] between d s h = h
  IsDiscovering-lines (parts ∷ lines) (inl mine, between) d s h =
      IsDiscovering-lines lines between (with_part parts d) (step (line parts) s)
        (IsDiscovering-part d parts s mine h)
  IsDiscovering-lines (parts ∷ lines) (inr other, between) d s h =
      IsDiscovering-lines lines between d (step (line parts) s)
        (IsDiscovering-other d parts s other h)

module _ (k : ℤ) (t : String) (named : int_of_text t ≡ some k) (s : Backend) where
  begin-step :
      step (line (discover_begin t)) s
      ≡ record s { discover_state = insert k no_services s.discover_state }
  unfolding step handle_parts adv_fields dispatch handle_rsp handle_rsp_id rsp_ok part upper
  begin-step = rw (named, handle_rsp)

  end-step :
      step (line (discover_end t)) s
      ≡ resolve k (discovered (or_empty (lookup k s.discover_state))) s
  unfolding step handle_parts adv_fields dispatch handle_rsp handle_rsp_id rsp_ok part upper
  end-step = rw (named, handle_rsp)

  begin-IsDiscovering :
      IsValid s
      → lookup k s.pending ≡ some k
      → IsDiscovering k no_services (step (line (discover_begin t)) s)
  begin-IsDiscovering v p = record {
    valid = (step-Keeps (line (discover_begin t)) s).valid v;
    pending = rw begin-step p;
    discovery =
        rw begin-step (lookup-insert k k no_services s.discover_state ∙ rw (int_beq_self k) refl);
  }

  end-delivers :
      (d : Discovered)
      → IsDiscovering k d s
      → lookup k (step (line (discover_end t)) s).futures ≡ some (discovered d)
  unfolding resolve
  end-delivers d h = rw end-step (
      rw h.pending (
        rw h.discovery
          (lookup-set_result k (discovered d) s.futures (h.valid.waiting k k h.pending))))

-- From a valid state in which request `k` waits: a `DISCOVER_BEGIN` for it, then any lines that are
-- services and characteristics of it or lines for other requests, then its `DISCOVER_END`, give its
-- future exactly the services and characteristics of its own lines, in the order of arrival.
pub discovery-delivers :
    (k : ℤ) (t : String) (lines : List (List String)) (between : All (IsBetween k) lines)
    (s : Backend)
    → int_of_text t ≡ some k
    → IsValid s
    → lookup k s.pending ≡ some k
    → lookup k
        (step
          (line (discover_end t))
          (run (lines_of lines) (step (line (discover_begin t)) s))).futures
      ≡ some (
          discovered (record {
            services = services_of k lines between;
            chars = characteristics_of k lines between;
          }))
discovery-delivers k t lines between s named v p =
    end-delivers k t named _ (collect k lines between no_services)
      (IsDiscovering-lines k lines between no_services _ (begin-IsDiscovering k t named s v p))
    ∙ ap (λ d. some (discovered d)) (collect-lists k lines between no_services)
