-- ===== src/Server/Grouping.antt =====
-- What a client finds in the answer of a discovery.
use tiedie.Prelude.{
  ◌≡◌, refl, ap, sym, ◌∙◌, Bool, true, false, ◌&&◌, ◌||◌, Option, none, some, List, [], ◌∷◌, ◌++◌,
  String, ◌==◌, lookup, insert, string_eq, lookup-insert, if◌then◌else◌, arith, eq_iff, eq_refl,
  if_induction, Bool-cases, inl, inr, is_some, append_assoc, append-nil,
}
use tiedie.Serial.State.{Chr, Discovered}
use tiedie.Server.Discovery.{
  GattCharacteristic, Services, is_empty, characteristic_of, add_service, services_by_uuid,
  chars_or_none, add_characteristic, add_characteristics, assemble,
}

-- does the snapshot name the service?
unfoldable pub names : String → List String → Bool
names u [] = false
names u (v ∷ vs) = ((v == u) && (if is_empty v then false else true)) || names u vs

-- the characteristics of a service, in order
unfoldable pub chars_of : String → List Chr → List GattCharacteristic
chars_of u [] = []
chars_of u (c ∷ cs) =
    let rest = chars_of u cs in
    if (is_empty c.svc_uuid || is_empty c.uuid) || (if c.svc_uuid == u then false else true)
    then rest
    else characteristic_of c ∷ rest

abbrev extended :
    Option (List GattCharacteristic) → List GattCharacteristic → Option (List GattCharacteristic)
extended (some cs) ds = some (cs ++ ds)
extended none [] = none
extended none (d ∷ ds) = some (d ∷ ds)

lookup-insert_self :
    (v : String) (cs : List GattCharacteristic) (d : Services) → lookup v (insert v cs d) ≡ some cs
lookup-insert_self v cs d = lookup-insert v v cs d ∙ rw (eq_refl v) refl

lookup-insert_other :
    (v u : String) (cs : List GattCharacteristic) (d : Services)
    → v == u ≡ false
    → lookup u (insert v cs d) ≡ lookup u d
lookup-insert_other v u cs d other = lookup-insert v u cs d ∙ rw other refl

or_none : (o : Option (List GattCharacteristic)) → o ≡ (if is_some o then o else none)
or_none none = refl
or_none (some cs) = refl

extended-nil : (o : Option (List GattCharacteristic)) → o ≡ extended o []
extended-nil none = refl
extended-nil (some cs) = ap some (sym (append-nil cs))

lookup-add_service :
    (v u : String) (d : Services)
    → lookup u (add_service v d) ≡ (
        if is_some (lookup u d)
        then lookup u d
        else if (v == u) && (if is_empty v then false else true)
        then some []
        else none)
lookup-add_service v u d = elim (Bool-cases (v == u)) [
  | inl same ↦ rw (← (eq_iff v u).0 same, eq_refl v) (by_lookup (lookup v d) refl (is_empty v))
  | inr other ↦ rw other (
      if_induction (λ (d' : Services). lookup u d' ≡ lookup u d)
        (is_empty v || is_some (lookup v d)) refl (lookup-insert_other v u [] d other)
      ∙ or_none (lookup u d))
]
  where
    by_lookup :
        (o : Option (List GattCharacteristic))
        → lookup v d ≡ o
        → (b : Bool)
        → lookup v (if b || is_some o then d else insert v [] d)
          ≡ (if is_some o then o else if if b then false else true then some [] else none)
    by_lookup none e true = e
    by_lookup none e false = lookup-insert_self v [] d
    by_lookup (some cs) e true = e
    by_lookup (some cs) e false = e

lookup-services :
    (uuids : List String) (d : Services) (u : String)
    → lookup u (services_by_uuid uuids d)
      ≡ (if is_some (lookup u d) then lookup u d else if names u uuids then some [] else none)
unfolding services_by_uuid names
lookup-services [] d u = or_none (lookup u d)
lookup-services (v ∷ vs) d u =
    ground (arith, lookup-services vs (add_service v d) u, lookup-add_service v u d)

extended-snoc :
    (o : Option (List GattCharacteristic)) (c : GattCharacteristic) (cs : List GattCharacteristic)
    → extended (some (chars_or_none o ++ c ∷ [])) cs ≡ extended o (c ∷ cs)
extended-snoc none c cs = refl
extended-snoc (some ds) c cs = ap some (append_assoc ds (c ∷ []) cs)

extended-add :
    (c : Chr) (d : Services) (u : String) (cs : List GattCharacteristic)
    → extended (lookup u (add_characteristic c d)) cs
      ≡ extended (lookup u d) (
          if (is_empty c.svc_uuid || is_empty c.uuid) || (if c.svc_uuid == u then false else true)
          then cs
          else characteristic_of c ∷ cs)
extended-add c d u cs = elim (Bool-cases (is_empty c.svc_uuid || is_empty c.uuid)) [
  | inl skip ↦ rw skip
  | inr kept ↦ elim (Bool-cases (c.svc_uuid == u)) [
    | inl same ↦
        rw (kept, same, ← (eq_iff c.svc_uuid u).0 same)
          (ap (λ o. extended o cs) (lookup-insert_self c.svc_uuid _ d)
            ∙ extended-snoc (lookup c.svc_uuid d) (characteristic_of c) cs)
    | inr other ↦
        rw (kept, other) (ap (λ o. extended o cs) (lookup-insert_other c.svc_uuid u _ d other))
  ]
]

lookup-characteristics :
    (cs : List Chr) (d : Services) (u : String)
    → lookup u (add_characteristics cs d) ≡ extended (lookup u d) (chars_of u cs)
unfolding add_characteristics chars_of
lookup-characteristics [] d u = extended-nil (lookup u d)
lookup-characteristics (c ∷ cs) d u =
    lookup-characteristics cs (add_characteristic c d) u ∙ extended-add c d u (chars_of u cs)

abbrev pub is_cons : List GattCharacteristic → Bool
is_cons [] = false
is_cons (c ∷ cs) = true

extended-listed :
    (b : Bool) (cs : List GattCharacteristic)
    → extended (if b then some [] else none) cs ≡ (if b || is_cons cs then some cs else none)
extended-listed true cs = refl
extended-listed false [] = refl
extended-listed false (c ∷ cs) = refl

-- A service is found in the answer of a discovery exactly when it has a UUID and the snapshot names
-- it, or has a characteristic with a UUID for it. Under it are all characteristics with a UUID that
-- the snapshot has for it, in the order of the snapshot, with the flags that are not empty, and no
-- others.
pub lookup-assemble :
    (snapshot : Discovered) (u : String)
    → lookup u (assemble snapshot) ≡ (
        if names u snapshot.services || is_cons (chars_of u snapshot.chars)
        then some (chars_of u snapshot.chars)
        else none)
unfolding assemble lookup
lookup-assemble snapshot u =
    lookup-characteristics snapshot.chars (services_by_uuid snapshot.services []) u
    ∙ ap (λ o. extended o (chars_of u snapshot.chars)) (lookup-services snapshot.services [] u)
    ∙ extended-listed (names u snapshot.services) (chars_of u snapshot.chars)
