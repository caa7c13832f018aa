-- ===== src/Control/Properties/Reading.antt =====
-- What `read_properties` answers, and what it leaves behind.
use mathlib.Core.Path.{subst}
use tiedie.Prelude.{
  ℕ, suc, ◌+◌, ◌≡◌, refl, ap as cong, Bool, not, Option, List, [], ◌∷◌, ◌++◌, String, length,
  length-append, arith,
}
use tiedie.Python.{Exc, Result, ok, raise, ble_read_error}
use tiedie.Python.Handlers.{Exec, returned, pure, return, lift, return_if, ◌>>=◌, ◌>>◌}
use tiedie.Python.Guarantees.{
  Ends, Guarantees, try-Guarantees, bind-Guarantees, then-Guarantees, return_if-Guarantees,
}
use tiedie.Json.{is_some}
use tiedie.Database.Session.{Schema, Db}
use tiedie.Control.Responses.{problem, property_read_failed, invalid_id, invalid_sdf_url}
use tiedie.Control.AccessPoint.{AccessPoint, call}
use tiedie.Control.Connections.{find_ble, address_of}
use tiedie.Control.Properties.Steps.{
  Any, call-Guarantees, lift-Guarantees, connect_first-Guarantees, disconnect_last-Guarantees,
}
use tiedie.Control.Properties.{
  Outcome, read_value, Answer, refused, results, Target, read_error, read_one, read_all,
  connect_first, disconnect_last, read_targets, read_properties, no_names, resolve_all, put_target,
  encoded, resolve_property, service_ids,
}

-- A list in the answer has `n` entries.
abbrev pub Lists : ℕ → Answer → Type 0
Lists n (refused r) = Unit
Lists n (results outcomes) = length outcomes ≡ n

module _ {S : Type 0} (Q : Answer → Type 0) where
  module _ (ap : AccessPoint S) (address : String) where
    handled-Guarantees : (e : Exc) → Guarantees Any Q (read_error ap address e)
    handled-Guarantees ble_read_error s = tt
    handled-Guarantees _ s = tt

    read_one-Guarantees : (target : Target) → Guarantees Any Q (read_one ap address target)
    read_one-Guarantees target =
        try-Guarantees Any Q (call reads >>= λ bytes. lift (encoded bytes) >>= shown)
          (read_error ap address)
          (bind-Guarantees Any Any Q (call reads) (λ bytes. lift (encoded bytes) >>= shown)
            (call-Guarantees Q reads)
            (λ bytes _.
              bind-Guarantees Any Any Q (lift (encoded bytes)) shown
                (lift-Guarantees Q (encoded bytes)) (λ text _ s. tt)))
          handled-Guarantees
      where
        reads : S → Result (Option (List ℕ)) × S
        reads = ap.read address target.service_id target.characteristic_id

        shown : String → Exec S Answer Outcome
        shown text = pure (read_value target.property_name text)

    -- One outcome for each property to read.
    read_all-length :
        (targets : List Target)
        → Guarantees (λ outcomes. length outcomes ≡ length targets) Q (read_all ap address targets)
    unfolding read_all
    read_all-length [] = λ s. refl
    read_all-length (target ∷ targets) =
        bind-Guarantees Any (λ outcomes. length outcomes ≡ suc (length targets)) Q
          (read_one ap address target)
          (λ outcome. read_all ap address targets >>= λ outcomes. pure (outcome ∷ outcomes))
          (read_one-Guarantees target)
          (λ outcome _.
            bind-Guarantees (λ outcomes. length outcomes ≡ length targets)
              (λ outcomes. length outcomes ≡ suc (length targets)) Q (read_all ap address targets)
              (λ outcomes. pure (outcome ∷ outcomes)) (read_all-length targets)
              (λ outcomes h s. cong suc h))

resolve_all-length :
    (D : Schema) (db : Db D) (unquote : String → String) (names : List String)
    → length (resolve_all D db unquote names).0 + length (resolve_all D db unquote names).1
      ≡ length names
unfolding resolve_all
resolve_all-length D db unquote [] = refl
resolve_all-length D db unquote (name ∷ names) =
    by_result (resolve_property D db (unquote name)) (resolve_all D db unquote names)
      (resolve_all-length D db unquote names)
  where
    by_result :
        (r : Result Target) (rest : List Outcome × List Target)
        → length rest.0 + length rest.1 ≡ length names
        → length (put_target D db r rest).0 + length (put_target D db r rest).1 ≡ suc (length names)
    by_result (ok target) (errors, targets) h = omega (arith, h)
    by_result (raise e) (errors, targets) h = omega (arith, h)

module _ {S : Type 0} (ap : AccessPoint S) where
  read_targets-Lists :
      (address : String) (errors : List Outcome) (targets : List Target) (n : ℕ)
      → length errors + length targets ≡ n
      → Guarantees Any (Lists n) (read_targets ap address (errors, targets))
  unfolding read_targets
  read_targets-Lists address errors targets n h s =
      then-Guarantees Any Any (Lists n)
        (connect_first ap address implicit_connect (service_ids targets)) rest
        (connect_first-Guarantees (Lists n) ap address implicit_connect (service_ids targets))
        (bind-Guarantees (λ outcomes. length outcomes ≡ length targets) Any (Lists n)
          (read_all ap address targets)
          (λ outcomes.
            disconnect_last ap address implicit_connect >> return (results (errors ++ outcomes)))
          (read_all-length (Lists n) ap address targets)
          (λ outcomes same.
            then-Guarantees Any Any (Lists n) (disconnect_last ap address implicit_connect)
              (return (results (errors ++ outcomes)))
              (disconnect_last-Guarantees (Lists n) ap address implicit_connect)
              (λ s'. omega (arith, length-append errors outcomes, same, h))))
        s
    where
      implicit_connect : Bool
      implicit_connect = not (is_some (ap.get_connection address s))

      rest : Exec S Answer Answer
      rest = read_all ap address targets >>= λ outcomes.
          disconnect_last ap address implicit_connect >> return (results (errors ++ outcomes))

  module _ (D : Schema) (device_id : String) (db : Db D) (unquote : String → String)
      (names : List String) where
    answers_all :
        Guarantees Any (Lists (length names)) (read_properties D ap device_id db unquote names)
    unfolding read_properties
    answers_all =
        try-Guarantees Any Good
          (return_if no_name missing >> (return_if no_device unknown >> targets))
          (λ e. return (refused (problem property_read_failed 500)))
          (then-Guarantees Any Any Good (return_if no_name missing)
            (return_if no_device unknown >> targets)
            (return_if-Guarantees Any Good no_name missing tt tt)
            (then-Guarantees Any Any Good (return_if no_device unknown) targets
              (return_if-Guarantees Any Good no_device unknown tt tt)
              (read_targets-Lists address resolved.0 resolved.1 (length names)
                (resolve_all-length D db unquote names))))
          (λ e s. tt)
      where
        Good : Answer → Type 0
        Good = Lists (length names)

        no_name : Bool
        no_name = no_names D ap device_id db names

        no_device : Bool
        no_device = not (is_some (find_ble D ap device_id db))

        missing : Answer
        missing = refused (problem invalid_sdf_url 400)

        unknown : Answer
        unknown = refused (problem invalid_id 404)

        address : String
        address = address_of (find_ble D ap device_id db)

        resolved : List Outcome × List Target
        resolved = resolve_all D db unquote names

        targets : Exec S Answer Answer
        targets = read_targets ap address resolved

    -- When `read_properties` answers with a list, the list has one entry for each property that
    -- was asked for.
    pub read_properties-length :
        (s s' : S) (outcomes : List Outcome)
        → read_properties D ap device_id db unquote names s ≡ (returned (results outcomes), s')
        → length outcomes ≡ length names
    read_properties-length s s' outcomes h =
        subst (λ r. Ends Any (Lists (length names)) r.0) h (answers_all s)
