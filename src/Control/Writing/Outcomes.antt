-- ===== src/Control/Writing/Outcomes.antt =====
-- What the writing of properties answers, and what it sends.
use Prim.Native.Nat.{◌<◌}
use mathlib.Core.Path.{subst}
use tiedie.Prelude.{
  ℕ, suc, ◌+◌, ◌≡◌, refl, sym, ap as cong, Bool, true, false, not, ◌||◌, some, List, [], ◌∷◌, ◌++◌,
  String, length, length-append, All, lower, b64encode, b64decode-b64encode, arith,
}
use tiedie.Python.{Exc, Result, ok, raise, ble_write_error}
use tiedie.Python.Handlers.{Exec, returned, pure, return, lift, try, return_if, ◌>>=◌, ◌>>◌}
use tiedie.Python.Guarantees.{
  Ends, Guarantees, try-Guarantees, bind-Guarantees, then-Guarantees, return_if-Guarantees,
}
use tiedie.Json.{Json, str, obj, end, field, get, get_default, find_field, is_list, is_some, truthy}
use tiedie.Sdf.{extract_protocol_map}
use tiedie.Database.Rows.{BleExtension}
use tiedie.Database.Session.{Schema, Db}
use tiedie.Control.Responses.{json, problem, invalid_id, property_write_failed}
use tiedie.Control.AccessPoint.{AccessPoint, call}
use tiedie.Control.Connections.{find_ble, address_of}
use tiedie.Control.Properties.{connect_first, disconnect_last}
use tiedie.Control.Properties.Steps.{
  Any, call-Guarantees, lift-Guarantees, connect_first-Guarantees, disconnect_last-Guarantees,
}
use tiedie.Control.Writing.{
  WriteOutcome, written, WriteAnswer, write_refused, outcomes, WriteTarget, b64decode_of,
  is_unwritable, ids_of, definition_of, resolve_write, resolve_writes, put_write, write_services,
  write_error, write_value, unless_unwritable, write_one, write_all, write_targets, entries,
  missing_body, no_device, write_properties, write_characteristic,
}

-- A list in the answer has `n` entries.
abbrev Lists : ℕ → WriteAnswer → Type 0
Lists n (write_refused r) = Unit
Lists n (outcomes os) = length os ≡ n

module _ (D : Schema) {S : Type 0} (Q : WriteAnswer → Type 0) (ap : AccessPoint S) (db : Db D)
    (address : String) where
  write_error-Guarantees : (e : Exc) → Guarantees Any Q (write_error D ap db address e)
  write_error-Guarantees ble_write_error s = tt
  write_error-Guarantees _ s = tt

  write_value-Guarantees :
      (property_def : Json) (target : WriteTarget)
      → Guarantees Any Q (write_value D ap db address property_def target)
  write_value-Guarantees property_def target =
      bind-Guarantees Any Any Q (lift (extract_protocol_map property_def "ble")) decoded
        (lift-Guarantees Q (extract_protocol_map property_def "ble"))
        (λ mapping _.
          bind-Guarantees Any Any Q (lift (b64decode_of target.value)) (located mapping)
            (lift-Guarantees Q (b64decode_of target.value))
            (λ bytes _.
              bind-Guarantees Any Any Q (lift (ids_of mapping)) (sent bytes)
                (lift-Guarantees Q (ids_of mapping))
                (λ ids _.
                  then-Guarantees Any Any Q (call (writes bytes ids)) (pure written)
                    (call-Guarantees Q (writes bytes ids)) (λ s. tt))))
    where
      writes : List ℕ → String × String → S → Result (Unit {0}) × S
      writes bytes ids = ap.write address ids.0 ids.1 bytes

      sent : List ℕ → String × String → Exec S WriteAnswer WriteOutcome
      sent bytes ids = call (writes bytes ids) >> pure written

      located : Json → List ℕ → Exec S WriteAnswer WriteOutcome
      located mapping bytes = lift (ids_of mapping) >>= sent bytes

      decoded : Json → Exec S WriteAnswer WriteOutcome
      decoded mapping = lift (b64decode_of target.value) >>= located mapping

  unless_unwritable-Guarantees :
      (b : Bool) (property_def : Json) (target : WriteTarget)
      → Guarantees Any Q (unless_unwritable D ap db address b property_def target)
  unless_unwritable-Guarantees true property_def target = λ s. tt
  unless_unwritable-Guarantees false property_def target =
      write_value-Guarantees property_def target

  write_one-Guarantees :
      (target : WriteTarget) → Guarantees Any Q (write_one D ap db address target)
  write_one-Guarantees target =
      try-Guarantees Any Q (lift (definition_of D db target.property_name) >>= checked)
        (write_error D ap db address)
        (bind-Guarantees Any Any Q (lift (definition_of D db target.property_name)) checked
          (lift-Guarantees Q (definition_of D db target.property_name))
          (λ property_def _.
            bind-Guarantees Any Any Q (lift (is_unwritable property_def))
              (λ unwritable. unless_unwritable D ap db address unwritable property_def target)
              (lift-Guarantees Q (is_unwritable property_def))
              (λ unwritable _. unless_unwritable-Guarantees unwritable property_def target)))
        write_error-Guarantees
    where
      checked : Json → Exec S WriteAnswer WriteOutcome
      checked property_def = lift (is_unwritable property_def) >>= λ unwritable.
          unless_unwritable D ap db address unwritable property_def target

  -- One outcome for each property to write.
  write_all-length :
      (targets : List WriteTarget)
      → Guarantees (λ os. length os ≡ length targets) Q (write_all D ap db address targets)
  unfolding write_all
  write_all-length [] = λ s. refl
  write_all-length (target ∷ targets) =
      bind-Guarantees Any (λ os. length os ≡ suc (length targets)) Q
        (write_one D ap db address target)
        (λ outcome. write_all D ap db address targets >>= λ os. pure (outcome ∷ os))
        (write_one-Guarantees target)
        (λ outcome _.
          bind-Guarantees (λ os. length os ≡ length targets)
            (λ os. length os ≡ suc (length targets)) Q (write_all D ap db address targets)
            (λ os. pure (outcome ∷ os)) (write_all-length targets) (λ os h s. cong suc h))

resolve_writes-length :
    (D : Schema) (db : Db D) (props : List Json)
    → length (resolve_writes D db props).0 + length (resolve_writes D db props).1 ≡ length props
unfolding resolve_writes
resolve_writes-length D db [] = refl
resolve_writes-length D db (prop_obj ∷ props) =
    by_result (resolve_write D db prop_obj) (resolve_writes D db props)
      (resolve_writes-length D db props)
  where
    by_result :
        (r : Result WriteTarget) (rest : List WriteOutcome × List WriteTarget)
        → length rest.0 + length rest.1 ≡ length props
        → length (put_write D db r rest).0 + length (put_write D db r rest).1 ≡ suc (length props)
    by_result (ok target) (errors, targets) h = omega (arith, h)
    by_result (raise e) (errors, targets) h = omega (arith, h)

-- a request to write one characteristic
abbrev pub write_body : String → String → String → Json
write_body service char value_b64 =
    let ble_map = obj (field "serviceID" (str service) (field "characteristicID" (str char) end)) in
    obj (field "sdfProtocolMap" (obj (field "ble" ble_map end)) (field "value" (str value_b64) end))

module _ (D : Schema) {S : Type 0} (ap : AccessPoint S) (db : Db D) where
  write_targets-Lists :
      (address : String) (errors : List WriteOutcome) (targets : List WriteTarget) (n : ℕ)
      → length errors + length targets ≡ n
      → Guarantees Any (Lists n) (write_targets D ap db address (errors, targets))
  unfolding write_targets
  write_targets-Lists address errors targets n h s =
      then-Guarantees Any Any (Lists n)
        (connect_first ap address implicit_connect (write_services targets)) rest
        (connect_first-Guarantees (Lists n) ap address implicit_connect (write_services targets))
        (bind-Guarantees (λ os. length os ≡ length targets) Any (Lists n)
          (write_all D ap db address targets) ends
          (write_all-length D (Lists n) ap db address targets)
          (λ os same.
            then-Guarantees Any Any (Lists n) (disconnect_last ap address implicit_connect)
              (return (outcomes (errors ++ os)))
              (disconnect_last-Guarantees (Lists n) ap address implicit_connect)
              (λ s'. omega (arith, length-append errors os, same, h))))
        s
    where
      implicit_connect : Bool
      implicit_connect = not (is_some (ap.get_connection address s))

      ends : List WriteOutcome → Exec S WriteAnswer WriteAnswer
      ends os = disconnect_last ap address implicit_connect >> return (outcomes (errors ++ os))

      rest : Exec S WriteAnswer WriteAnswer
      rest = write_all D ap db address targets >>= ends

  module _ (device_id : String) where
    answers_all :
        (body : Json)
        → Guarantees Any
            (Lists (length (entries body)))
            (write_properties D ap device_id db (ok body))
    unfolding write_properties
    answers_all body =
        try-Guarantees Any Good (try (lift (ok body)) missing >>= checked) failure
          (bind-Guarantees (λ j. j ≡ body) Any Good (try (lift (ok body)) missing) checked
            (λ s. refl)
            (λ j same.
              subst (λ k. Guarantees Any Good (checked k)) (sym same)
                (then-Guarantees Any Any Good (return_if (no_list body) missing_body) (rest body)
                  (return_if-Guarantees Any Good (no_list body) missing_body tt tt)
                  (then-Guarantees Any Any Good (return_if absent unknown) (targets body)
                    (return_if-Guarantees Any Good absent unknown tt tt)
                    (write_targets-Lists address (resolved body).0 (resolved body).1
                      (length (entries body)) (resolve_writes-length D db (entries body)))))))
          (λ e s. tt)
      where
        Good : WriteAnswer → Type 0
        Good = Lists (length (entries body))

        missing : Exc → Exec S WriteAnswer Json
        missing e = return missing_body

        failure : Exc → Exec S WriteAnswer WriteAnswer
        failure e = return (write_refused (problem property_write_failed 500))

        no_list : Json → Bool
        no_list j = not (truthy j) || not (is_list j)

        absent : Bool
        absent = no_device D ap device_id db

        unknown : WriteAnswer
        unknown = write_refused (problem invalid_id 404)

        address : String
        address = address_of (find_ble D ap device_id db)

        resolved : Json → List WriteOutcome × List WriteTarget
        resolved j = resolve_writes D db (entries j)

        targets : Json → Exec S WriteAnswer WriteAnswer
        targets j = write_targets D ap db address (resolved j)

        rest : Json → Exec S WriteAnswer WriteAnswer
        rest j = return_if absent unknown >> targets j

        checked : Json → Exec S WriteAnswer WriteAnswer
        checked j = return_if (no_list j) missing_body >> rest j

    -- When `write_properties` answers a parsed body with a list, the list has one outcome for each
    -- entry of the body.
    pub write_properties-length :
        (body : Json) (s s' : S) (os : List WriteOutcome)
        → write_properties D ap device_id db (ok body) s ≡ (returned (outcomes os), s')
        → length os ≡ length (entries body)
    write_properties-length body s s' os h =
        subst (λ r. Ends Any (Lists (length (entries body))) r.0) h (answers_all body s)

    -- For a known device and a body with a service, a characteristic and the Base64 of some bytes:
    -- if the access point's write of exactly these bytes to the lower-case service and
    -- characteristic succeeds, `write_characteristic` answers 200 with the same value, and the
    -- access point is left as that write left it.
    pub write_characteristic_sends :
        (service char : String) (bytes : List ℕ) (device : BleExtension) (s s' : S)
        → All (λ b. b < 256) bytes
        → find_ble D ap device_id db ≡ some device
        → ap.write device.device_mac_address (lower service) (lower char) bytes s ≡ (ok tt, s')
        → write_characteristic D ap device_id db (ok (write_body service char (b64encode bytes))) s
          ≡ (returned (json (obj (field "value" (str (b64encode bytes)) end)) 200), s')
    unfolding write_characteristic get get_default find_field
    write_characteristic_sends service char bytes device s s' small known sent =
        ground (arith, b64decode-b64encode bytes small)
