-- ===== src/Control/Events/Changes.antt =====
-- What the handlers of events change, and what later requests see.
use mathlib.Core.Path.{ap₂}
use tiedie.Prelude.{
  ◌≡◌, ◌≢◌, refl, sym, ap, ◌∙◌, true, false, Option, none, some, [], ◌∷◌, String, arith,
  Option-cases, inl, inr, eq_iff,
}
use tiedie.Python.{ok}
use tiedie.Json.{obj, field, end, Json, str, arr, nil, cons, truthy}
use tiedie.Database.Tables.{first-add, first-delete}
use tiedie.Database.Rows.{Device, Event}
use tiedie.Database.Session.{Schema, Db, IsLawful, same_event}
use tiedie.Control.Responses.{
  json, empty, problem, status_of, is_missing, or_nil, invalid_id, event_already_enabled,
  about_blank,
}
use tiedie.Control.Requests.{respond, after}
use tiedie.Control.Lookup.{definition, resolve_event}
use tiedie.Control.Events.{
  enable_event, disable_event, get_events, event_row, instance_on, find_device, find_named,
  find_instance, find_instances, event_json, location,
}

-- The row is for this event, this instance and this device.
event_row-Keys :
    (event_name instance_id device_id : String) (protocol_map : Json) (row : Event)
    → event_row event_name instance_id device_id protocol_map ≡ ok row
    → (row.event_name ≡ event_name) × (row.instance_id ≡ instance_id) × (row.device_id ≡ device_id)
unfolding event_row
event_row-Keys event_name instance_id device_id protocol_map row h = ground arith

clashes : (row q : Event) → row.event_name ≡ q.event_name → same_event row q ≡ true
clashes row q h = ground (arith, eq_iff row.event_name q.event_name)

clashes_instance : (row q : Event) → row.instance_id ≡ q.instance_id → same_event row q ≡ true
clashes_instance row q h = ground (arith, eq_iff row.instance_id q.instance_id)

some_is_not-none : {A : Type 0} (a : A) → some a ≢ none
some_is_not-none a h = cc

instance_of :
    (device_id instance_id : String) (q : Event)
    → instance_on device_id instance_id q ≡ true
    → q.instance_id ≡ instance_id
instance_of device_id instance_id q h = ground (arith, eq_iff q.instance_id instance_id)

abbrev Keys : String → String → String → Event → Type 0
Keys event_name instance_id device_id row =
    (row.event_name ≡ event_name) × (row.instance_id ≡ instance_id) × (row.device_id ≡ device_id)

row_passes :
    (event_name instance_id device_id : String) (row : Event)
    → Keys event_name instance_id device_id row
    → instance_on device_id instance_id row ≡ true
row_passes event_name instance_id device_id row (_, i, d) =
    ground (arith, (eq_iff row.device_id device_id).1 d, (eq_iff row.instance_id instance_id).1 i)

abbrev event_entry : String → String → Json
event_entry event_name instance_id =
    obj (field "event" (str event_name) (field "instanceId" (str instance_id) end))

entry_of :
    (event_name instance_id device_id : String) (row : Event)
    → Keys event_name instance_id device_id row
    → event_json row ≡ event_entry event_name instance_id
entry_of event_name instance_id device_id row (n, i, _) = ap₂ event_entry n i

disable_deletes :
    (D : Schema) (device_id : String) (asked : Option String) (db : Db D)
    → status_of (respond (disable_event D device_id asked) db) ≡ 204
    → (after (disable_event D device_id asked) db).event
      ≡ D.event.delete (instance_on device_id (or_nil asked)) db.event
unfolding disable_event
disable_deletes D device_id asked db done = ground arith

get_one :
    (D : Schema) (device_id instance_id : String) (db : Db D) (event : Event)
    → find_instance D device_id instance_id db ≡ some event
    → respond (get_events D device_id (instance_id ∷ [])) db
      ≡ json (arr (cons (event_json event) nil)) 200
unfolding get_events find_instances
get_one D device_id instance_id db event found = ground arith

get_none :
    (D : Schema) (device_id instance_id : String) (db : Db D)
    → find_instance D device_id instance_id db ≡ none
    → respond (get_events D device_id (instance_id ∷ [])) db ≡ problem invalid_id 400
unfolding get_events find_instances
get_none D device_id instance_id db gone = ground arith

module _ (D : Schema) (base_url instance_id device_id : String) (asked : Option String)
    (db : Db D) where
  module _ (device : Device) (protocol_map : Json)
      (known : find_device D device_id db ≡ some device) (given : is_missing asked ≡ false)
      (resolved : resolve_event D db (str (or_nil asked)) ≡ ok (definition protocol_map))
      (usable : truthy protocol_map ≡ true) where
    -- A request to enable an event for a known device, by the name of an event that resolves to a
    -- definition with content and that is enabled for the device already, is refused with 400, and
    -- nothing is committed.
    pub enable_again :
        (event : Event)
        → find_named D (or_nil asked) device_id db ≡ some event
        → (respond (enable_event D base_url instance_id device_id asked) db
            ≡ problem event_already_enabled 400)
          × (after (enable_event D base_url instance_id device_id asked) db ≡ db)
    unfolding enable_event
    enable_again event enabled = ground arith

    module _ (row : Event)
        (made : event_row (or_nil asked) instance_id device_id protocol_map ≡ ok row)
        (fresh : find_named D (or_nil asked) device_id db ≡ none) where
      enable_added :
          (t : D.event.Contents)
          → D.event.add row db.event ≡ some t
          → (respond (enable_event D base_url instance_id device_id asked) db
              ≡ empty 201 (some (location base_url instance_id)))
            × (after (enable_event D base_url instance_id device_id asked) db
                ≡ record db { event = t })
      unfolding enable_event
      enable_added t added = ground arith

      enable_clash :
          D.event.add row db.event ≡ none
          → (respond (enable_event D base_url instance_id device_id asked) db
              ≡ problem about_blank 500)
            × (after (enable_event D base_url instance_id device_id asked) db ≡ db)
      unfolding enable_event
      enable_clash clash = ground arith

      row-Keys : Keys (or_nil asked) instance_id device_id row
      row-Keys = event_row-Keys (or_nil asked) instance_id device_id protocol_map row made

      -- An instance id that could be added was not in use.
      not_in_use :
          (L : IsLawful D) (t : D.event.Contents)
          → D.event.add row db.event ≡ some t
          → find_instance D device_id instance_id db ≡ none
      not_in_use L t added = elim (Option-cases (find_instance D device_id instance_id db)) [
        | inl gone ↦ gone
        | inr (q, found) ↦
            (let (held, passes) =
                L.event.first_has (instance_on device_id instance_id) db.event q found in
              absurd (
                some_is_not-none t (
                  sym added
                  ∙ L.event.add_clash row q db.event held (
                      clashes_instance row q
                        (row-Keys.1 ∙ sym (instance_of device_id instance_id q passes))))))
      ]

      -- With lawful tables: a request to enable an event for a known device, by the name of an
      -- event that resolves to a definition with content, for which a row can be made and that is
      -- not enabled for the device yet, if answered with 201, makes a later request for the
      -- instance id list that event.
      pub get-enable :
          (L : IsLawful D)
          → status_of (respond (enable_event D base_url instance_id device_id asked) db) ≡ 201
          → respond
              (get_events D device_id (instance_id ∷ []))
              (after (enable_event D base_url instance_id device_id asked) db)
            ≡ json (arr (cons (event_entry (or_nil asked) instance_id) nil)) 200
      get-enable L created = by_add (D.event.add row db.event) refl
        where
          by_add :
              (o : Option D.event.Contents)
              → D.event.add row db.event ≡ o
              → respond
                  (get_events D device_id (instance_id ∷ []))
                  (after (enable_event D base_url instance_id device_id asked) db)
                ≡ json (arr (cons (event_entry (or_nil asked) instance_id) nil)) 200
          by_add none clash = absurd (omega (arith, created, ap status_of (enable_clash clash).0))
          by_add (some t) added = rw (enable_added t added).1 (
              get_one D device_id instance_id (record db { event = t }) row
                (first-add D.event L.event (instance_on device_id instance_id) row db.event t
                  (not_in_use L t added)
                  (row_passes (or_nil asked) instance_id device_id row row-Keys) added)
              ∙ ap (λ j. json (arr (cons j nil)) 200)
                  (entry_of (or_nil asked) instance_id device_id row row-Keys))

      -- With lawful tables: a request to enable an event for a known device, by the name of an
      -- event that resolves to a definition with content, for which a row can be made and that is
      -- not enabled for the device yet, is answered with 500 and commits nothing if an event of
      -- the same name is stored, for whatever device.
      pub enable_elsewhere :
          (L : IsLawful D) (q : Event)
          → L.event.Has q db.event
          → q.event_name ≡ or_nil asked
          → (respond (enable_event D base_url instance_id device_id asked) db
              ≡ problem about_blank 500)
            × (after (enable_event D base_url instance_id device_id asked) db ≡ db)
      enable_elsewhere L q held same =
          enable_clash
            (L.event.add_clash row q db.event held (clashes row q (row-Keys.0 ∙ sym same)))

-- With lawful tables: after a request to disable an event is answered with 204, a request for its
-- instance id is answered with 400.
pub get-disable :
    (D : Schema) (L : IsLawful D) (device_id : String) (asked : Option String) (db : Db D)
    → status_of (respond (disable_event D device_id asked) db) ≡ 204
    → respond
        (get_events D device_id (or_nil asked ∷ []))
        (after (disable_event D device_id asked) db)
      ≡ problem invalid_id 400
get-disable D L device_id asked db done =
    get_none D device_id (or_nil asked) (after (disable_event D device_id asked) db) (
      ap (D.event.first (instance_on device_id (or_nil asked)))
        (disable_deletes D device_id asked db done)
      ∙ first-delete D.event L.event (instance_on device_id (or_nil asked)) db.event)
