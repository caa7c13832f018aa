-- ===== src/Control/Lookup.antt =====
-- The check of an event name that registrations share: it must name something in a stored model.
use tiedie.Prelude.{true, not, List, [], ◌∷◌, String, ◌==◌, if◌then◌else◌}
use tiedie.Python.{Result, ok, raise, ◌>>=◌}
use tiedie.Python.Handlers.{Flow, value, returned, raised}
use tiedie.Json.{Json, get, truthy}
use tiedie.Sdf.{parse_sdf_reference, lookup_sdf_model, navigate_sdf_model}
use tiedie.Database.Session.{Schema, Db}
use tiedie.Control.Responses.{Response, create_nipc_problem_response, invalid_sdf_url}

-- A model that is found may be empty, which ends the handler.
pub data Checked : Type 0 where
  no_model : Checked
  definition : Json → Checked

module _ (D : Schema) where
  unfoldable pub lookup_model : Db D → String → Result Json
  lookup_model db namespace =
      lookup_sdf_model (D.sdf_model.first (λ m. m.sdf_name == namespace) db.sdf_model)
        (D.sdf_model.all (λ _. true) db.sdf_model) namespace

  -- parse the reference, look the model up, and navigate to the definition
  unfoldable pub resolve_event : Db D → Json → Result Checked
  unfolding lookup_model
  resolve_event db event_name = do
    reference ← parse_sdf_reference event_name
    model ← lookup_model db reference.0
    if not (truthy model)
        then ok no_model
        else (do found ← navigate_sdf_model model reference.1; ok (definition found))

  abbrev checked_event : Result Checked → Flow Response (Unit {0}) → Flow Response (Unit {0})
  checked_event (raise e) rest = raised e
  checked_event (ok no_model) rest = returned (create_nipc_problem_response invalid_sdf_url 400)
  checked_event (ok (definition found)) rest = rest

  -- the loop over the events of a registration
  unfoldable pub check_events : Db D → List Json → Flow Response (Unit {0})
  check_events db [] = value tt
  check_events db (event ∷ events) =
      let rest = check_events db events in
      checked_event (get event "event" >>= resolve_event db) rest
