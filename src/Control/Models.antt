-- ===== src/Control/Models.antt =====
-- `register_sdf_model`, `get_sdf_model`, `update_sdf_model` and `delete_sdf_model` of
-- gateway/control.py. `urllib.parse.unquote` is an argument.
pub mod Names
pub mod Registration
pub mod Changes
mod Tests
use mathlib.Core.Option
use tiedie.Prelude.{
  Bool, true, false, not, ◌||◌, ◌&&◌, Option, none, some, List, [], ◌∷◌, String, ◌==◌,
  if◌then◌else◌,
}
use tiedie.Python.{Exc, Result, ok, schema_error}
use tiedie.Python
use tiedie.Python.Handlers.{Exec, return, lift, try, return_if, ◌>>=◌, ◌>>◌}
use tiedie.Json.{
  Json, Items, str, arr, obj, nil, cons, end, field, get, index, contains, json_eq, is_some,
}
use tiedie.Sdf.{SdfModel}
use tiedie.Database.Tables.{Table}
use tiedie.Database.Session.{Schema, Db, Session, commit, flush, query}
use tiedie.Control.Responses.{
  Response, json, Request, create_nipc_problem_response, is_missing, or_nil, invalid_sdf_url,
  sdf_model_already_registered, about_blank,
}
use Names.{sdf_name_of}

abbrev pub by_name : String → SdfModel → Bool
by_name sdf_name m = m.sdf_name == sdf_name

-- {"sdfName": name}; `SdfModel.serialize` is the same
abbrev pub sdf_name_json : String → Json
sdf_name_json sdf_name = obj (field "sdfName" (str sdf_name) end)

abbrev pub names_json : List SdfModel → Items
names_json [] = nil
names_json (m ∷ ms) = cons (sdf_name_json m.sdf_name) (names_json ms)

-- `k in new and new[k] != orig.get(k)`
unfoldable pub changes : String → Json → Json → Result Bool
changes k new orig = Python.◌>>=◌ (contains k new) (λ inside.
    if inside
    then Python.◌>>=◌ (index new k) (λ a. Python.◌>>=◌ (get orig k) (λ b. ok (not (json_eq a b))))
    else ok false)

-- Does the new model change 'namespace' or 'defaultNamespace'?
unfoldable pub changes_namespace : Json → Json → Result Bool
unfolding changes
changes_namespace new orig =
    Python.◌>>=◌ (changes "namespace" new orig)
      (λ first. if first then ok true else changes "defaultNamespace" new orig)

module _ (D : Schema) where
  abbrev pub find_model : String → Db D → Option SdfModel
  find_model sdf_name db = D.sdf_model.first (by_name sdf_name) db.sdf_model

  abbrev pub add_model : SdfModel → Db D → Option (Db D)
  add_model m db = Option.map (λ t. record db { sdf_model = t }) (D.sdf_model.add m db.sdf_model)

  abbrev pub register_error : Exc → Exec (Session D) Response Response
  register_error schema_error = return (create_nipc_problem_response invalid_sdf_url 400)
  register_error e = return (create_nipc_problem_response about_blank 500)

  unfoldable pub register_sdf_model : Request → Exec (Session D) Response Response
  register_sdf_model request = do
    return_if (not request.is_json) (create_nipc_problem_response invalid_sdf_url 400)
    try
        (do
          sdf_model ← lift request.get_json
          sdf_name ← lift (sdf_name_of sdf_model)
          existing ← query (find_model sdf_name)
          return_if (is_some existing)
              (create_nipc_problem_response sdf_model_already_registered 409)
          flush (add_model (record { sdf_name = sdf_name; model = sdf_model }))
          commit
          return (json (arr (cons (sdf_name_json sdf_name) nil)) 200))
        register_error

  abbrev pub found_model : Option SdfModel → Exec (Session D) Response Response
  found_model none = return (create_nipc_problem_response invalid_sdf_url 404)
  found_model (some m) = return (json m.model 200)

  module _ (unquote : String → String) where
    unfoldable pub get_sdf_model : Request → Exec (Session D) Response Response
    get_sdf_model request =
        if is_missing request.arg
        then (do
          models ← query (λ db. D.sdf_model.all (λ _. true) db.sdf_model)
          return (json (arr (names_json models)) 200))
        else (do model ← query (find_model (unquote (or_nil request.arg))); found_model model)

    abbrev pub update_found :
        String → Request → Option SdfModel → Exec (Session D) Response Response
    update_found sdf_name request none = return (create_nipc_problem_response invalid_sdf_url 404)
    update_found sdf_name request (some model) =
        try
          (do
            sdf_model ← lift request.get_json
            changed ← lift (changes_namespace sdf_model model.model)
            return_if changed (create_nipc_problem_response invalid_sdf_url 400)
            flush (λ db. some (record db {
              sdf_model =
                  D.sdf_model.update (by_name sdf_name) (λ m. record m { model = sdf_model })
                    db.sdf_model;
            }))
            commit
            return (json (sdf_name_json sdf_name) 200))
          (λ e. return (create_nipc_problem_response about_blank 500))

    unfoldable pub update_sdf_model : Request → Exec (Session D) Response Response
    update_sdf_model request = do
      return_if (is_missing request.arg) (create_nipc_problem_response invalid_sdf_url 400)
      return_if (not request.is_json) (create_nipc_problem_response invalid_sdf_url 400)
      model ← query (find_model (unquote (or_nil request.arg)))
      update_found (unquote (or_nil request.arg)) request model

    abbrev pub delete_found : String → Option SdfModel → Exec (Session D) Response Response
    delete_found sdf_name none = return (create_nipc_problem_response invalid_sdf_url 404)
    delete_found sdf_name (some model) = do
      flush (λ db.
          some (record db { sdf_model = D.sdf_model.delete (by_name sdf_name) db.sdf_model }))
      commit
      return (json (sdf_name_json sdf_name) 200)

    unfoldable pub delete_sdf_model : Request → Exec (Session D) Response Response
    delete_sdf_model request = do
      return_if (is_missing request.arg) (create_nipc_problem_response invalid_sdf_url 400)
      model ← query (find_model (unquote (or_nil request.arg)))
      delete_found (unquote (or_nil request.arg)) model
