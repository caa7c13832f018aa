-- ===== src/Control/Models/Changes.antt =====
-- What the update and the deletion of a model change, and what a later request sees.
use Prim.Native.Nat.{◌≤◌}
use tiedie.Prelude.{◌≡◌, ap, true, false, none, some, String, arith}
use tiedie.Python.{ok}
use tiedie.Json.{Json, Fields, obj, find_field, contains}
use tiedie.Sdf.{SdfModel}
use tiedie.Database.Tables.{first-delete, first-update}
use tiedie.Database.Session.{Schema, Db, IsLawful}
use tiedie.Control.Responses.{
  json, Request, status_of, problem, is_missing, or_nil, invalid_sdf_url,
}
use tiedie.Control.Requests.{respond, after}
use tiedie.Control.Models.{
  get_sdf_model, update_sdf_model, delete_sdf_model, find_model, by_name, sdf_name_json, changes,
  changes_namespace,
}

module _ (D : Schema) (unquote : String → String) (request : Request) (db : Db D) where
  -- An update of a model that is answered with a status of 400 or more commits nothing.
  pub update_failure :
      400 ≤ status_of (respond (update_sdf_model D unquote request) db)
      → after (update_sdf_model D unquote request) db ≡ db
  unfolding update_sdf_model
  update_failure h = ground arith

  module _ (given : is_missing request.arg ≡ false) where
    abbrev asked_name : String
    asked_name = unquote (or_nil request.arg)

    get_missing :
        (db' : Db D)
        → find_model D asked_name db' ≡ none
        → respond (get_sdf_model D unquote request) db' ≡ problem invalid_sdf_url 404
    unfolding get_sdf_model
    get_missing db' missing = ground arith

    get_found :
        (db' : Db D) (m : SdfModel)
        → find_model D asked_name db' ≡ some m
        → respond (get_sdf_model D unquote request) db' ≡ json m.model 200
    unfolding get_sdf_model
    get_found db' m found = ground arith

    delete_known :
        (m : SdfModel)
        → find_model D asked_name db ≡ some m
        → (respond (delete_sdf_model D unquote request) db ≡ json (sdf_name_json asked_name) 200)
          × (after (delete_sdf_model D unquote request) db
              ≡ record db { sdf_model = D.sdf_model.delete (by_name asked_name) db.sdf_model })
    unfolding delete_sdf_model
    delete_known m found = ground arith

    -- With lawful tables: the deletion of a registered model by its name answers 200, and a later
    -- request for the name answers 404.
    pub get-delete :
        (L : IsLawful D) (m : SdfModel)
        → find_model D asked_name db ≡ some m
        → (status_of (respond (delete_sdf_model D unquote request) db) ≡ 200)
          × (respond
                (get_sdf_model D unquote request)
                (after (delete_sdf_model D unquote request) db)
              ≡ problem invalid_sdf_url 404)
    get-delete L m found = (
      ap status_of (delete_known m found).0,
      rw (delete_known m found).1
          (get_missing _ (first-delete D.sdf_model L.sdf_model (by_name asked_name) db.sdf_model)),
    )

    module _ (model : Json) (old : SdfModel) (is_json : request.is_json ≡ true)
        (body : request.get_json ≡ ok model) (found : find_model D asked_name db ≡ some old) where
      abbrev replace : SdfModel → SdfModel
      replace m = record m { model = model }

      -- An update of a registered model with a JSON body that changes 'namespace' or
      -- 'defaultNamespace' is refused with 400, and nothing is committed.
      pub update_refused :
          changes_namespace model old.model ≡ ok true
          → (respond (update_sdf_model D unquote request) db ≡ problem invalid_sdf_url 400)
            × (after (update_sdf_model D unquote request) db ≡ db)
      unfolding update_sdf_model
      update_refused changed = ground arith

      update_accepted :
          changes_namespace model old.model ≡ ok false
          → (respond (update_sdf_model D unquote request) db ≡ json (sdf_name_json asked_name) 200)
            × (after (update_sdf_model D unquote request) db ≡ record db {
              sdf_model = D.sdf_model.update (by_name asked_name) replace db.sdf_model;
            })
      unfolding update_sdf_model
      update_accepted same = ground arith

      -- With lawful tables: an update of a registered model with a JSON body that changes neither
      -- 'namespace' nor 'defaultNamespace' answers 200, and a later request for the name gets the
      -- new model.
      pub get-update :
          (L : IsLawful D)
          → changes_namespace model old.model ≡ ok false
          → (status_of (respond (update_sdf_model D unquote request) db) ≡ 200)
            × (respond
                  (get_sdf_model D unquote request)
                  (after (update_sdf_model D unquote request) db)
                ≡ json model 200)
      get-update L same =
          let (q, m, e) =
            first-update D.sdf_model L.sdf_model (by_name asked_name) replace db.sdf_model old
              (λ q h. h) found in
          (
            ap status_of (update_accepted same).0,
            rw (update_accepted same).1 (get_found _ (replace q) e),
          )

-- A dict without the two keys changes neither, whatever the old model is.
changes_nothing :
    (k : String) (fs : Fields) (orig : Json)
    → find_field k fs ≡ none
    → changes k (obj fs) orig ≡ ok false
unfolding changes contains
changes_nothing k fs orig h = rw h

changes_namespace_nothing :
    (fs : Fields) (orig : Json)
    → find_field "namespace" fs ≡ none
    → find_field "defaultNamespace" fs ≡ none
    → changes_namespace (obj fs) orig ≡ ok false
unfolding changes_namespace
changes_namespace_nothing fs orig h h' =
    rw (changes_nothing "namespace" fs orig h) (changes_nothing "defaultNamespace" fs orig h')

-- With lawful tables: an update of a registered model with a dict that has neither 'namespace' nor
-- 'defaultNamespace' answers 200, and a later request for the name gets that dict, whatever
-- namespaces the old model had.
pub update_drops_namespace :
    (D : Schema) (L : IsLawful D) (unquote : String → String) (request : Request) (db : Db D)
    (fs : Fields) (old : SdfModel)
    → is_missing request.arg ≡ false
    → request.is_json ≡ true
    → request.get_json ≡ ok (obj fs)
    → find_model D (unquote (or_nil request.arg)) db ≡ some old
    → find_field "namespace" fs ≡ none
    → find_field "defaultNamespace" fs ≡ none
    → (status_of (respond (update_sdf_model D unquote request) db) ≡ 200)
      × (respond (get_sdf_model D unquote request) (after (update_sdf_model D unquote request) db)
          ≡ json (obj fs) 200)
update_drops_namespace D L unquote request db fs old given is_json body found h h' =
    get-update D unquote request db given (obj fs) old is_json body found L
      (changes_namespace_nothing fs old.model h h')
