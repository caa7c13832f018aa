-- ===== src/Control/Models/Registration.antt =====
-- What the registration of a model changes, and what a later request sees.
use Prim.Native.Nat.{◌≤◌}
use tiedie.Prelude.{◌≡◌, refl, ap, true, false, Option, none, some, String, arith, eq_refl}
use tiedie.Python.{ok}
use tiedie.Json.{Json, arr, cons, nil}
use tiedie.Sdf.{SdfModel}
use tiedie.Database.Tables.{first-add}
use tiedie.Database.Session.{Schema, Db, IsLawful}
use tiedie.Control.Responses.{
  json, Request, status_of, problem, is_missing, or_nil, sdf_model_already_registered,
}
use tiedie.Control.Models.{register_sdf_model, get_sdf_model, find_model, by_name, sdf_name_json}
use tiedie.Control.Models.Names.{sdf_name_of}
use tiedie.Control.Requests.{respond, after}

module _ (D : Schema) (request : Request) (db : Db D) where
  -- A registration of a model that is answered with a status of 400 or more commits nothing.
  pub register_failure :
      400 ≤ status_of (respond (register_sdf_model D request) db)
      → after (register_sdf_model D request) db ≡ db
  unfolding register_sdf_model
  register_failure h = ground arith

  module _ (model : Json) (sdf_name : String) (is_json : request.is_json ≡ true)
      (body : request.get_json ≡ ok model) (named : sdf_name_of model ≡ ok sdf_name) where
    -- A JSON model whose name is computed and already registered is refused with 409, and nothing
    -- is committed.
    pub register_again :
        (m : SdfModel)
        → find_model D sdf_name db ≡ some m
        → (respond (register_sdf_model D request) db ≡ problem sdf_model_already_registered 409)
          × (after (register_sdf_model D request) db ≡ db)
    unfolding register_sdf_model
    register_again m taken = ground arith

    register_fresh :
        (t : D.sdf_model.Contents)
        → find_model D sdf_name db ≡ none
        → D.sdf_model.add (record { sdf_name = sdf_name; model = model }) db.sdf_model ≡ some t
        → (respond (register_sdf_model D request) db
            ≡ json (arr (cons (sdf_name_json sdf_name) nil)) 200)
          × (after (register_sdf_model D request) db ≡ record db { sdf_model = t })
    unfolding register_sdf_model
    register_fresh t fresh added = ground arith

    register_clash :
        find_model D sdf_name db ≡ none
        → D.sdf_model.add (record { sdf_name = sdf_name; model = model }) db.sdf_model ≡ none
        → status_of (respond (register_sdf_model D request) db) ≡ 500
    unfolding register_sdf_model
    register_clash fresh clash = ground arith

    module _ (L : IsLawful D) (unquote : String → String) (asked : Request)
        (given : is_missing asked.arg ≡ false)
        (same_name : unquote (or_nil asked.arg) ≡ sdf_name) where
      get_found :
          (db' : Db D) (m : SdfModel)
          → find_model D sdf_name db' ≡ some m
          → respond (get_sdf_model D unquote asked) db' ≡ json m.model 200
      unfolding get_sdf_model
      get_found db' m found = ground arith

      -- With lawful tables: after the registration of a JSON model with a computed name is
      -- answered with 200, a request for that name gets the model.
      pub get-register :
          status_of (respond (register_sdf_model D request) db) ≡ 200
          → respond (get_sdf_model D unquote asked) (after (register_sdf_model D request) db)
            ≡ json model 200
      get-register accepted = by_find (find_model D sdf_name db) refl
        where
          new_row : SdfModel
          new_row = record { sdf_name = sdf_name; model = model }

          by_add :
              (o : Option D.sdf_model.Contents)
              → D.sdf_model.add new_row db.sdf_model ≡ o
              → find_model D sdf_name db ≡ none
              → respond (get_sdf_model D unquote asked) (after (register_sdf_model D request) db)
                ≡ json model 200
          by_add none clash fresh = absurd (omega (arith, accepted, register_clash fresh clash))
          by_add (some t) added fresh = rw (register_fresh t fresh added).1 (
              get_found (record db { sdf_model = t }) new_row
                (first-add D.sdf_model L.sdf_model (by_name sdf_name) new_row db.sdf_model t fresh
                  (eq_refl sdf_name) added))

          by_find :
              (o : Option SdfModel)
              → find_model D sdf_name db ≡ o
              → respond (get_sdf_model D unquote asked) (after (register_sdf_model D request) db)
                ≡ json model 200
          by_find (some m) taken =
              absurd (omega (arith, accepted, ap status_of (register_again m taken).0))
          by_find none fresh = by_add (D.sdf_model.add new_row db.sdf_model) refl fresh
