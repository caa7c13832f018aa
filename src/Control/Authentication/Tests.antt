-- ===== src/Control/Authentication/Tests.antt =====
-- Who passes, on a database with one application that has a token and no certificate.
use tiedie.Prelude.{◌≡◌, ◌≢◌, refl, none, some, ◌==◌, find_first}
use tiedie.Python.Handlers.{Exec, returned, return}
use tiedie.Database.Rows.{EndpointApp}
use tiedie.Database.Tables.{IsTable}
use tiedie.Database.Memory.{memory, memory-IsTable}
use tiedie.Control.Responses.{Response, empty}
use tiedie.Control.Samples.{endpoint, full_db}
use tiedie.Control.Authentication.{authenticate_user, Credentials, unauthorized}
use tiedie.Control.Authentication.Access.{
  Presents, authenticate_user-Presents, nameless_certificate_passes,
}

abbrev laws : IsTable memory.endpoint_app (λ r q. r.id == q.id)
laws = memory-IsTable (λ r q. r.id == q.id)

abbrev with_token : Credentials
with_token = record { peercert = none; api_key = some "secret" }

abbrev handler : Exec (Unit {0}) Response Response
handler = return (empty 204 none)

passes : authenticate_user memory full_db with_token handler tt ≢ (returned unauthorized, tt)
unfolding authenticate_user find_first
passes h = cc

authenticate_user-Presents_example :
    (app : EndpointApp) × laws.Has app full_db.endpoint_app
    × Presents memory laws full_db with_token app
authenticate_user-Presents_example =
    authenticate_user-Presents memory laws full_db with_token handler tt passes

found : memory.endpoint_app.first (λ app. app.id == "app") full_db.endpoint_app ≡ some endpoint
unfolding find_first
found = refl

nameless_certificate_passes_example :
    authenticate_user memory full_db (record { peercert = some none; api_key = none }) handler
    ≡ handler
nameless_certificate_passes_example =
    nameless_certificate_passes memory laws full_db endpoint none handler
      (laws.first_has (λ app. app.id == "app") full_db.endpoint_app endpoint found).0 refl
