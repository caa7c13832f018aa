-- ===== src/Control/Authentication.antt =====
-- `authenticate_user` of gateway/control.py, which wraps every handler.
pub mod Access
mod Tests
use tiedie.Prelude.{Bool, true, false, Option, none, some, String, ◌==◌, if◌then◌else◌}
use tiedie.Python.Handlers.{Exec, return}
use tiedie.Json.{Json, str, obj, field, end, is_some}
use tiedie.Database.Tables.{Table}
use tiedie.Database.Rows.{EndpointApp}
use tiedie.Database.Session.{Schema, Db}
use tiedie.Control.Responses.{Response, json}

-- `filter_by(column=value)`: with `None` it selects the rows whose column is null
abbrev pub is_value : Option String → Option String → Bool
is_value (some a) (some b) = a == b
is_value none none = true
is_value _ _ = false

-- What a request shows of its sender: the common name of the certificate, which the subject may
-- lack, if the connection has a certificate; and the header `X-Api-Key`.
pub record Credentials : Type 0 where
  pub peercert : Option (Option String)
  pub api_key : Option String

abbrev pub unauthorized : Response
unauthorized = json (obj (field "error" (str "Unauthorized") end)) 403

module _ (D : Schema) (db : Db D) where
  abbrev pub app_of_subject : Option String → Option EndpointApp
  app_of_subject subject =
      D.endpoint_app.first (λ app. is_value app.subject_name subject) db.endpoint_app

  abbrev pub app_of_token : String → Option EndpointApp
  app_of_token token =
      D.endpoint_app.first (λ app. is_value app.client_token (some token)) db.endpoint_app

  abbrev pub app_of_key : Option String → Option EndpointApp
  app_of_key none = none
  app_of_key (some key) = app_of_token key

  -- the certificate decides, if there is one
  abbrev pub sender : Option (Option String) → Option String → Option EndpointApp
  sender (some subject) api_key = app_of_subject subject
  sender none api_key = app_of_key api_key

  unfoldable pub authenticate_user :
      {S : Type 0} → Credentials → Exec S Response Response → Exec S Response Response
  authenticate_user c handler =
      if is_some (sender c.peercert c.api_key) then handler else return unauthorized
