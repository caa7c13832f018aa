-- ===== src/Control/Authentication/Access.antt =====
-- Who passes `authenticate_user`.
use tiedie.Prelude.{
  ◌≡◌, ◌≢◌, ◌⊎◌, refl, sym, ap, inl, inr, Bool, true, Option, none, some, String, Option-cases,
  eq_iff,
}
use tiedie.Python.Handlers.{Exec, returned}
use tiedie.Database.Tables.{IsTable}
use tiedie.Database.Rows.{EndpointApp}
use tiedie.Database.Session.{Schema, Db}
use tiedie.Control.Responses.{Response}
use tiedie.Control.Authentication.{
  authenticate_user, Credentials, is_value, sender, app_of_subject, unauthorized,
}

is_value_sound : (a b : Option String) → is_value a b ≡ true → a ≡ b
is_value_sound none none h = refl
is_value_sound (some a) (some b) h = ap some ((eq_iff a b).0 h)
is_value_sound none (some b) h = cc
is_value_sound (some a) none h = cc

module _ (D : Schema) {clash : EndpointApp → EndpointApp → Bool} (L : IsTable D.endpoint_app clash)
    (db : Db D) where
  open L use {Has, first_has, first_none}

  -- The credentials are those of the application.
  abbrev pub Presents : Credentials → EndpointApp → Type 0
  Presents c app =
      (c.peercert ≡ some app.subject_name) ⊎ ((c.peercert ≡ none) × (c.api_key ≡ app.client_token))

  sender-Presents :
      (cert : Option (Option String)) (key : Option String) (app : EndpointApp)
      → sender D db cert key ≡ some app
      → Has app db.endpoint_app × Presents (record { peercert = cert; api_key = key }) app
  sender-Presents (some subject) key app found =
      let (m, e) = first_has (λ x. is_value x.subject_name subject) db.endpoint_app app found in
      (m, inl (ap some (sym (is_value_sound app.subject_name subject e))))
  sender-Presents none none app found = cc
  sender-Presents none (some token) app found =
      let (m, e) =
        first_has (λ x. is_value x.client_token (some token)) db.endpoint_app app found in
      (m, inr (refl, sym (is_value_sound app.client_token (some token) e)))

  -- With a lawful table of endpoint applications: if a wrapped handler does anything else than to
  -- refuse, the request presents a certificate with the subject of a stored application, which may
  -- both be missing, or it has no certificate and presents the token of a stored application.
  pub authenticate_user-Presents :
      {S : Type 0} (c : Credentials) (handler : Exec S Response Response) (s : S)
      → authenticate_user D db c handler s ≢ (returned unauthorized, s)
      → (app : EndpointApp) × Has app db.endpoint_app × Presents c app
  unfolding authenticate_user
  authenticate_user-Presents c handler s passed =
      elim (Option-cases (sender D db c.peercert c.api_key)) [
        | inl nobody ↦ absurd (passed (rw nobody))
        | inr (app, found) ↦
            (let (m, p) = sender-Presents c.peercert c.api_key app found in (app, m, p))
      ]

  -- With a lawful table of endpoint applications: when a stored application has no subject, a
  -- certificate whose subject has no common name passes: the wrapped handler is the handler.
  pub nameless_certificate_passes :
      {S : Type 0} (app : EndpointApp) (key : Option String) (handler : Exec S Response Response)
      → Has app db.endpoint_app
      → app.subject_name ≡ none
      → authenticate_user D db (record { peercert = some none; api_key = key }) handler ≡ handler
  unfolding authenticate_user
  nameless_certificate_passes app key handler held unnamed =
      elim (Option-cases (app_of_subject D db none)) [
        | inl nobody ↦ absurd (
            cc (
              first_none (λ x. is_value x.subject_name none) db.endpoint_app app nobody held,
              ap (λ o. is_value o none) unnamed,
            ))
        | inr (found, e) ↦ rw e
      ]
