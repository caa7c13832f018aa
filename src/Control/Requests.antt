-- ===== src/Control/Requests.antt =====
-- A request from end to end: the session begins with what is committed, and what the handler has
-- not committed is rolled back. An exception that nothing caught is answered with 500, but a
-- `BadRequest` of the request's parser with 400.
use tiedie.Prelude.{none}
use tiedie.Python.{Exc, bad_request}
use tiedie.Python.Handlers.{Exec, serve}
use tiedie.Database.Session.{Schema, Db, Session, begin}
use tiedie.Control.Responses.{Response, empty}

abbrev pub uncaught : Exc → Response
uncaught bad_request = empty 400 none
uncaught e = empty 500 none

module _ {D : Schema} where
  -- the response
  abbrev pub respond : Exec (Session D) Response Response → Db D → Response
  respond handler db = (serve uncaught handler (begin db)).0

  -- the database afterwards
  abbrev pub after : Exec (Session D) Response Response → Db D → Db D
  after handler db = (serve uncaught handler (begin db)).1.stored

-- a handler that works on the access point alone
abbrev pub reply : {S : Type 0} → Exec S Response Response → S → Response
reply handler s = (serve uncaught handler s).0

abbrev pub state_after : {S : Type 0} → Exec S Response Response → S → S
state_after handler s = (serve uncaught handler s).1
