-- ===== src/Control.antt =====
-- The NIPC request handlers of gateway/control.py. `Responses` has requests, responses and the
-- problem types; a child for each group of handlers has the handlers, and its children their
-- properties.
--
-- A handler is an action over the session of its request. The texts `title` and `detail` of a
-- problem are for people and are not modelled. `authenticate_user` wraps every handler and is not
-- part of these definitions.
pub mod Responses
pub mod Requests
pub mod AccessPoint
pub mod Authentication
pub mod Connections
pub mod Properties
pub mod Writing
pub mod Lookup
pub mod Models
pub mod DataApps
pub mod Samples
pub mod Events
