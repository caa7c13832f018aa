-- ===== src/Database.antt =====
-- The database of the gateway. SQLAlchemy and the server behind it are not part of the repository:
-- `Tables` has what the handlers ask of a table and its documented laws, `Rows` the rows of
-- gateway/models.py and gateway/nipc_models.py, `Session` the session of one request, and `Memory`
-- a table as a list, which meets the laws.
pub mod Tables
pub mod Rows
pub mod Session
pub mod Memory
