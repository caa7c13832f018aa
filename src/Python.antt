-- ===== src/Python.antt =====
-- Exceptions and control flow of the Python code: results in `Defs`, request handlers in
-- `Handlers`, and what handlers guarantee in `Guarantees`.
mod Defs
pub mod Handlers
pub mod Guarantees
pub use Defs.*
