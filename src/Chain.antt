-- ===== src/Chain.antt =====
-- The chain as the contracts see it: outcomes of actions, tables, and the environment of a call.
mod Outcome
mod Tables
mod Types
mod Assets
mod Sends
mod Sums
mod Scopes
pub mod Listed
pub use Outcome.*
pub use Scopes.*
unfoldable pub use Sums.*
unfoldable pub use Tables.*
pub use Types.*
pub use Assets.*
pub use Sends.*
