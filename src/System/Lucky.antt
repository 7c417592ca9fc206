-- ===== src/System/Lucky.antt =====
-- The lucky number of eosio.system: when a chunk or an epoch comes, and what it pays.
mod Blocks
mod Progress
mod Calling
mod Chunks
mod Heard
mod Tests
unfoldable pub use Blocks.*
unfoldable pub use Chunks.*
pub use Progress.*
pub use Calling.*
pub use Heard.*
