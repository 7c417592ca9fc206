-- ===== src/System/Random.antt =====
-- The random numbers of eosio.system (contracts/eosio.system/include/headers/RandomnessProvider.hpp,
-- of which contracts/twig.token/include/headers has a copy that nothing includes).
mod Rolls
mod Bounds
mod Uses
mod Halving
mod Tests
unfoldable pub use Rolls.*
pub use Bounds.*
pub use Uses.*
pub use Halving.*
