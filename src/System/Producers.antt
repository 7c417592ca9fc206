-- ===== src/System/Producers.antt =====
-- The producers and finalizers of eosio.system: their registers, the finalizer policy and the
-- election.
mod State
mod Packing
mod Registration
mod Policy
mod Keys
mod Ring
mod Adding
mod Removing
mod Room
mod KeyCalls
mod KeyRing
mod KeyRuns
mod KeyReturn
mod Quorum
mod Elections
mod Unelected
mod Taking
mod Elected
mod PackingTests
mod Tests
pub use State.*
unfoldable pub use Packing.*
unfoldable pub use Registration.*
unfoldable pub use Policy.*
unfoldable pub use Keys.*
pub use Ring.{IsKeyRing, owned, count_of}
pub use Room.{HasRoom}
pub use KeyCalls.*
pub use KeyRing.*
pub use KeyRuns.*
pub use KeyReturn.*
pub use Quorum.*
unfoldable pub use Elections.*
pub use Unelected.*
pub use Elected.*
