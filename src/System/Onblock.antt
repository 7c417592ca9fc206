-- ===== src/System/Onblock.antt =====
-- The action that runs for every block: it joins the recent blocks, the random numbers, the lucky
-- number, the random calls and the election.
mod Action
mod Sound
mod Tests
unfoldable pub use Action.*
pub use Sound.*
