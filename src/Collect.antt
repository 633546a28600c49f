-- ===== src/Collect.antt =====
-- collect/collect.go: the collector, which gathers spans into traces and sends or drops each
-- trace by one sampling decision. The children model its state, the life of a trace, and the loop.
pub mod State
pub mod Send
pub mod Process
pub mod Sent
pub mod Weight
pub mod Invariant
pub mod Keeps
pub mod Conserve
pub mod Loop
pub mod Flush
pub mod Expiry
pub mod Move
pub mod Reload
pub mod Overrun
pub mod Ejected
pub mod Heaviest
pub mod Enough
pub mod History
pub mod Fate
pub mod Observe
