-- ===== src/Volte.antt =====
-- Voice calls: VoLTECallManager of ims/volte.py with the voice calls of RadioHAL (hal/radio_hal.py),
-- which call each other where each was given the other. Both cases are modelled.
pub mod State
pub mod Media
pub mod Outgoing
pub mod Hold
pub mod Transfer
pub mod Voice
pub mod Multi
pub mod Incoming
pub mod Signals
pub mod Service
pub mod Tables
pub mod Indexes
pub mod Invariant
pub mod CallsKept
pub mod HoldsKept
pub mod VoicesKept
pub mod MultiKept
pub mod SignalsKept
pub mod DispatchKept
pub mod Reach
pub mod Held
pub mod Ended
pub mod Races
pub mod Apart
pub mod Arrivals
pub mod Conversation
