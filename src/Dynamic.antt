-- ===== src/Dynamic.antt =====
-- The run-time databases: ddspipe_core/dynamic.
pub mod AllowedTopicList
pub mod ParticipantsDatabase
pub mod DiscoveryDatabase
mod Tests
