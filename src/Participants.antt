-- ===== src/Participants.antt =====
-- Participants of ddspipe/ddspipe_participants: their addresses and their TLS, the validity of their
-- configurations, and what an initial peers participant asks of Fast DDS.
pub mod Address
pub mod TlsConfiguration
pub mod Configuration
pub mod InitialPeers
