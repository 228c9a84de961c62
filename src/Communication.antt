-- ===== src/Communication.antt =====
-- The bridges of ddspipe/ddspipe_core/src/cpp/communication/dds, which take the data of one topic
-- from the readers of its participants to their writers.
pub mod Attempt
pub mod Handles
pub mod Track
pub mod DdsBridge
mod Tests
