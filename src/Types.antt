-- ===== src/Types.antt =====
-- The data that the pipe routes by: ddspipe_core/types, and Fuzzy of dev-utils/cpp_utils.
pub mod Fuzzy
pub mod TopicQos
pub mod Topic
pub mod Search
pub mod Rpc
pub mod Endpoint
pub mod Filter
mod Tests
