-- ===== src/Rpc.antt =====
-- Request and reply forwarding: ddspipe_core/communication/rpc.
pub mod ServiceRegistry
pub mod RpcBridge
mod Tests
