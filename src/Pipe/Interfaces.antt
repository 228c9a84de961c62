-- ===== src/Pipe/Interfaces.antt =====
-- What a pipe asks of the bridges of ddspipe_core/communication.
use Prim.Native.String.{String}
use ddsproxy.Common.{ℕ, Bool, true, false, Option, some, List, ◌≡◌}
use ddsproxy.Types.Topic.{DdsTopic}
use ddsproxy.Types.Rpc.{RpcTopic}
use ddsproxy.Configuration.{RoutesMap, ManualTopic}

-- DdsBridge: `make` fails by an InitializationException, and so does `create_writer`.
pub record BridgeOps (Bridge : Type 0) : Type 0 where
  pub make : DdsTopic → RoutesMap → Bool → Bool → List ManualTopic → Option Bridge
  pub enable : Bridge → Bridge
  pub disable : Bridge → Bridge
  pub create_writer : String → Bridge → Option Bridge
  pub remove_writer : String → Bridge → Bridge
  pub change_master_flag : Bool → Bridge → Bridge

-- RpcBridge
pub record RpcBridgeOps (RpcBridge : Type 0) : Type 0 where
  pub make_rpc : RpcTopic → RpcBridge
  pub enable_rpc : RpcBridge → RpcBridge
  pub disable_rpc : RpcBridge → RpcBridge
  pub discovered_service : String → ℕ → RpcBridge → RpcBridge
  pub removed_service : String → ℕ → RpcBridge → RpcBridge

-- What the pipe relies on: only `enable` and `disable` change whether a bridge is enabled, and a
-- new one is not.
pub record BridgeLaws {Bridge : Type 0} (ops : BridgeOps Bridge) : Type 0 where
  pub is_enabled : Bridge → Bool
  pub make-is_enabled :
      (t : DdsTopic) (r : RoutesMap) (u m : Bool) (ms : List ManualTopic) (b : Bridge)
      → ops.make t r u m ms ≡ some b
      → is_enabled b ≡ false
  pub enable-is_enabled : (b : Bridge) → is_enabled (ops.enable b) ≡ true
  pub disable-is_enabled : (b : Bridge) → is_enabled (ops.disable b) ≡ false
  pub create_writer-is_enabled :
      (id : String) (b b' : Bridge)
      → ops.create_writer id b ≡ some b'
      → is_enabled b' ≡ is_enabled b
  pub remove_writer-is_enabled :
      (id : String) (b : Bridge) → is_enabled (ops.remove_writer id b) ≡ is_enabled b
  pub change_master_flag-is_enabled :
      (f : Bool) (b : Bridge) → is_enabled (ops.change_master_flag f b) ≡ is_enabled b
