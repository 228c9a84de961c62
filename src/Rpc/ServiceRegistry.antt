-- ===== src/Rpc/ServiceRegistry.antt =====
-- ServiceRegistry of ddspipe/ddspipe_core/src/cpp/communication/rpc/ServiceRegistry.cpp: for each
-- request that a proxy client forwarded, who must get the reply. `SampleIdentity` is a type of
-- Fast DDS and stays a parameter, with its default value; sequence numbers are plain numbers.
pub mod Capacity
use Prim.Native.String.{String}
use ddsproxy.Common.{
  ℕ, Bool, true, false, Option, none, some, List, [], ◌∷◌, if◌then◌else◌, nat_beq, length, nat_key,
}
use ddsproxy.Common.Ordered.{erase_begin}
use ddsproxy.Common.Map.{Map, find, has, insert, erase}

abbrev pub default_max_entries : ℕ
default_max_entries = 5000

pub record ServiceRegistry (SampleIdentity : Type 0) : Type 0 where
  pub participant_id : String
  pub enabled : Bool
  pub registry : Map ℕ (String × SampleIdentity)

module _ {SampleIdentity : Type 0} where
  unfoldable pub init : String → ServiceRegistry SampleIdentity
  init id = record { participant_id = id; enabled = false; registry = [] }

  unfoldable pub enable : ServiceRegistry SampleIdentity → ServiceRegistry SampleIdentity
  enable r = record r { enabled = true }

  unfoldable pub disable : ServiceRegistry SampleIdentity → ServiceRegistry SampleIdentity
  disable r = record r { enabled = false }

  unfoldable pub store :
      ℕ
      → String × SampleIdentity
      → Map ℕ (String × SampleIdentity)
      → Map ℕ (String × SampleIdentity)
  store idx entry m =
      let grown = insert idx entry m in
      if nat_beq (length grown) default_max_entries then erase_begin grown else grown

  unfoldable pub add :
      ℕ → String × SampleIdentity → ServiceRegistry SampleIdentity → ServiceRegistry SampleIdentity
  unfolding store
  add idx new_entry r =
      if has idx r.registry then r else record r { registry = store idx new_entry r.registry }

  unfoldable pub erase_entry : ℕ → ServiceRegistry SampleIdentity → ServiceRegistry SampleIdentity
  erase_entry idx r = if has idx r.registry then record r { registry = erase idx r.registry } else r

  -- A missing entry reads as the empty participant id and the default identity.
  unfoldable pub get : SampleIdentity → ℕ → ServiceRegistry SampleIdentity → String × SampleIdentity
  get unknown idx r = elim (find idx r.registry) [ none ↦ ("", unknown) | some entry ↦ entry ]
