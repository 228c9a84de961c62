-- ===== src/Communication/Handles.antt =====
-- The readers and writers of the participants, behind the shared pointers of the bridges. A pointer
-- is a number, and what is kept of IReader and IWriter is whether they are enabled: `enable` and
-- `disable` of ddspipe_core/interface set that, and new ones are not.
use Prim.Native.String.{String}
use ddsproxy.Common.{ℕ, ◌+◌, Bool, false, [], ◌∷◌, nat_key}
use ddsproxy.Common.Map.{Map, insert}

pub record Handles : Type 0 where
  pub next : ℕ
  pub enabled : Map ℕ Bool

abbrev pub no_handles : Handles
no_handles = record { next = 0; enabled = [] }

-- What `create_reader` and `create_writer` of a participant return.
unfoldable pub create : Handles → ℕ × Handles
create h = (h.next, record { next = h.next + 1; enabled = insert h.next false h.enabled })

unfoldable pub set_enabled : Bool → ℕ → Handles → Handles
set_enabled b k h = record h { enabled = insert k b h.enabled }

-- The loop over the writers of a track.
unfoldable pub set_all : Bool → Map String ℕ → Handles → Handles
unfolding set_enabled
set_all b [] h = h
set_all b ((id, w) ∷ ws) h = set_all b ws (set_enabled b w h)
