-- ===== src/Runtime/Resources.antt =====
-- crates/nexus-move-runtime/src/resources.rs: an overlay of writes over the state.
pub mod Laws
pub mod Apply
use nexus_move.Prelude.{Option, none, some, List, [], ◌∷◌, ◌++◌, map, Bytes, ascii, ok}
use nexus_move.Prelude.Map
use nexus_move.Prelude.Map.{Map}
use nexus_move.Prelude.Orders.{bytes_order, pair_order}
use nexus_move.Types.{AccountAddress}
use nexus_move.Runtime.Data.{StateChange, VmResult, WriteSet}
use nexus_move.Runtime.State.{NexusStateView, get_resource}

unfoldable pub resource_key : Bytes → Bytes
resource_key type_tag = ascii "resource::" ++ type_tag

pub record ResourceStore : Type 0 where
  pub view : NexusStateView
  pub overlay : WriteSet

-- `ResourceStore::new`
abbrev pub new_store : NexusStateView → ResourceStore
new_store view = record { view = view; overlay = [] }

-- An entry of the overlay, a deletion included, hides the state.
abbrev pub or_state :
    NexusStateView → AccountAddress → Bytes → Option (Option Bytes) → VmResult (Option Bytes)
or_state view account key (some entry) = ok entry
or_state view account key none = get_resource view account key

unfoldable pub get : ResourceStore → AccountAddress → Bytes → VmResult (Option Bytes)
unfolding resource_key get_resource
get store account type_tag =
    let key = resource_key type_tag in
    or_state store.view account key (Map.lookup (account, key) store.overlay)

unfoldable pub set : ResourceStore → AccountAddress → Bytes → Bytes → ResourceStore
unfolding resource_key
set store account type_tag value = record store {
  overlay = Map.insert (account, resource_key type_tag) (some value) store.overlay;
}

unfoldable pub remove : ResourceStore → AccountAddress → Bytes → ResourceStore
unfolding resource_key
remove store account type_tag = record store {
  overlay = Map.insert (account, resource_key type_tag) none store.overlay;
}

-- The change of one entry of the overlay.
abbrev pub to_change : (AccountAddress × Bytes) × Option Bytes → StateChange
to_change ((account, key), value) = record { account = account; key = key; value = value }

-- The loop of `into_changes`, over the entries in key order.
unfoldable pub overlay_changes : WriteSet → List StateChange
overlay_changes [] = []
overlay_changes (entry ∷ overlay) = to_change entry ∷ overlay_changes overlay

unfoldable pub into_changes : ResourceStore → WriteSet × List StateChange
unfolding overlay_changes
into_changes store = (store.overlay, overlay_changes store.overlay)
