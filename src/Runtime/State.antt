-- ===== src/Runtime/State.antt =====
-- crates/nexus-move-runtime/src/state.rs: reads of the chain's state. The store behind the trait
-- `StateReader` is the caller's; it is the function that a view holds.
pub mod Laws
use nexus_move.Prelude.{
  ℕ, Bool, true, false, Option, none, some, ◌++◌, ◌==◌, if◌then◌else◌, length, Bytes, ascii, Result,
  ok, err, panic, ◌>>=◌,
}
use nexus_move.Prelude.Word.{from_le_bytes}
use nexus_move.Types.{AccountAddress}
use nexus_move.Runtime.Data.{VmResult}

abbrev pub balance_key : Bytes
balance_key = ascii "balance"

abbrev pub module_code_key_bytes : Bytes
module_code_key_bytes = ascii "code"

abbrev pub module_code_hash_key : Bytes
module_code_hash_key = ascii "code_hash"

abbrev pub module_deployer_key : Bytes
module_deployer_key = ascii "deployer"

abbrev pub module_count_key : Bytes
module_count_key = ascii "module_count"

abbrev pub module_metadata_key : Bytes
module_metadata_key = ascii "package_metadata"

abbrev pub module_code_prefix : Bytes
module_code_prefix = ascii "code::"

-- `module_code_key`: `code::{module_name}`
unfoldable pub module_code_key : Bytes → Bytes
module_code_key module_name = module_code_prefix ++ module_name

-- `trait StateReader` behind `NexusStateView`
pub record NexusStateView : Type 0 where
  pub get : AccountAddress → Bytes → VmResult (Option Bytes)

abbrev pub is_some {ℓ} : {A : Type ℓ} → Option A → Bool
is_some none = false
is_some (some a) = true

-- `StateReader::contains`
unfoldable pub contains : NexusStateView → AccountAddress → Bytes → VmResult Bool
contains view account key = do value ← view.get account key; ok (is_some value)

unfoldable pub get_raw : NexusStateView → AccountAddress → Bytes → VmResult (Option Bytes)
get_raw view account key = view.get account key

unfoldable pub get_module : NexusStateView → AccountAddress → VmResult (Option Bytes)
get_module view address = view.get address module_code_key_bytes

-- A value that was found, or the legacy key.
abbrev pub or_legacy : NexusStateView → AccountAddress → Option Bytes → VmResult (Option Bytes)
or_legacy view address (some bytes) = ok (some bytes)
or_legacy view address none = view.get address module_code_key_bytes

unfoldable pub get_module_by_name :
    NexusStateView → AccountAddress → Bytes → VmResult (Option Bytes)
unfolding module_code_key
get_module_by_name view address module_name = do
  found ← view.get address (module_code_key module_name)
  or_legacy view address found

unfoldable pub has_module : NexusStateView → AccountAddress → VmResult Bool
unfolding contains
has_module view address = contains view address module_code_key_bytes

-- Exactly 8 bytes are a balance; anything else counts as zero.
unfoldable pub parse_balance_bytes : Option Bytes → ℕ
parse_balance_bytes none = 0
parse_balance_bytes (some bytes) = if length bytes == 8 then from_le_bytes bytes else 0

unfoldable pub get_balance : NexusStateView → AccountAddress → VmResult ℕ
unfolding parse_balance_bytes
get_balance view account = do raw ← view.get account balance_key; ok (parse_balance_bytes raw)

unfoldable pub get_resource : NexusStateView → AccountAddress → Bytes → VmResult (Option Bytes)
get_resource view account resource_key = view.get account resource_key
