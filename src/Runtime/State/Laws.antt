-- ===== src/Runtime/State/Laws.antt =====
-- Reads of balances and of modules.
use nexus_move.Prelude.{ℕ, ◌^◌, ◌<◌, ◌≡◌, ap, some, Bytes, ok}
use nexus_move.Prelude.Word.{to_le_bytes, length-to_le_bytes, from_le_bytes-to_le_bytes}
use nexus_move.Runtime.State.{NexusStateView, get_balance, balance_key}

-- A balance stored as the 8 little-endian bytes of a u64 is read back as that number.
pub get_balance_stored :
    (view : NexusStateView) (account : Bytes) (n : ℕ)
    → n < 2 ^ 64
    → view.get account balance_key ≡ ok (some (to_le_bytes 8 n))
    → get_balance view account ≡ ok n
unfolding get_balance
get_balance_stored view account n h e =
    rw e (rw (length-to_le_bytes 8 n) (ap ok (from_le_bytes-to_le_bytes 8 n h)))
