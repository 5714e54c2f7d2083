-- ===== src/Runtime/Session/Tests.antt =====
-- A session on a small store.
use nexus_move.Prelude.{◌≤◌, ◌≡◌, refl, arith, some, [], ◌∷◌, replicate, Bytes, ascii, ok}
use nexus_move.Prelude.Map
use nexus_move.Prelude.Orders.{bytes_order, pair_order}
use nexus_move.Prelude.Word.{saturating_add, saturating_mul}
use nexus_move.Types.{AccountAddress}
use nexus_move.Runtime.Changes.{Store, apply_changes}
use nexus_move.Runtime.Config.{testing_config}
use nexus_move.Runtime.Data.{success}
use nexus_move.Runtime.Gas.{from_config, charge}
use nexus_move.Runtime.Resources
use nexus_move.Runtime.Resources.{resource_key, into_changes, new_store}
use nexus_move.Runtime.Resources.Apply.{get-into_changes}
use nexus_move.Runtime.State.{NexusStateView}
use nexus_move.Runtime.Session.{ExecuteSession, execute, new_session, write_resource, commit, abort}
use nexus_move.Runtime.Session.Steps.{
  write, Reach, here, next, IsValid, Fixed, Reach-IsValid, new_session-IsValid,
}
use nexus_move.Runtime.Session.Laws.{commit_or_abort}

abbrev alice : AccountAddress
alice = replicate 32 7

abbrev counter_tag : Bytes
counter_tag = ascii "counter::Counter"

-- Every slot holds five bytes.
abbrev store : Store
store slot = some (ascii "hello")

abbrev view : NexusStateView
view = record { get = λ a key. ok (some (ascii "hello")) }

abbrev session : ExecuteSession
session = record {
  kind = execute;
  sender = alice;
  meter = record { limit = 20; consumed = 0 };
  schedule = from_config testing_config;
  resources = new_store view;
  gas_summary = record { execution_gas = 0; io_gas = 0; storage_fee = 0 };
}

abbrev after_write : ExecuteSession
after_write = (write_resource session alice counter_tag (42 ∷ [])).1

writes_once :
    (commit after_write success).write_set
    ≡ ((alice, resource_key counter_tag), some (42 ∷ [])) ∷ []
unfolding write_resource commit charge saturating_add saturating_mul Resources.set Map.insert
writes_once = refl

path : Reach (new_session execute alice 20 (from_config testing_config) view) after_write
unfolding new_session
path = next here (write session alice counter_tag (42 ∷ []))

get-into_changes_example :
    Resources.get (Resources.set (new_store view) alice counter_tag (1 ∷ [])) alice counter_tag
    ≡ ok (
        apply_changes
          (into_changes (Resources.set (new_store view) alice counter_tag (1 ∷ []))).1
          store
          (alice, resource_key counter_tag))
unfolding Resources.set Map.insert
get-into_changes_example =
    get-into_changes (Resources.set (new_store view) alice counter_tag (1 ∷ [])) store alice
      counter_tag (λ a key. refl) (tt, tt)

Reach-IsValid_example : IsValid after_write × Fixed session after_write
unfolding new_session
Reach-IsValid_example =
    Reach-IsValid path
      (new_session-IsValid execute alice 20 (from_config testing_config) view (omega arith))

commit_or_abort_example :
    ((commit after_write success).gas_used ≤ 20)
    × ((a : AccountAddress) (tag : Bytes)
        → Resources.get after_write.resources a tag
          ≡ ok (
              apply_changes (commit after_write success).state_changes store (a, resource_key tag)))
    × ((abort after_write success).gas_used ≡ (commit after_write success).gas_used)
    × (apply_changes (abort after_write success).state_changes store ≡ store)
commit_or_abort_example =
    commit_or_abort execute alice 20 (from_config testing_config) view success (omega arith) store
      after_write (λ a key. refl) path
