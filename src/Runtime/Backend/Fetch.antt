-- ===== src/Runtime/Backend/Fetch.antt =====
-- A publication through the Move VM, and what the VM's storage then serves: `publish_modules` and
-- `fetch_module_bytes` of crates/nexus-move-runtime/src/vm_backend.rs with the keys of state.rs.
use mathlib.Core.Path.{subst}
use nexus_move.Prelude.{
  ◌≡◌, refl, sym, ap, ◌∙◌, Option, none, some, List, [], if◌then◌else◌, Bytes, bytes_eq, ok, ◌>>=◌,
  >>=-eq-ok,
}
use nexus_move.Types.{AccountAddress}
use nexus_move.Stdlib.{framework_address_bytes, get_framework_module}
use nexus_move.Runtime.Changes.{Store, apply_changes, Reads}
use nexus_move.Runtime.Data.{ModulePublish, VmOutput, success}
use nexus_move.Runtime.Gas.{GasSchedule}
use nexus_move.Runtime.Publisher.{Writes}
use nexus_move.Runtime.State.{
  NexusStateView, get_module_by_name, or_legacy, module_code_key, module_code_key_bytes,
}
use nexus_move.Runtime.Backend.{MoveEnv, state_read, or_chain, fetch_module_bytes}
use nexus_move.Runtime.Backend.Publish.{
  Progress, refused, written, publish_each, publish_output, publish_modules,
}
use nexus_move.Runtime.Backend.Upgrades.{ok_injective}
use nexus_move.Runtime.Backend.Slots.{or_else, or_else_assoc, last, last_named, publish_each-Slots}

or_else_both :
    {x y : Option Bytes} (l m s t : Option Bytes)
    → x ≡ or_else l s
    → y ≡ or_else m t
    → or_else x y ≡ or_else l (or_else s (or_else m t))
or_else_both l m s t h k = rw (h, k) (or_else_assoc l s (or_else m t))

module _ (env : MoveEnv) where
  -- The framework's module of a name, at the framework's address.
  abbrev pub framework_module : AccountAddress → Bytes → Option Bytes
  framework_module address name =
      if bytes_eq address framework_address_bytes
      then get_framework_module env.embedded name
      else none

  -- What is to be served for a name at the address of a publisher: the framework's module, the last
  -- published one of that name, the one that was stored under the name, and without any of these
  -- the last published one whatever its name, or what the single-module key had.
  abbrev pub served : Store → AccountAddress → List Bytes → Bytes → Option Bytes
  served st address modules name = or_else (framework_module address name) (
      or_else (last_named env name modules) (
        or_else (st (address, module_code_key name))
          (or_else (last modules) (st (address, module_code_key_bytes)))))

module _ (env : MoveEnv) (view : NexusStateView) (f : Store) (reads : Reads view f) where
  legacy_read :
      (a : AccountAddress) (found : Option Bytes)
      → or_legacy view a found ≡ ok (or_else found (f (a, module_code_key_bytes)))
  legacy_read a none = reads a module_code_key_bytes
  legacy_read a (some b) = refl

  named_read :
      (a : AccountAddress) (n : Bytes)
      → get_module_by_name view a n
        ≡ ok (or_else (f (a, module_code_key n)) (f (a, module_code_key_bytes)))
  unfolding get_module_by_name
  named_read a n =
      ap (λ r. r >>= or_legacy view a) (reads a (module_code_key n))
      ∙ legacy_read a (f (a, module_code_key n))

  chain_read :
      (a : AccountAddress) (n : Bytes) (framework : Option Bytes)
      → or_chain env view a n framework
        ≡ ok (or_else framework (or_else (f (a, module_code_key n)) (f (a, module_code_key_bytes))))
  chain_read a n none = ap (state_read _) (named_read a n)
  chain_read a n (some b) = refl

  -- What the storage serves over a store.
  fetched :
      (a : AccountAddress) (n : Bytes)
      → fetch_module_bytes env view a n
        ≡ ok (
            or_else
              (framework_module env a n)
              (or_else (f (a, module_code_key n)) (f (a, module_code_key_bytes))))
  unfolding fetch_module_bytes
  fetched a n = chain_read a n (framework_module env a n)

module _ (env : MoveEnv) (schedule : GasSchedule) (state : NexusStateView)
    (request : ModulePublish) where
  pub published_loop :
      (p : Progress env schedule)
      → (publish_output env schedule request p).status ≡ success
      → (w : Writes) × (p ≡ written w)
        × ((publish_output env schedule request p).state_changes ≡ w.1)
  unfolding publish_output
  published_loop (refused code) h = cc
  published_loop (written w) h = (w, refl, refl)

  -- Once the changes of a successful publication are applied to a store, whatever the store, the
  -- VM's storage over it serves at the publisher's address, for every name: the framework's module
  -- if the address is the framework's and has one; else the last module of the request with this
  -- name; else the module that was stored under the name; else, whatever the name, the last module
  -- of the request, or for a request without modules the one under the single-module key.
  pub fetch_module_bytes-publish_modules :
      (o : VmOutput) (st : Store) (view : NexusStateView) (name : Bytes)
      → publish_modules env schedule state request ≡ ok o
      → o.status ≡ success
      → Reads view (apply_changes o.state_changes st)
      → fetch_module_bytes env view request.sender name
        ≡ ok (served env st request.sender request.modules name)
  unfolding publish_modules apply_changes
  fetch_module_bytes-publish_modules o st view name h succeeded reads =
      let (p, looped, same) =
        >>=-eq-ok (publish_each env schedule state request request.modules ([], [])) _ h in
      let (w, wrote, changes) =
        published_loop p (ap (λ (r : VmOutput). r.status) (ok_injective same) ∙ succeeded) in
      let (named, legacy) =
        publish_each-Slots env schedule state request st name request.modules ([], []) w
          (looped ∙ ap ok wrote) in
      let kept : o.state_changes ≡ w.1 =
        sym (ap (λ (r : VmOutput). r.state_changes) (ok_injective same)) ∙ changes in
      fetched env view (apply_changes w.1 st)
        (subst (λ c. Reads view (apply_changes c st)) kept reads) request.sender name
      ∙ ap (λ r. ok (or_else (framework_module env request.sender name) r))
          (or_else_both (last_named env name request.modules) (last request.modules)
            (st (request.sender, module_code_key name)) (st (request.sender, module_code_key_bytes))
            named legacy)
