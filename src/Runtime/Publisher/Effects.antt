-- ===== src/Runtime/Publisher/Effects.antt =====
-- What the store holds after a successful publication, and that it cannot be repeated.
use nexus_move.Prelude.{
  ℕ, ◌≡◌, ◌≢◌, ◌⊎◌, refl, ap, ◌∙◌, ◌^◌, ◌%◌, Option, some, List, inl, inr, length, Bytes, ascii, ok,
}
use nexus_move.Prelude.Orders.{bytes_order, pair_order}
use nexus_move.Prelude.Word.{to_le_bytes}
use nexus_move.Types.{AccountAddress, HashValue}
use nexus_move.Bytecode.{default_limits}
use nexus_move.Bytecode.Verdict.{IsWellFormed}
use nexus_move.Runtime.Changes.{
  Slot, Store, write, apply_changes, Reads, write_self, write_ne, Agrees, Agrees-nil, Agrees-push,
}
use nexus_move.Runtime.Config.{VmConfig}
use nexus_move.Runtime.Data.{move_abort, without_effects}
use nexus_move.Runtime.Publisher.{
  concat_modules, publish_writes, bundle_address, publish_at, publish_verified_modules,
}
use nexus_move.Runtime.Publisher.Laws.{publish_well_formed}
use nexus_move.Runtime.State.{
  NexusStateView, module_code_key_bytes, module_code_hash_key, module_deployer_key,
  module_count_key,
}

slot_ne : (a b : AccountAddress) (k l : Bytes) → k ≢ l → ◌≢◌ {A = Slot} (a, k) (b, l)
slot_ne a b k l h e = h (ap (λ (s : Slot). s.1) e)

module _ (blake3 : Bytes → HashValue) (st : Store) (address sender : AccountAddress)
    (modules : List Bytes) where
  abbrev pub published : Store
  published = apply_changes (publish_writes blake3 address sender modules).1 st

  published_eq :
      published
      ≡ write
          (address, module_count_key)
          (some (to_le_bytes 4 (length modules % 2 ^ 32)))
          (write
            (address, module_deployer_key)
            (some sender)
            (write
              (address, module_code_hash_key)
              (some (blake3 (concat_modules modules)))
              (write (address, module_code_key_bytes) (some (concat_modules modules)) st)))
  unfolding publish_writes apply_changes
  published_eq = refl

  -- What the store holds after the changes of a publication: the code, its hash, the deployer and
  -- the number of modules, and everything else as before.
  pub record Holds (after : Store) : Type 0 where
    pub code : after (address, module_code_key_bytes) ≡ some (concat_modules modules)
    pub code_hash : after (address, module_code_hash_key) ≡ some (blake3 (concat_modules modules))
    pub deployer : after (address, module_deployer_key) ≡ some sender
    pub count : after (address, module_count_key) ≡ some (to_le_bytes 4 (length modules % 2 ^ 32))
    pub others :
        (a : AccountAddress) (key : Bytes)
        → (a ≢ address)
          ⊎ ((key ≢ module_code_key_bytes)
              × (key ≢ module_code_hash_key)
              × (key ≢ module_deployer_key)
              × (key ≢ module_count_key))
        → after (a, key) ≡ st (a, key)

  skip :
      (k l : Bytes) (v : Option Bytes) (f : Store)
      → k ≢ l
      → write (address, l) v f (address, k) ≡ f (address, k)
  skip k l v f h = write_ne (address, l) (address, k) v f (slot_ne address address k l h)

  read_published :
      (k : Bytes) {v : Option Bytes}
      → write
          (address, module_count_key)
          (some (to_le_bytes 4 (length modules % 2 ^ 32)))
          (write
            (address, module_deployer_key)
            (some sender)
            (write
              (address, module_code_hash_key)
              (some (blake3 (concat_modules modules)))
              (write (address, module_code_key_bytes) (some (concat_modules modules)) st)))
          (address, k)
        ≡ v
      → published (address, k) ≡ v
  read_published k h = ap (λ (f : Store). f (address, k)) published_eq ∙ h

  other_slot :
      (a : AccountAddress) (key l : Bytes)
      → (a ≢ address)
        ⊎ ((key ≢ module_code_key_bytes)
            × (key ≢ module_code_hash_key)
            × (key ≢ module_deployer_key)
            × (key ≢ module_count_key))
      → ((key ≢ module_code_key_bytes)
            × (key ≢ module_code_hash_key)
            × (key ≢ module_deployer_key)
            × (key ≢ module_count_key)
          → key ≢ l)
      → ◌≢◌ {A = Slot} (a, key) (address, l)
  other_slot a key l (inl h) f e = h (ap (λ (s : Slot). s.0) e)
  other_slot a key l (inr h) f e = f h (ap (λ (s : Slot). s.1) e)

  -- A publication stores the code of the bundle, its hash, the deployer and the number of modules
  -- as a u32, at the bundle's address, and changes no other slot.
  pub publish_writes-Holds : Holds published
  publish_writes-Holds = record {
    code = read_published module_code_key_bytes (
        skip _ _ _ _ (λ e. cc)
        ∙ skip _ _ _ _ (λ e. cc)
        ∙ skip _ _ _ _ (λ e. cc)
        ∙ write_self _ _ _);
    code_hash =
        read_published module_code_hash_key
          (skip _ _ _ _ (λ e. cc) ∙ skip _ _ _ _ (λ e. cc) ∙ write_self _ _ _);
    deployer = read_published module_deployer_key (skip _ _ _ _ (λ e. cc) ∙ write_self _ _ _);
    count = read_published module_count_key (write_self _ _ _);
    others = λ a key h.
        ap (λ (f : Store). f (a, key)) published_eq
        ∙ write_ne _ _ _ _ (other_slot a key _ h (λ p. p.3))
        ∙ write_ne _ _ _ _ (other_slot a key _ h (λ p. p.2))
        ∙ write_ne _ _ _ _ (other_slot a key _ h (λ p. p.1))
        ∙ write_ne _ _ _ _ (other_slot a key _ h (λ p. p.0));
  }

-- Once the changes of a publication are in the store, publishing the same bundle by the same
-- sender is refused, with code 20 and no change, whatever the gas limit.
pub publish_again :
    (blake3 : Bytes → HashValue) (view : NexusStateView) (st : Store) (sender : AccountAddress)
    (modules : List Bytes) (gas_limit : ℕ) (config : VmConfig)
    → Reads view (published blake3 st (bundle_address blake3 sender modules) sender modules)
    → IsWellFormed default_limits modules
    → publish_verified_modules blake3 view sender modules gas_limit config
      ≡ ok (record {
        vm_output =
            without_effects (move_abort (ascii "nexus::publish") 20) config.publish_base_gas;
        contract_address = bundle_address blake3 sender modules;
      })
publish_again blake3 view st sender modules gas_limit config reads w =
    let address = bundle_address blake3 sender modules in
    let after = published blake3 st address sender modules in
    publish_well_formed blake3 view after reads sender modules gas_limit config w
    ∙ unfold publish_at in rw (publish_writes-Holds blake3 st address sender modules).code

-- The write set and the state changes of a publication agree.
pub publish_writes-Agrees :
    (blake3 : Bytes → HashValue) (address sender : AccountAddress) (modules : List Bytes)
    → Agrees
        (publish_writes blake3 address sender modules).0
        (publish_writes blake3 address sender modules).1
unfolding publish_writes
publish_writes-Agrees blake3 address sender modules =
    Agrees-push _ _ _ _ _
      (Agrees-push _ _ _ _ _ (Agrees-push _ _ _ _ _ (Agrees-push _ _ _ _ _ Agrees-nil)))
