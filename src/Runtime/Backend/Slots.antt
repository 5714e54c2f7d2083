-- ===== src/Runtime/Backend/Slots.antt =====
-- What a publication through the Move VM leaves in the slots of the modules' code: `publish_modules`
-- of crates/nexus-move-runtime/src/vm_backend.rs with the keys of state.rs.
use mathlib.Core.Path.{subst}
use nexus_move.Prelude.{
  ◌≡◌, ◌≢◌, refl, sym, ap, ◌∙◌, inl, inr, Option, none, some, List, [], ◌∷◌, if◌then◌else◌, drop,
  Bytes, bytes_eq, bytes_eq_iff, bytes_ne, Bool-cases, Result, ok, >>=-eq-ok, get_elem?,
}
use nexus_move.Types.{AccountAddress}
use nexus_move.Runtime.Abi.{CompiledModule}
use nexus_move.Runtime.Changes.{
  Slot, Store, write, apply_changes, apply_changes-append, write_self, write_ne,
}
use nexus_move.Runtime.Data.{ModulePublish}
use nexus_move.Runtime.Gas.{GasSchedule}
use nexus_move.Runtime.Publisher.{Writes, push_write}
use nexus_move.Runtime.State.{
  NexusStateView, module_code_key, module_code_key_bytes, module_code_hash_key, module_metadata_key,
}
use nexus_move.Runtime.Backend.{MoveEnv}
use nexus_move.Runtime.Backend.Publish.{written, module_writes, publish_module, publish_each}
use nexus_move.Runtime.Backend.Published.{each_written}
use nexus_move.Runtime.Backend.Upgrades.{written_injective, Accepted, publish_module_written}

abbrev pub or_else : Option Bytes → Option Bytes → Option Bytes
or_else (some bytes) other = some bytes
or_else none other = other

pub or_else_assoc : (a b c : Option Bytes) → or_else (or_else a b) c ≡ or_else a (or_else b c)
or_else_assoc none b c = refl
or_else_assoc (some a) b c = refl

-- The last module of a list.
abbrev pub last : List Bytes → Option Bytes
last [] = none
last (b ∷ bs) = or_else (last bs) (some b)

abbrev pub if_named : Bytes → Bytes → Result Bytes CompiledModule → Option Bytes
if_named name b (ok c) = if bytes_eq c.self_name name then some b else none
if_named name b _ = none

module _ (env : MoveEnv) where
  -- The last module of a list that has this name.
  abbrev pub last_named : Bytes → List Bytes → Option Bytes
  last_named name [] = none
  last_named name (b ∷ bs) = or_else (last_named name bs) (if_named name b (env.deserialize b))

code_key_injective : (m n : Bytes) → module_code_key m ≡ module_code_key n → m ≡ n
unfolding module_code_key
code_key_injective m n e = ap (drop 6) e

fifth_ne : (s t : Bytes) → get_elem? s 4 ≢ get_elem? t 4 → s ≢ t
fifth_ne s t h e = h (ap (λ u. get_elem? u 4) e)

code_key_ne :
    (n : Bytes)
    → (module_code_key n ≢ module_code_key_bytes)
      × (module_code_key n ≢ module_code_hash_key)
      × (module_code_key n ≢ module_metadata_key)
unfolding module_code_key
code_key_ne n = (fifth_ne _ _ (λ e. cc e), fifth_ne _ _ (λ e. cc e), fifth_ne _ _ (λ e. cc e))

slot_ne : (a : AccountAddress) (k l : Bytes) → k ≢ l → ◌≢◌ {A = Slot} (a, k) (a, l)
slot_ne a k l h e = h (ap (λ (s : Slot). s.1) e)

skip :
    (a : AccountAddress) (k l : Bytes) (v : Option Bytes) (f : Store)
    → k ≢ l
    → write (a, l) v f (a, k) ≡ f (a, k)
skip a k l v f h = write_ne (a, l) (a, k) v f (slot_ne a k l h)

pushed :
    (w : Writes) (a : AccountAddress) (key value : Bytes) (st : Store)
    → apply_changes (push_write w a key value).1 st
      ≡ write (a, key) (some value) (apply_changes w.1 st)
unfolding push_write apply_changes
pushed w a key value st = apply_changes-append w.1 _ st

module _ (env : MoveEnv) (schedule : GasSchedule) (st : Store) where
  -- The store after the writes of one module, write by write.
  module_written :
      (c : CompiledModule) (b metadata : Bytes) (w : Writes)
      → let a = c.self_address in
        apply_changes (module_writes env schedule c b metadata w).1 st
        ≡ write
            (a, module_metadata_key)
            (some metadata)
            (write
              (a, module_code_hash_key)
              (some (env.blake3 b))
              (write
                (a, module_code_key_bytes)
                (some b)
                (write (a, module_code_key c.self_name) (some b) (apply_changes w.1 st))))
  unfolding module_writes
  module_written c b metadata w =
      let a = c.self_address in
      let w1 = push_write w a (module_code_key c.self_name) b in
      let w2 = push_write w1 a module_code_key_bytes b in
      let w3 = push_write w2 a module_code_hash_key (env.blake3 b) in
      pushed w3 a module_metadata_key metadata st
      ∙ ap (write (a, module_metadata_key) (some metadata)) (
          pushed w2 a module_code_hash_key (env.blake3 b) st
          ∙ ap (write (a, module_code_hash_key) (some (env.blake3 b))) (
              pushed w1 a module_code_key_bytes b st
              ∙ ap (write (a, module_code_key_bytes) (some b))
                  (pushed w a (module_code_key c.self_name) b st)))

  named_slot :
      (c : CompiledModule) (b n : Bytes) (f : Store)
      → write
          (c.self_address, module_code_key c.self_name)
          (some b)
          f
          (c.self_address, module_code_key n)
        ≡ or_else
            (if bytes_eq c.self_name n then some b else none)
            (f (c.self_address, module_code_key n))
  named_slot c b n f = elim (Bool-cases (bytes_eq c.self_name n)) [
    | inl e ↦ rw e (
        rw (sym ((bytes_eq_iff c.self_name n).0 e))
          (write_self (c.self_address, module_code_key c.self_name) (some b) f))
    | inr e ↦ rw e (
        skip c.self_address (module_code_key n) (module_code_key c.self_name) (some b) f
          (λ h. bytes_ne c.self_name n e (sym (code_key_injective n c.self_name h))))
  ]

  -- What one module leaves in the slots of the modules' code.
  module_slots :
      (c : CompiledModule) (b metadata n : Bytes) (w : Writes)
      → let after = apply_changes (module_writes env schedule c b metadata w).1 st in
        (after (c.self_address, module_code_key n)
          ≡ or_else
              (if_named n b (ok c))
              (apply_changes w.1 st (c.self_address, module_code_key n)))
        × (after (c.self_address, module_code_key_bytes) ≡ some b)
  module_slots c b metadata n w =
      let a = c.self_address in
      let k = module_code_key n in
      let (ne_code, ne_hash, ne_metadata) = code_key_ne n in
      (
        ap (λ (f : Store). f (a, k)) (module_written c b metadata w)
            ∙ skip a k module_metadata_key _ _ ne_metadata
            ∙ skip a k module_code_hash_key _ _ ne_hash
            ∙ skip a k module_code_key_bytes _ _ ne_code
            ∙ named_slot c b n (apply_changes w.1 st),
        ap (λ (f : Store). f (a, module_code_key_bytes)) (module_written c b metadata w)
            ∙ skip a module_code_key_bytes module_metadata_key _ _ (λ e. cc e)
            ∙ skip a module_code_key_bytes module_code_hash_key _ _ (λ e. cc e)
            ∙ write_self (a, module_code_key_bytes) (some b) _,
      )

module _ (env : MoveEnv) (schedule : GasSchedule) (state : NexusStateView) (request : ModulePublish)
    (st : Store) (n : Bytes) where
  -- What the slots of the modules' code hold after some modules, over what they held before.
  abbrev pub Slots : List Bytes → Store → Store → Type 0
  Slots bs before after =
      (after (request.sender, module_code_key n)
        ≡ or_else (last_named env n bs) (before (request.sender, module_code_key n)))
      × (after (request.sender, module_code_key_bytes)
          ≡ or_else (last bs) (before (request.sender, module_code_key_bytes)))

  Slots-cons :
      (b : Bytes) (bs : List Bytes) (s t u : Store)
      → Slots (b ∷ []) s t
      → Slots bs t u
      → Slots (b ∷ bs) s u
  Slots-cons b bs s t u h k = (
    k.0 ∙ ap (or_else (last_named env n bs)) h.0 ∙ sym (or_else_assoc (last_named env n bs) _ _),
    k.1 ∙ ap (or_else (last bs)) h.1 ∙ sym (or_else_assoc (last bs) _ _),
  )

  written-Slots :
      (b : Bytes) (accepted : Accepted env schedule state request.sender b) (metadata : Bytes)
      (w x : Writes)
      → module_writes env schedule accepted.compiled b metadata w ≡ x
      → Slots (b ∷ []) (apply_changes w.1 st) (apply_changes x.1 st)
  written-Slots b accepted metadata w x wrote =
      subst (λ a. At a (env.deserialize b) x) accepted.owner
        (subst (λ r. At accepted.compiled.self_address r x) (sym accepted.parsed)
          (subst (At accepted.compiled.self_address (ok accepted.compiled)) wrote
            (module_slots env schedule st accepted.compiled b metadata n w)))
    where
      At : AccountAddress → Result Bytes CompiledModule → Writes → Type 0
      At a parsed y =
          (apply_changes y.1 st (a, module_code_key n)
            ≡ or_else (if_named n b parsed) (apply_changes w.1 st (a, module_code_key n)))
          × (apply_changes y.1 st (a, module_code_key_bytes) ≡ some b)

  pub publish_each-Slots :
      (bs : List Bytes) (w w' : Writes)
      → publish_each env schedule state request bs w ≡ ok (written w')
      → Slots bs (apply_changes w.1 st) (apply_changes w'.1 st)
  unfolding publish_each
  publish_each-Slots [] w w' h =
      let same = written_injective env schedule state request w w' h in
      let eq : apply_changes w'.1 st ≡ apply_changes w.1 st =
        ap (λ (x : Writes). apply_changes x.1 st) (sym same) in
      (
        ap (λ (f : Store). f (request.sender, module_code_key n)) eq,
        ap (λ (f : Store). f (request.sender, module_code_key_bytes)) eq,
      )
  publish_each-Slots (b ∷ bs) w w' h =
      let (p, first, rest) = >>=-eq-ok (publish_module env schedule state request b w) _ h in
      let (x, same, others) = each_written env schedule state request b bs w w' p rest in
      let (accepted, metadata, wrote) =
        publish_module_written env schedule state request b w x (first ∙ ap ok same) in
      Slots-cons b bs (apply_changes w.1 st) (apply_changes x.1 st) (apply_changes w'.1 st)
        (written-Slots b accepted metadata w x wrote) (publish_each-Slots bs x w' others)
