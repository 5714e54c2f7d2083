-- ===== src/Runtime/Backend/Upgrades.antt =====
-- What a publication through the Move VM may do: whose slots it writes, and which modules it
-- replaces.
use nexus_move.Prelude.{
  ℕ, ◌≡◌, ◌⊎◌, refl, ap, ◌∙◌, Bool, true, false, not, ◌&&◌, Option, none, some, List, [], ◌∷◌, ◌++◌,
  inl, inr, if◌then◌else◌, All, Bytes, bytes_eq, bytes_eq_iff, Bool-cases, Result, ok, err, panic,
  map_err, ◌>>=◌, >>=-eq-ok,
}
use nexus_move.Types.{AccountAddress, HashValue}
use nexus_move.Package.{PackageMetadata, UpgradePolicy, immutable, compatible, governance_only}
use nexus_move.Runtime.Abi.{CompiledModule, compute_module_abi_hash, abi_is_compatible}
use nexus_move.Runtime.Changes.{Agrees, Agrees-push}
use nexus_move.Runtime.Data.{ModulePublish, VmResult, StateChange}
use nexus_move.Runtime.Gas.{GasSchedule}
use nexus_move.Runtime.Publisher.{Writes, push_write}
use nexus_move.Runtime.State.{NexusStateView, get_raw, has_module, module_metadata_key}
use nexus_move.Runtime.Backend.{MoveEnv, new_storage}
use nexus_move.Runtime.Backend.Publish.{
  zero_hash, decoded, refusal, upgrade_refusal, check_sender, check_dependencies, module_writes,
  accept_module, verify_code, encode_module_metadata, parse_module, unless_refused, Progress,
  written, publish_module,
}

-- A module may be written: nothing is at its address, or what is there was published as
-- compatible, and its interface is the same or was not recorded.
pub data Permitted (env : MoveEnv) (state : NexusStateView) (c : CompiledModule) : Type 0 where
  fresh : has_module state c.self_address ≡ ok false → Permitted env state c
  upgrade :
      (raw : Option Bytes) (m : PackageMetadata)
      → get_raw state c.self_address module_metadata_key ≡ ok raw
      → decoded env.decode_metadata raw ≡ some m
      → m.upgrade_policy ≡ compatible
      → (m.abi_hash ≡ zero_hash) ⊎ (m.abi_hash ≡ compute_module_abi_hash env.blake3 c)
      → Permitted env state c

some_ne_none : {A : Type 0} {a : A} → ◌≡◌ {A = Option A} (some a) none → ⊥
some_ne_none h = cc

same_interface :
    (old new : HashValue)
    → ◌≡◌ {A = Option ℕ}
        (if not (bytes_eq old zero_hash) && not (bytes_eq old new) then some 22 else none)
        none
    → (old ≡ zero_hash) ⊎ (old ≡ new)
same_interface old new h = elim (Bool-cases (bytes_eq old zero_hash)) [
  | inl e ↦ inl ((bytes_eq_iff old zero_hash).0 e)
  | inr e ↦ elim (Bool-cases (bytes_eq old new)) [
    | inl f ↦ inr ((bytes_eq_iff old new).0 f)
    | inr f ↦ absurd (some_ne_none (rw f at (rw e at h)))
  ]
]

refusal_none :
    (stored : Option PackageMetadata) (new : HashValue)
    → refusal stored new ≡ none
    → (m : PackageMetadata) × (stored ≡ some m)
      × (m.upgrade_policy ≡ compatible)
      × ((m.abi_hash ≡ zero_hash) ⊎ (m.abi_hash ≡ new))
unfolding refusal abi_is_compatible
refusal_none none new h = cc
refusal_none (some m) new h = by_policy m.upgrade_policy refl
  where
    by_policy :
        (p : UpgradePolicy)
        → m.upgrade_policy ≡ p
        → (m' : PackageMetadata) × (some m ≡ some m')
          × (m'.upgrade_policy ≡ compatible)
          × ((m'.abi_hash ≡ zero_hash) ⊎ (m'.abi_hash ≡ new))
    by_policy immutable e = absurd (some_ne_none (rw (refusal, e) at h))
    by_policy governance_only e = absurd (some_ne_none (rw (refusal, e) at h))
    by_policy compatible e = (m, refl, e, same_interface m.abi_hash new (rw (refusal, e) at h))

-- Changes at one account only.
abbrev pub AllAt : AccountAddress → List StateChange → Type 0
AllAt a changes = All (λ (c : StateChange). c.account ≡ a) changes

AllAt-append :
    (a : AccountAddress) (changes : List StateChange) (c : StateChange)
    → AllAt a changes
    → c.account ≡ a
    → AllAt a (changes ++ c ∷ [])
AllAt-append a [] c h e = (e, tt)
AllAt-append a (d ∷ changes) c h e = (h.0, AllAt-append a changes c h.1 e)

-- What the loop keeps of its two containers.
pub record AreWrites (a : AccountAddress) (w : Writes) : Type 0 where
  pub agrees : Agrees w.0 w.1
  pub at : AllAt a w.1

push_write-AreWrites :
    (a : AccountAddress) (w : Writes) (key value : Bytes)
    → AreWrites a w
    → AreWrites a (push_write w a key value)
unfolding push_write
push_write-AreWrites a w key value h = record {
  agrees = Agrees-push w.0 w.1 a key (some value) h.agrees;
  at = AllAt-append a w.1 _ h.at refl;
}

module _ (env : MoveEnv) (schedule : GasSchedule) where
  pub module_writes-AreWrites :
      (c : CompiledModule) (module_bytes metadata_bytes : Bytes) (w : Writes)
      → AreWrites c.self_address w
      → AreWrites c.self_address (module_writes env schedule c module_bytes metadata_bytes w)
  unfolding module_writes
  module_writes-AreWrites c module_bytes metadata_bytes w h =
      push_write-AreWrites _ _ _ _ (
        push_write-AreWrites _ _ _ _
          (push_write-AreWrites _ _ _ _ (push_write-AreWrites _ _ _ _ h)))

pub ok_injective : {E A : Type 0} {a b : A} → ◌≡◌ {A = Result E A} (ok a) (ok b) → a ≡ b
ok_injective h = cc

pub bind_ok :
    {A B : Type 0} (m : VmResult A) (k : A → VmResult B) {a : A} → m ≡ ok a → (m >>= k) ≡ k a
bind_ok m k e = ap (λ r. r >>= k) e

pub map_err_ok :
    {E F A : Type 0} (f : E → F) (r : Result E A) {a : A} → map_err f r ≡ ok a → r ≡ ok a
map_err_ok f (ok a) h = cc
map_err_ok f (err e) h = cc
map_err_ok f panic h = cc

pub check_sender_ok :
    (env : MoveEnv) (schedule : GasSchedule) (a b : AccountAddress)
    → check_sender env schedule a b ≡ ok tt
    → a ≡ b
check_sender_ok env schedule a b h = elim (Bool-cases (bytes_eq a b)) [
  | inl e ↦ (bytes_eq_iff a b).0 e
  | inr e ↦ cc (e, h)
]

-- A module that was written: who it belongs to, why it may be, and what was written.
pub record Accepted (env : MoveEnv) (schedule : GasSchedule) (state : NexusStateView)
    (sender : AccountAddress) (module_bytes : Bytes) : Type 0 where
  pub compiled : CompiledModule
  pub parsed : env.deserialize module_bytes ≡ ok compiled
  pub owner : compiled.self_address ≡ sender
  pub permitted : Permitted env state compiled

module _ (env : MoveEnv) (schedule : GasSchedule) (state : NexusStateView)
    (request : ModulePublish) where
  pub upgrade_Permitted :
      (c : CompiledModule) (exists : Bool)
      → has_module state c.self_address ≡ ok exists
      → upgrade_refusal env schedule state c exists ≡ ok none
      → Permitted env state c
  unfolding upgrade_refusal
  upgrade_Permitted c false e h = fresh e
  upgrade_Permitted c true e h =
      let (raw, read, kept) = >>=-eq-ok (get_raw state c.self_address module_metadata_key) _ h in
      let (m, found, policy, same) =
        refusal_none (decoded env.decode_metadata raw) (compute_module_abi_hash env.blake3 c)
          (ok_injective kept) in
      upgrade raw m read found policy same

  accept_module_ok :
      (c : CompiledModule) (b : Bytes) (w w' : Writes)
      → accept_module env schedule state request c b w ≡ ok w'
      → (metadata : Bytes) × (module_writes env schedule c b metadata w ≡ w')
  unfolding accept_module
  accept_module_ok c b w w' h =
      let (u, verified, rest) = >>=-eq-ok (verify_code env schedule c b) _ h in
      let (u', checked, rest') =
        >>=-eq-ok
          (check_dependencies env schedule (new_storage env state) request.sender
            c.immediate_dependencies)
          _ rest in
      let (metadata, encoded, done) =
        >>=-eq-ok (encode_module_metadata env schedule request c b) _ rest' in
      (metadata, ok_injective done)

  pub written_injective :
      (w w' : Writes)
      → ◌≡◌ {A = VmResult (Progress env schedule)} (ok (written w)) (ok (written w'))
      → w ≡ w'
  written_injective w w' h = cc

  pub continue_written :
      (c : CompiledModule) (b : Bytes) (w w' : Writes) (code : Option ℕ)
      → unless_refused env schedule state request c b w code ≡ ok (written w')
      → (code ≡ none) × (accept_module env schedule state request c b w ≡ ok w')
  continue_written c b w w' (some n) h = cc
  continue_written c b w w' none h =
      let (x, accepted, same) = >>=-eq-ok (accept_module env schedule state request c b w) _ h in
      (refl, accepted ∙ ap ok (written_injective x w' same))

  pub publish_module_written :
      (b : Bytes) (w w' : Writes)
      → publish_module env schedule state request b w ≡ ok (written w')
      → (a : Accepted env schedule state request.sender b) × (metadata : Bytes) × (module_writes env
            schedule a.compiled b metadata w
          ≡ w')
  unfolding publish_module
  publish_module_written b w w' h =
      let (c, parsed, h1) = >>=-eq-ok (parse_module env schedule b) _ h in
      let (u, owner, h2) =
        >>=-eq-ok (check_sender env schedule c.self_address request.sender) _ h1 in
      let (exists, present, h3) = >>=-eq-ok (has_module state c.self_address) _ h2 in
      let (code, decided, h4) = >>=-eq-ok (upgrade_refusal env schedule state c exists) _ h3 in
      let (none_refused, accepted) = continue_written c b w w' code h4 in
      let (metadata, same) = accept_module_ok c b w w' accepted in
      (
        record {
          compiled = c;
          parsed = map_err_ok _ (env.deserialize b) parsed;
          owner = check_sender_ok env schedule c.self_address request.sender owner;
          permitted = upgrade_Permitted c exists present (decided ∙ ap ok none_refused);
        },
        metadata,
        same,
      )
