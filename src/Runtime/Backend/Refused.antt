-- ===== src/Runtime/Backend/Refused.antt =====
-- The refusals of an upgrade: `publish_modules` of crates/nexus-move-runtime/src/vm_backend.rs.
use mathlib.Core.Path.{subst}
use nexus_move.Prelude.{
  ℕ, ◌≡◌, ◌≢◌, ◌⊎◌, inl, inr, refl, sym, ap, ◌∙◌, true, false, Option, none, some, List, [], ◌∷◌,
  ◌++◌, All, Bytes, bytes_eq, bytes_eq_iff, Bool-cases, ok, map_err, ◌>>=◌,
}
use nexus_move.Types.{HashValue}
use nexus_move.Package.{PackageMetadata, immutable, compatible, governance_only}
use nexus_move.Runtime.Abi.{CompiledModule, compute_module_abi_hash, abi_is_compatible}
use nexus_move.Runtime.Data.{ModulePublish, VmOutput, VmResult}
use nexus_move.Runtime.Gas.{GasSchedule}
use nexus_move.Runtime.Publisher.{Writes}
use nexus_move.Runtime.State.{NexusStateView, get_raw, has_module, module_metadata_key}
use nexus_move.Runtime.Backend.{MoveEnv}
use nexus_move.Runtime.Backend.Publish.{
  zero_hash, decoded, refusal, rejection, upgrade_refusal, check_sender, module_writes,
  parse_module, Progress, refused, publish_module, publish_each, publish_output, publish_modules,
}
use nexus_move.Runtime.Backend.Published.{check_sender_same}
use nexus_move.Runtime.Backend.Success.{IsPublishable, published}
use nexus_move.Runtime.Backend.Upgrades.{bind_ok}

-- Why the metadata on record refuse a module with the interface hash `new`, and with which code: 20
-- where there are none or their policy is immutable, 21 where it is governance's, 22 where it is
-- compatible and an interface hash is recorded that is not `new`.
abbrev pub IsRefused : Option PackageMetadata → HashValue → ℕ → Type 0
IsRefused none new code = code ≡ 20
IsRefused (some m) new code =
    ((m.upgrade_policy ≡ immutable) × (code ≡ 20))
    ⊎ (((m.upgrade_policy ≡ governance_only) × (code ≡ 21))
        ⊎ ((m.upgrade_policy ≡ compatible)
            × (m.abi_hash ≢ zero_hash)
            × (m.abi_hash ≢ new)
            × (code ≡ 22)))

different : (a b : Bytes) → a ≢ b → bytes_eq a b ≡ false
different a b ne = elim (Bool-cases (bytes_eq a b)) [
  | inl t ↦ absurd (ne ((bytes_eq_iff a b).0 t))
  | inr f ↦ f
]

IsRefused-refusal :
    (stored : Option PackageMetadata) (new : HashValue) (code : ℕ)
    → IsRefused stored new code
    → refusal stored new ≡ some code
unfolding refusal abi_is_compatible
IsRefused-refusal none new code e = ap some (sym e)
IsRefused-refusal (some m) new code (inl (policy, e)) = rw policy (ap some (sym e))
IsRefused-refusal (some m) new code (inr (inl (policy, e))) = rw policy (ap some (sym e))
IsRefused-refusal (some m) new code (inr (inr (policy, recorded, changed, e))) = rw policy (
    rw (different m.abi_hash zero_hash recorded)
      (rw (different m.abi_hash new changed) (ap some (sym e))))

module _ (env : MoveEnv) (schedule : GasSchedule) (state : NexusStateView)
    (request : ModulePublish) where
  upgrade_refused :
      (c : CompiledModule) (raw : Option Bytes) (code : ℕ)
      → get_raw state c.self_address module_metadata_key ≡ ok raw
      → refusal (decoded env.decode_metadata raw) (compute_module_abi_hash env.blake3 c) ≡ some code
      → upgrade_refusal env schedule state c true ≡ ok (some code)
  unfolding upgrade_refusal
  upgrade_refused c raw code stored refuses =
      bind_ok (get_raw state c.self_address module_metadata_key) _ stored ∙ ap ok refuses

  publish_module_refused :
      (b : Bytes) (w : Writes) (c : CompiledModule) (code : ℕ)
      → env.deserialize b ≡ ok c
      → c.self_address ≡ request.sender
      → has_module state c.self_address ≡ ok true
      → upgrade_refusal env schedule state c true ≡ ok (some code)
      → publish_module env schedule state request b w ≡ ok (refused code)
  unfolding publish_module
  publish_module_refused b w c code parsed owner present refuses =
      bind_ok (parse_module env schedule b) _ (ap (map_err _) parsed)
      ∙ bind_ok (check_sender env schedule c.self_address request.sender) _
          (check_sender_same env schedule state request c.self_address request.sender owner)
      ∙ bind_ok (has_module state c.self_address) _ present
      ∙ bind_ok (upgrade_refusal env schedule state c true) _ refuses

  -- Modules that can be published are passed, and the rest follows.
  publish_each-append :
      (before rest : List Bytes) (w : Writes)
      → All (IsPublishable env schedule state request) before
      → (w' : Writes) × (publish_each env schedule state request (before ++ rest) w
          ≡ publish_each env schedule state request rest w')
  unfolding publish_each
  publish_each-append [] rest w all = (w, refl)
  publish_each-append (b ∷ before) rest w (p, others) =
      let (w', same) =
        publish_each-append before rest (module_writes env schedule p.compiled b p.metadata w)
          others in
      (
        w',
        bind_ok (publish_module env schedule state request b w) _
              (published env schedule state request b p w)
            ∙ same,
      )

  -- A module of the sender that the metadata at the sender's address refuse ends the publication
  -- with the code of the refusal and without effects, whatever modules follow it, where the modules
  -- before it can be published: with 20 where the sender has a module and no metadata, or the
  -- policy is immutable; with 21 where the policy is governance's; with 22 where it is compatible
  -- and the recorded interface hash is not that of the module.
  pub publish_modules_refused :
      (before rest : List Bytes) (b : Bytes) (c : CompiledModule) (raw : Option Bytes) (code : ℕ)
      → request.modules ≡ before ++ b ∷ rest
      → All (IsPublishable env schedule state request) before
      → env.deserialize b ≡ ok c
      → c.self_address ≡ request.sender
      → has_module state request.sender ≡ ok true
      → get_raw state request.sender module_metadata_key ≡ ok raw
      → IsRefused (decoded env.decode_metadata raw) (compute_module_abi_hash env.blake3 c) code
      → publish_modules env schedule state request ≡ ok (rejection env schedule code)
  unfolding publish_modules publish_each publish_output
  publish_modules_refused before rest b c raw code listed all parsed owner present stored refuses =
      let (w, passed) = publish_each-append before (b ∷ rest) ([], []) all in
      ap (λ bs. publish_each env schedule state request bs ([], []) >>= output) listed
      ∙ (ap (λ r. r >>= output) passed
          ∙ ap (λ r. r >>= output)
              (bind_ok (publish_module env schedule state request b w) _ (
                publish_module_refused b w c code parsed owner
                  (subst (λ a. has_module state a ≡ ok true) (sym owner) present)
                  (upgrade_refused c raw code
                    (subst (λ a. get_raw state a module_metadata_key ≡ ok raw) (sym owner) stored)
                    (IsRefused-refusal (decoded env.decode_metadata raw)
                      (compute_module_abi_hash env.blake3 c) code refuses)))))
    where
      output : Progress env schedule → VmResult VmOutput
      output p = ok (publish_output env schedule request p)
