-- ===== src/Runtime/Backend/Success.antt =====
-- When a publication through the Move VM succeeds: `publish_modules` of
-- crates/nexus-move-runtime/src/vm_backend.rs.
use nexus_move.Prelude.{
  ◌≡◌, ◌↔◌, ◌⊎◌, refl, ap, ◌∙◌, Bool, true, false, not, ◌&&◌, Option, none, some, List, [], ◌∷◌,
  inl, inr, length, All, Bytes, bytes_eq, bytes_eq_iff, ok, map_err, >>=-eq-ok,
}
use nexus_move.Types.{HashValue}
use nexus_move.Package.{PackageMetadata, compatible}
use nexus_move.Runtime.Abi.{CompiledModule, compute_module_abi_hash, abi_is_compatible}
use nexus_move.Runtime.Data.{ModulePublish, VmOutput, success}
use nexus_move.Runtime.Gas.{GasSchedule}
use nexus_move.Runtime.Publisher.{Writes}
use nexus_move.Runtime.State.{NexusStateView, get_raw, has_module, module_metadata_key}
use nexus_move.Runtime.Backend.{MoveEnv, new_storage}
use nexus_move.Runtime.Backend.Publish.{
  zero_hash, decoded, refusal, upgrade_refusal, check_sender, check_dependencies, module_metadata,
  module_writes, accept_module, verify_code, encode_module_metadata, parse_module, written,
  publish_module, publish_each, publish_output, publish_modules,
}
use nexus_move.Runtime.Backend.Fetch.{published_loop}
use nexus_move.Runtime.Backend.Published.{check_sender_same, each_written}
use nexus_move.Runtime.Backend.Upgrades.{
  Permitted, fresh, upgrade, ok_injective, bind_ok, map_err_ok, check_sender_ok, upgrade_Permitted,
  continue_written,
}
use nexus_move.Runtime.Backend.Dependencies.{IsMet, check_dependencies_iff}

same_kept :
    (old new : HashValue)
    → (old ≡ zero_hash) ⊎ (old ≡ new)
    → (not (bytes_eq old zero_hash) && not (bytes_eq old new)) ≡ false
same_kept old new (inl e) = rw ((bytes_eq_iff old zero_hash).1 e) refl
same_kept old new (inr e) = rw ((bytes_eq_iff old new).1 e) (never (not (bytes_eq old zero_hash)))
  where
    never : (b : Bool) → (b && false) ≡ false
    never true = refl
    never false = refl

-- A module published as compatible does not refuse one with its interface, or any if its own was
-- not recorded.
refusal_compatible :
    (stored : Option PackageMetadata) (m : PackageMetadata) (new : HashValue)
    → stored ≡ some m
    → m.upgrade_policy ≡ compatible
    → (m.abi_hash ≡ zero_hash) ⊎ (m.abi_hash ≡ new)
    → refusal stored new ≡ none
unfolding refusal abi_is_compatible
refusal_compatible stored m new e policy same =
    rw e (rw policy (rw (same_kept m.abi_hash new same) refl))

module _ (env : MoveEnv) (schedule : GasSchedule) (state : NexusStateView)
    (request : ModulePublish) where
  -- A module that can be published: it parses, belongs to the sender, may be written over what is
  -- there, passes the verifier, has its dependencies, and its metadata is encoded.
  pub record IsPublishable (b : Bytes) : Type 0 where
    pub compiled : CompiledModule
    pub parsed : env.deserialize b ≡ ok compiled
    pub owner : compiled.self_address ≡ request.sender
    pub present : Bool
    pub found : has_module state compiled.self_address ≡ ok present
    pub permitted : Permitted env state compiled
    pub verified : env.verify_module compiled (length b) (env.blake3 b) ≡ ok tt
    pub dependencies :
        All
          (IsMet env schedule (new_storage env state) request.sender)
          compiled.immediate_dependencies
    pub metadata : Bytes
    pub encoded :
        env.encode_metadata (module_metadata env schedule request compiled b) ≡ ok metadata

  accepted :
      (b : Bytes) (p : IsPublishable b) (w : Writes)
      → accept_module env schedule state request p.compiled b w
        ≡ ok (module_writes env schedule p.compiled b p.metadata w)
  unfolding accept_module
  accepted b p w =
      bind_ok (verify_code env schedule p.compiled b) _ (ap (map_err _) p.verified)
      ∙ bind_ok
          (check_dependencies env schedule (new_storage env state) request.sender
            p.compiled.immediate_dependencies)
          _
          ((check_dependencies_iff env schedule (new_storage env state) request.sender
              p.compiled.immediate_dependencies).1
            p.dependencies)
      ∙ bind_ok (encode_module_metadata env schedule request p.compiled b) _
          (ap (map_err _) p.encoded)

  not_refused :
      (c : CompiledModule) (present : Bool)
      → has_module state c.self_address ≡ ok present
      → Permitted env state c
      → upgrade_refusal env schedule state c present ≡ ok none
  unfolding upgrade_refusal
  not_refused c false found h = refl
  not_refused c true found (fresh e) = cc
  not_refused c true found (upgrade raw m read stored policy same) =
      bind_ok (get_raw state c.self_address module_metadata_key) _ read
      ∙ ap ok (
          refusal_compatible (decoded env.decode_metadata raw) m
            (compute_module_abi_hash env.blake3 c) stored policy same)

  pub published :
      (b : Bytes) (p : IsPublishable b) (w : Writes)
      → publish_module env schedule state request b w
        ≡ ok (written (module_writes env schedule p.compiled b p.metadata w))
  unfolding publish_module
  published b p w =
      bind_ok (parse_module env schedule b) _ (ap (map_err _) p.parsed)
      ∙ bind_ok (check_sender env schedule p.compiled.self_address request.sender) _ (
          check_sender_same env schedule state request p.compiled.self_address request.sender
            p.owner)
      ∙ bind_ok (has_module state p.compiled.self_address) _ p.found
      ∙ bind_ok (upgrade_refusal env schedule state p.compiled p.present) _
          (not_refused p.compiled p.present p.found p.permitted)
      ∙ bind_ok (accept_module env schedule state request p.compiled b w) _ (accepted b p w)

  accepted_inv :
      (c : CompiledModule) (b : Bytes) (w w' : Writes)
      → accept_module env schedule state request c b w ≡ ok w'
      → (env.verify_module c (length b) (env.blake3 b) ≡ ok tt)
        × All (IsMet env schedule (new_storage env state) request.sender) c.immediate_dependencies
        × ((metadata : Bytes) × (env.encode_metadata (module_metadata env schedule request c b)
              ≡ ok metadata))
  unfolding accept_module
  accepted_inv c b w w' h =
      let checks =
        check_dependencies env schedule (new_storage env state) request.sender
          c.immediate_dependencies in
      let (_, verified, h₁) = >>=-eq-ok (verify_code env schedule c b) _ h in
      let (_, checked, h₂) = >>=-eq-ok checks _ h₁ in
      let (metadata, encoded, _) =
        >>=-eq-ok (encode_module_metadata env schedule request c b) _ h₂ in
      (
        map_err_ok _ _ verified,
        (check_dependencies_iff env schedule (new_storage env state) request.sender
              c.immediate_dependencies).0
            checked,
        (metadata, map_err_ok _ _ encoded),
      )

  published_inv :
      (b : Bytes) (w w' : Writes)
      → publish_module env schedule state request b w ≡ ok (written w')
      → IsPublishable b
  unfolding publish_module
  published_inv b w w' h =
      let (c, parsed, h₁) = >>=-eq-ok (parse_module env schedule b) _ h in
      let (_, owner, h₂) =
        >>=-eq-ok (check_sender env schedule c.self_address request.sender) _ h₁ in
      let (present, found, h₃) = >>=-eq-ok (has_module state c.self_address) _ h₂ in
      let (code, decided, h₄) = >>=-eq-ok (upgrade_refusal env schedule state c present) _ h₃ in
      let (kept, done) = continue_written env schedule state request c b w w' code h₄ in
      let (verified, dependencies, (metadata, encoded)) = accepted_inv c b w w' done in
      record {
        compiled = c;
        parsed = map_err_ok _ (env.deserialize b) parsed;
        owner = check_sender_ok env schedule c.self_address request.sender owner;
        present = present;
        found = found;
        permitted =
            upgrade_Permitted env schedule state request c present found (decided ∙ ap ok kept);
        verified = verified;
        dependencies = dependencies;
        metadata = metadata;
        encoded = encoded;
      }

  each_published :
      (bs : List Bytes) (w : Writes)
      → All IsPublishable bs
      → (w' : Writes) × (publish_each env schedule state request bs w ≡ ok (written w'))
  unfolding publish_each
  each_published [] w h = (w, refl)
  each_published (b ∷ bs) w (p, others) =
      let (w', done) =
        each_published bs (module_writes env schedule p.compiled b p.metadata w) others in
      (w', bind_ok (publish_module env schedule state request b w) _ (published b p w) ∙ done)

  each_published_inv :
      (bs : List Bytes) (w w' : Writes)
      → publish_each env schedule state request bs w ≡ ok (written w')
      → All IsPublishable bs
  unfolding publish_each
  each_published_inv [] w w' h = tt
  each_published_inv (b ∷ bs) w w' h =
      let (p, first, rest) = >>=-eq-ok (publish_module env schedule state request b w) _ h in
      let (x, same, others) = each_written env schedule state request b bs w w' p rest in
      (published_inv b w x (first ∙ ap ok same), each_published_inv bs x w' others)

  -- A publication through the Move VM succeeds exactly if each of its modules can be published: it
  -- parses, its address is the sender's, no policy there refuses it, the verifier accepts it, each
  -- dependency is there or is the sender's or the framework's, and its metadata is encoded.
  pub publish_modules_succeeds_iff :
      ((o : VmOutput) × (publish_modules env schedule state request ≡ ok o) × (o.status ≡ success))
      ↔ All IsPublishable request.modules
  unfolding publish_modules publish_output
  publish_modules_succeeds_iff = (
    λ (o, h, succeeded).
        let (p, looped, same) =
          >>=-eq-ok (publish_each env schedule state request request.modules ([], [])) _ h in
        let (w, wrote, _) =
          published_loop env schedule state request p
            (ap (λ (r : VmOutput). r.status) (ok_injective same) ∙ succeeded) in
        each_published_inv request.modules ([], []) w (looped ∙ ap ok wrote),
    λ all.
        let (w, done) = each_published request.modules ([], []) all in
        (
          publish_output env schedule request (written w),
          bind_ok (publish_each env schedule state request request.modules ([], [])) _ done,
          refl,
        ),
  )
