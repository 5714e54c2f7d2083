-- ===== src/Package/Verified.antt =====
-- What the verified backend guarantees, and that a build always names `std`.
use mathlib.Core.Path.{subst}
use nexus_move.Prelude.{
  ◌≡◌, ◌⊎◌, refl, sym, arith, true, false, Option, some, List, [], ◌∷◌, ◌++◌, inl, inr,
  if◌then◌else◌, Bytes, bytes_eq, ascii, Result, ok, err, panic, map_err, >>=-eq-ok, Bool-cases,
}
use nexus_move.Types.{AccountAddress}
use nexus_move.Package.{NamedAddressAssignment, BuildPlan, CompiledModule, for_package_dir}
use nexus_move.Package.Toml.{inspect_move_toml}
use nexus_move.Package.Merge.{
  Assignments, address_of, last_address_of, merged_named_addresses, merged_named_addresses_lem,
}
use nexus_move.Package.Build.{CompileBackend}
use nexus_move.Package.Backends.{
  ParsedModule, BytecodeTools, ModuleInfo, VerifiedBuildResult, info_of, module_failed, verify_each,
  compile_verified, std_name, names_std, std_address, build_addresses, build_options,
}

-- A module that parsed and passed the verifier, and what is reported of it.
pub record IsVerified (tools : BytecodeTools) (m : CompiledModule) (info : ModuleInfo)
    : Type 0 where
  pub parsed : ParsedModule
  pub deserialized : tools.deserialize m.bytes ≡ ok parsed
  pub verified : tools.verify_module parsed ≡ ok tt
  pub reported : info ≡ info_of tools m.bytes parsed

-- One report for each module, in order.
abbrev pub AreVerified : BytecodeTools → List CompiledModule → List ModuleInfo → Type 0
AreVerified tools [] [] = Unit
AreVerified tools (m ∷ modules) (info ∷ infos) =
    IsVerified tools m info × AreVerified tools modules infos
AreVerified tools _ _ = ⊥

ok_injective : {E A : Type 0} {a b : A} → ◌≡◌ {A = Result E A} (ok a) (ok b) → a ≡ b
ok_injective h = cc

map_err_ok : {E F A : Type 0} (f : E → F) (r : Result E A) {a : A} → map_err f r ≡ ok a → r ≡ ok a
map_err_ok f (ok a) h = cc
map_err_ok f (err e) h = cc
map_err_ok f panic h = cc

module _ (tools : BytecodeTools) where
  verify_each-AreVerified :
      (modules : List CompiledModule) (infos : List ModuleInfo)
      → verify_each tools modules ≡ ok infos
      → AreVerified tools modules infos
  unfolding verify_each
  verify_each-AreVerified [] infos h = subst (AreVerified tools []) (ok_injective h) tt
  verify_each-AreVerified (m ∷ modules) infos h =
      let (parsed, read, h1) =
        >>=-eq-ok
          (map_err (module_failed tools m (ascii "' deserialization failed: "))
            (tools.deserialize m.bytes))
          _ h in
      let (u, passed, h2) =
        >>=-eq-ok
          (map_err (module_failed tools m (ascii "' verification failed: "))
            (tools.verify_module parsed))
          _ h1 in
      let (others, rest, same) = >>=-eq-ok (verify_each tools modules) _ h2 in
      subst (AreVerified tools (m ∷ modules)) (ok_injective same) (
        record {
          parsed = parsed;
          deserialized = map_err_ok _ (tools.deserialize m.bytes) read;
          verified = map_err_ok _ (tools.verify_module parsed) passed;
          reported = refl;
        },
        verify_each-AreVerified modules others rest,
      )

  -- A verified build has the package that the delegate compiled, unchanged, and for each of its
  -- modules in order a report of a module that parsed and passed the verifier, with the hash and
  -- the size of its bytes.
  pub compile_verified-AreVerified :
      (delegate : CompileBackend) (plan : BuildPlan) (r : VerifiedBuildResult)
      → compile_verified tools delegate plan ≡ ok r
      → (delegate plan ≡ ok r.compiled_package)
        × AreVerified tools r.compiled_package.modules r.module_info
  unfolding compile_verified
  compile_verified-AreVerified delegate plan r h =
      let (p, compiled, h1) = >>=-eq-ok (delegate plan) _ h in
      let (infos, checked, same) = >>=-eq-ok (verify_each tools p.modules) _ h1 in
      subst
        (λ (x : VerifiedBuildResult).
          (delegate plan ≡ ok x.compiled_package)
          × AreVerified tools x.compiled_package.modules x.module_info)
        (ok_injective same) (compiled, verify_each-AreVerified p.modules infos checked)

-- Some address.
abbrev pub IsNamed : Option AccountAddress → Type 0
IsNamed o = (a : AccountAddress) × (o ≡ some a)

skip_entry :
    (e : NamedAddressAssignment) (entries : Assignments) (fallback : Option AccountAddress)
    → bytes_eq e.name std_name ≡ false
    → (names_std (e ∷ entries) ≡ true) ⊎ IsNamed fallback
    → (names_std entries ≡ true)
      ⊎ IsNamed (if bytes_eq e.name std_name then some e.address else fallback)
skip_entry e entries fallback q (inl h) = inl (rw q at h)
skip_entry e entries fallback q (inr n) = inr (rw q n)

address_of-IsNamed :
    (entries : Assignments) → names_std entries ≡ true → IsNamed (address_of std_name entries)
address_of-IsNamed [] h = cc
address_of-IsNamed (e ∷ entries) h = elim (Bool-cases (bytes_eq e.name std_name)) [
  | inl q ↦ (e.address, rw q refl)
  | inr q ↦ rw q (address_of-IsNamed entries (rw q at h))
]

names_std-append :
    (entries : Assignments)
    → names_std (entries ++ record { name = std_name; address = std_address } ∷ []) ≡ true
names_std-append [] = refl
names_std-append (e ∷ entries) = ground (arith, names_std-append entries)

last_address_of-IsNamed :
    (entries : Assignments) (fallback : Option AccountAddress)
    → (names_std entries ≡ true) ⊎ IsNamed fallback
    → IsNamed (last_address_of std_name entries fallback)
last_address_of-IsNamed [] fallback (inl e) = cc
last_address_of-IsNamed [] fallback (inr n) = n
last_address_of-IsNamed (e ∷ entries) fallback h = elim (Bool-cases (bytes_eq e.name std_name)) [
  | inl q ↦ last_address_of-IsNamed entries _ (inr (e.address, rw q refl))
  | inr q ↦ last_address_of-IsNamed entries _ (skip_entry e entries fallback q h)
]

std_given :
    (additional : Assignments) (contents : Bytes)
    → (names_std (build_addresses additional contents) ≡ true)
      ⊎ (names_std (inspect_move_toml contents).named_addresses ≡ true)
unfolding build_addresses
std_given additional contents = elim (Bool-cases (names_std additional)) [
  | inl a ↦ inl (rw a a)
  | inr a ↦ elim (Bool-cases (names_std (inspect_move_toml contents).named_addresses)) [
    | inl b ↦ inr b
    | inr b ↦ inl (rw a (rw b (names_std-append additional)))
  ]
]

IsNamed-from :
    (entries toml : Assignments)
    → (names_std entries ≡ true) ⊎ (names_std toml ≡ true)
    → IsNamed (last_address_of std_name entries (address_of std_name toml))
IsNamed-from entries toml (inl h) = last_address_of-IsNamed entries _ (inl h)
IsNamed-from entries toml (inr h) =
    last_address_of-IsNamed entries _ (inr (address_of-IsNamed toml h))

-- The plan of a build, with any additional addresses and any manifest, gives `std` an address:
-- the sources of a package can name the framework.
pub build_options-IsNamed :
    (package_dir contents : Bytes) (additional : Assignments)
    → IsNamed (
        address_of std_name (
          merged_named_addresses (record {
            options = build_options package_dir additional contents;
            move_toml = inspect_move_toml contents;
            artifact_layout = for_package_dir package_dir;
          })))
unfolding build_options
build_options-IsNamed package_dir contents additional =
    subst IsNamed (sym (merged_named_addresses_lem _ std_name)) (
      IsNamed-from (build_addresses additional contents)
        (inspect_move_toml contents).named_addresses (std_given additional contents))
