-- ===== src/Package/Merge.antt =====
-- `merged_named_addresses` of crates/nexus-move-package/src/lib.rs: the named addresses of the
-- manifest with those of the build options over them.
use mathlib.Core.Path.{subst}
use nexus_move.Prelude.{
  ◌≡◌, ◌≢◌, refl, ap, ◌∙◌, arith, Option, none, some, List, [], ◌∷◌, inl, inr, if◌then◌else◌,
  is_empty, Bytes, bytes_eq, bytes_eq_iff, Bool-cases, All,
}
use nexus_move.Types.{AccountAddress}
use nexus_move.Package.{NamedAddressAssignment, BuildPlan}

abbrev pub Assignments : Type 0
Assignments = List NamedAddressAssignment

-- The first entry with the name of `entry` is replaced; without one, `entry` is pushed.
unfoldable pub put : NamedAddressAssignment → Assignments → Assignments
put entry [] = entry ∷ []
put entry (e ∷ merged) =
    let rest = put entry merged in if bytes_eq e.name entry.name then entry ∷ merged else e ∷ rest

-- The loop over the overrides.
unfoldable pub put_all : Assignments → Assignments → Assignments
unfolding put
put_all [] merged = merged
put_all (entry ∷ overrides) merged = put_all overrides (put entry merged)

unfoldable pub merged_named_addresses : BuildPlan → Assignments
unfolding put_all
merged_named_addresses plan =
    if is_empty plan.options.named_addresses
    then plan.move_toml.named_addresses
    else put_all plan.options.named_addresses plan.move_toml.named_addresses

-- The address that a list of assignments gives a name: its first entry's.
abbrev pub address_of : Bytes → Assignments → Option AccountAddress
address_of name [] = none
address_of name (e ∷ entries) =
    let rest = address_of name entries in if bytes_eq e.name name then some e.address else rest

-- That of its last entry, or else `fallback`.
abbrev pub last_address_of : Bytes → Assignments → Option AccountAddress → Option AccountAddress
last_address_of name [] fallback = fallback
last_address_of name (e ∷ entries) fallback =
    last_address_of name entries (if bytes_eq e.name name then some e.address else fallback)

-- No name is assigned twice.
abbrev pub NamedOnce : Assignments → Type 0
NamedOnce [] = Unit
NamedOnce (e ∷ entries) =
    All (λ (f : NamedAddressAssignment). e.name ≢ f.name) entries × NamedOnce entries

address_of-put :
    (name : Bytes) (entry : NamedAddressAssignment) (merged : Assignments)
    → address_of name (put entry merged)
      ≡ (if bytes_eq entry.name name then some entry.address else address_of name merged)
unfolding put
address_of-put name entry [] = refl
address_of-put name entry (e ∷ merged) = elim (Bool-cases (bytes_eq e.name entry.name)) [
  | inl h ↦
      let same = (bytes_eq_iff e.name entry.name).0 h in
      ground (arith, same, address_of-put name entry merged)
  | inr h ↦ elim (Bool-cases (bytes_eq entry.name name)) [
    | inl k ↦
        ground (arith, h, k, (bytes_eq_iff entry.name name).0 k, address_of-put name entry merged)
    | inr k ↦ ground (arith, h, k, address_of-put name entry merged)
  ]
]

address_of-put_all :
    (name : Bytes) (overrides merged : Assignments)
    → address_of name (put_all overrides merged)
      ≡ last_address_of name overrides (address_of name merged)
unfolding put_all
address_of-put_all name [] merged = refl
address_of-put_all name (entry ∷ overrides) merged =
    address_of-put_all name overrides (put entry merged)
    ∙ ap (last_address_of name overrides) (address_of-put name entry merged)

-- In the merged assignments a name has the address of its last override, or without an override
-- the one that the manifest gives it.
pub merged_named_addresses_lem :
    (plan : BuildPlan) (name : Bytes)
    → address_of name (merged_named_addresses plan)
      ≡ last_address_of name plan.options.named_addresses
          (address_of name plan.move_toml.named_addresses)
unfolding merged_named_addresses
merged_named_addresses_lem plan name =
    by_overrides plan.options.named_addresses plan.move_toml.named_addresses
  where
    by_overrides :
        (overrides toml : Assignments)
        → address_of name (if is_empty overrides then toml else put_all overrides toml)
          ≡ last_address_of name overrides (address_of name toml)
    by_overrides [] toml = refl
    by_overrides (e ∷ overrides) toml = address_of-put_all name (e ∷ overrides) toml

All-put :
    (P : NamedAddressAssignment → Type 0) (entry : NamedAddressAssignment) (merged : Assignments)
    → P entry
    → All P merged
    → All P (put entry merged)
unfolding put
All-put P entry [] p a = (p, tt)
All-put P entry (e ∷ merged) p a = elim (Bool-cases (bytes_eq e.name entry.name)) [
  | inl h ↦ rw h (p, a.1)
  | inr h ↦ rw h (a.0, All-put P entry merged p a.1)
]

NamedOnce-put :
    (entry : NamedAddressAssignment) (merged : Assignments)
    → NamedOnce merged
    → NamedOnce (put entry merged)
unfolding put
NamedOnce-put entry [] d = (tt, tt)
NamedOnce-put entry (e ∷ merged) d = elim (Bool-cases (bytes_eq e.name entry.name)) [
  | inl h ↦ rw h (
    subst (λ n. All (λ (f : NamedAddressAssignment). n ≢ f.name) merged)
        ((bytes_eq_iff e.name entry.name).0 h) d.0,
    d.1,
  )
  | inr h ↦ rw h (
    All-put (λ f. e.name ≢ f.name) entry merged (λ q. cc ((bytes_eq_iff e.name entry.name).1 q, h))
        d.0,
    NamedOnce-put entry merged d.1,
  )
]

NamedOnce-put_all :
    (overrides merged : Assignments) → NamedOnce merged → NamedOnce (put_all overrides merged)
unfolding put_all
NamedOnce-put_all [] merged d = d
NamedOnce-put_all (e ∷ overrides) merged d =
    NamedOnce-put_all overrides (put e merged) (NamedOnce-put e merged d)

-- Where the manifest assigns no name twice, the merged assignments do not either, even if the
-- overrides do.
pub merged_named_addresses-NamedOnce :
    (plan : BuildPlan)
    → NamedOnce plan.move_toml.named_addresses
    → NamedOnce (merged_named_addresses plan)
unfolding merged_named_addresses
merged_named_addresses-NamedOnce plan d =
    elim (Bool-cases (is_empty plan.options.named_addresses)) [
      | inl h ↦ rw h d
      | inr h ↦ rw h (NamedOnce-put_all plan.options.named_addresses _ d)
    ]
