-- ===== src/Package/Native/Options.antt =====
-- What the native backend asks the compiler for: the options of `compile` in
-- crates/nexus-move-package/src/native_backend.rs.
use mathlib.Core.List.{Memᴰ}
use nexus_move.Prelude.{
  ◌≡◌, ◌≢◌, ◌↔◌, ◌⊎◌, refl, sym, ap, ◌∙◌, true, false, some, List, [], ◌∷◌, All, Bytes, bytes_eq,
  bytes_eq_iff, ascii, ok, Bool-cases, inl, inr,
}
use nexus_move.Prelude.Map.{Map, lookup, insert, lookup-insert_self, lookup-insert_ne}
use nexus_move.Prelude.Orders.{bytes_order}
use nexus_move.Package.{BuildPlan, join, parse_named_address_assignments}
use nexus_move.Package.Bootstrap.Laws.{IsWritable, parse_texts}
use nexus_move.Package.Merge.{merged_named_addresses}
use nexus_move.Package.Disk.{Disk, exists}
use nexus_move.Package.Native.{
  CompilerOptions, NativeCompileBackend, compiler_options, existing, insert_all,
  known_attribute_view,
}

lookup_nothing : (name : Bytes) → lookup {V = Unit {0}} name [] ≢ some tt
unfolding lookup
lookup_nothing name e = cc

insert_all-attributes :
    (name : Bytes) (attrs : List Bytes) (set : Map Bytes (Unit {0}))
    → (lookup name (insert_all attrs set) ≡ some tt)
      ↔ ((lookup name set ≡ some tt) ⊎ Memᴰ name attrs)
unfolding insert_all
insert_all-attributes name [] set = (inl, λ h. elim h [ inl e ↦ e | inr m ↦ elim m [ ] ])
insert_all-attributes name (attr ∷ attrs) set =
    let rest = insert_all-attributes name attrs (insert attr tt set) in
    let here : (name ≡ attr) → (lookup name (insert attr tt set) ≡ some tt) =
      λ e. ap (λ n. lookup n (insert attr tt set)) e ∙ lookup-insert_self attr tt set in
    elim (Bool-cases (bytes_eq name attr)) [
      | inl t ↦ (
        λ _. inr (Memᴰ.head ((bytes_eq_iff name attr).0 t)),
        λ _. rest.1 (inl (here ((bytes_eq_iff name attr).0 t))),
      )
      | inr f ↦
          let ne : name ≢ attr = λ e. cc (f, (bytes_eq_iff name attr).1 e) in
          let same = lookup-insert_ne attr name tt set ne in
          (
            λ h. elim (rest.0 h) [ inl e ↦ inl (sym same ∙ e) | inr m ↦ inr (Memᴰ.tail m) ],
            λ h. elim h [ inl e ↦ rest.1 (inl (same ∙ e)) | inr m ↦ rest.1 (other ne m) ],
          )
    ]
  where
    other :
        name ≢ attr
        → Memᴰ name (attr ∷ attrs)
        → (lookup name (insert attr tt set) ≡ some tt) ⊎ Memᴰ name attrs
    other ne (Memᴰ.head e) = absurd (ne e)
    other ne (Memᴰ.tail m) = inr m

Mem-existing :
    (d : Disk) (dir : Bytes) (dirs : List Bytes)
    → Memᴰ dir (existing d dirs) ↔ (Memᴰ dir dirs × (exists d dir ≡ true))
unfolding existing
Mem-existing d dir [] = (λ m. elim m [ ], λ h. elim h.0 [ ])
Mem-existing d dir (first ∷ dirs) =
    let rest = Mem-existing d dir dirs in
    elim (Bool-cases (exists d first)) [ inl t ↦ rw t (keeps t rest) | inr f ↦ rw f (drops f rest) ]
  where
    keeps :
        exists d first ≡ true
        → Memᴰ dir (existing d dirs) ↔ (Memᴰ dir dirs × (exists d dir ≡ true))
        → Memᴰ dir (first ∷ existing d dirs) ↔ (Memᴰ dir (first ∷ dirs) × (exists d dir ≡ true))
    keeps t rest = (
      λ m. elim m [
        | Memᴰ.head e ↦ (Memᴰ.head e, ap (exists d) e ∙ t)
        | Memᴰ.tail m ↦ (Memᴰ.tail (rest.0 m).0, (rest.0 m).1)
      ],
      λ h. elim h.0 [ Memᴰ.head e ↦ Memᴰ.head e | Memᴰ.tail m ↦ Memᴰ.tail (rest.1 (m, h.1)) ],
    )

    drops :
        exists d first ≡ false
        → Memᴰ dir (existing d dirs) ↔ (Memᴰ dir dirs × (exists d dir ≡ true))
        → Memᴰ dir (existing d dirs) ↔ (Memᴰ dir (first ∷ dirs) × (exists d dir ≡ true))
    drops f rest = (
      λ m. (Memᴰ.tail (rest.0 m).0, (rest.0 m).1),
      λ h. elim h.0 [
        | Memᴰ.head e ↦ absurd (cc (ap (exists d) e, h.1, f))
        | Memᴰ.tail m ↦ rest.1 (m, h.1)
      ],
    )

module _ (b : NativeCompileBackend) (d : Disk) (plan : BuildPlan) where
  -- What a plan asks of the compiler: the package's sources, the dependencies that exist, the
  -- plan's named addresses as texts that are read as those addresses, and the attributes of the
  -- plan with `view`, which are checked.
  pub record IsAsked (o : CompilerOptions) : Type 0 where
    pub sources : o.sources ≡ join plan.options.package_dir (ascii "sources") ∷ []
    pub sources_deps :
        (dir : Bytes) → Memᴰ dir o.sources_deps ↔ (Memᴰ dir b.stdlib_dirs × (exists d dir ≡ true))
    pub dependencies :
        (dir : Bytes)
        → Memᴰ dir o.dependencies ↔ (Memᴰ dir b.bytecode_dep_dirs × (exists d dir ≡ true))
    pub addresses :
        parse_named_address_assignments o.named_address_mapping ≡ ok (merged_named_addresses plan)
    pub attributes :
        (name : Bytes)
        → (lookup name o.known_attributes ≡ some tt)
          ↔ ((name ≡ ascii "view") ⊎ Memᴰ name plan.options.known_attributes)
    pub checks : o.skip_attribute_checks ≡ false
    pub separate : o.whole_program ≡ false

  known_attributes-view :
      (name : Bytes) (set : Map Bytes (Unit {0})) (attrs : List Bytes)
      → (lookup name set ≡ some tt) ↔ Memᴰ name attrs
      → (lookup name (insert known_attribute_view tt set) ≡ some tt)
        ↔ ((name ≡ ascii "view") ⊎ Memᴰ name attrs)
  known_attributes-view name set attrs h = elim (Bool-cases (bytes_eq name known_attribute_view)) [
    | inl t ↦
        let e : name ≡ known_attribute_view = (bytes_eq_iff name known_attribute_view).0 t in
        (
          λ _. inl e,
          λ _.
              ap (λ n. lookup n (insert known_attribute_view tt set)) e
              ∙ lookup-insert_self known_attribute_view tt set,
        )
    | inr f ↦
        let ne : name ≢ known_attribute_view =
          λ e. cc (f, (bytes_eq_iff name known_attribute_view).1 e) in
        let same = lookup-insert_ne known_attribute_view name tt set ne in
        (
          λ k. inr (h.0 (sym same ∙ k)),
          λ k. elim k [ inl e ↦ absurd (ne e) | inr m ↦ same ∙ h.1 m ],
        )
  ]

  plan_attributes :
      (name : Bytes) (attrs : List Bytes)
      → (lookup name (insert_all attrs []) ≡ some tt) ↔ Memᴰ name attrs
  plan_attributes name attrs =
      let all = insert_all-attributes name attrs [] in
      (
        λ h. elim (all.0 h) [ inl e ↦ absurd (lookup_nothing name e) | inr m ↦ m ],
        λ m. all.1 (inr m),
      )

  pub compiler_options-IsAsked :
      All IsWritable (merged_named_addresses plan) → IsAsked (compiler_options b d plan)
  unfolding compiler_options
  compiler_options-IsAsked w = record {
    sources = refl;
    sources_deps = λ dir. Mem-existing d dir b.stdlib_dirs;
    dependencies = λ dir. Mem-existing d dir b.bytecode_dep_dirs;
    addresses = parse_texts (merged_named_addresses plan) w;
    attributes = λ name.
        known_attributes-view name (insert_all plan.options.known_attributes [])
          plan.options.known_attributes (plan_attributes name plan.options.known_attributes);
    checks = refl;
    separate = refl;
  }
