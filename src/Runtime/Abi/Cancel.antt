-- ===== src/Runtime/Abi/Cancel.antt =====
-- Texts that begin with what the hash of an interface is fed with, in
-- crates/nexus-move-runtime/src/abi.rs, determine it and what follows.
use mathlib.Core.List.{append_assoc}
use mathlib.Core.Path.{ap₂}
use nexus_move.Prelude.{
  ℕ, ◌%◌, ◌^◌, ◌<◌, ◌≤◌, ◌≡◌, refl, sym, ap, ◌∙◌, arith, Bool, true, false, List, [], ◌∷◌, ◌++◌,
  length, take, drop, take-append_length, drop-append_length, All, Bytes,
}
use nexus_move.Prelude.Orders.{bytes_order}
use nexus_move.Prelude.Word.{
  to_le_bytes, from_le_bytes, length-to_le_bytes, from_le_bytes-to_le_bytes,
}
use nexus_move.Runtime.Abi.{
  FunctionEntry, StructEntry, length_bytes, with_length, flag_byte, hash_functions, hash_structs,
}

-- A size that the code writes in four bytes without loss.
abbrev pub IsSize : ℕ → Type 0
IsSize n = n < 2 ^ 32

-- The bytes of an identifier are none of the small bytes that follow it.
abbrev pub IsName : Bytes → Type 0
IsName name = All (λ b. 16 ≤ b) name

pub record IsFunctionEntry (e : FunctionEntry) : Type 0 where
  pub name : IsName e.name
  pub vis : e.vis < 16
  pub params : IsSize (length e.params)
  pub ret : IsSize (length e.ret)

pub record IsStructEntry (e : StructEntry) : Type 0 where
  pub name : IsName e.name
  pub abilities : e.abilities < 16
  pub fields : IsSize (length e.fields)

cons_injective : {x y : ℕ} {s t : Bytes} → x ∷ s ≡ y ∷ t → (x ≡ y) × (s ≡ t)
cons_injective h = (cc h, cc h)

append_cancel : (a b s t : Bytes) → length a ≡ length b → a ++ s ≡ b ++ t → (a ≡ b) × (s ≡ t)
append_cancel a b s t e h = (
  sym (take-append_length a s) ∙ ap₂ take e h ∙ take-append_length b t,
  sym (drop-append_length a s) ∙ ap₂ drop e h ∙ drop-append_length b t,
)

name_cancel :
    (n m : Bytes) (x y : ℕ) (s t : Bytes)
    → IsName n
    → IsName m
    → x < 16
    → y < 16
    → n ++ x ∷ s ≡ m ++ y ∷ t
    → (n ≡ m) × (x ≡ y) × (s ≡ t)
name_cancel [] [] x y s t p q small small' h = let (e, f) = cons_injective h in (refl, e, f)
name_cancel [] (b ∷ m) x y s t p (large, q) small small' h =
    let (e, f) = cons_injective h in absurd (omega arith)
name_cancel (a ∷ n) [] x y s t (large, p) q small small' h =
    let (e, f) = cons_injective h in absurd (omega arith)
name_cancel (a ∷ n) (b ∷ m) x y s t (_, p) (_, q) small small' h =
    let (e, f) = cons_injective h in
    let (same, then_, rest) = name_cancel n m x y s t p q small small' f in
    (ap₂ (λ c r. c ∷ r) e same, then_, rest)

pub length_bytes_cancel :
    (n m : ℕ) (s t : Bytes)
    → IsSize n
    → IsSize m
    → length_bytes n ++ s ≡ length_bytes m ++ t
    → (n ≡ m) × (s ≡ t)
unfolding length_bytes
length_bytes_cancel n m s t p q h =
    let (e, f) =
      append_cancel (to_le_bytes 4 (n % 2 ^ 32)) (to_le_bytes 4 (m % 2 ^ 32)) s t
        (length-to_le_bytes 4 (n % 2 ^ 32) ∙ sym (length-to_le_bytes 4 (m % 2 ^ 32))) h in
    let k : n % 2 ^ 32 ≡ m % 2 ^ 32 =
      sym (from_le_bytes-to_le_bytes 4 (n % 2 ^ 32) (omega arith))
      ∙ ap from_le_bytes e
      ∙ from_le_bytes-to_le_bytes 4 (m % 2 ^ 32) (omega arith) in
    (omega arith, f)

with_length_cancel :
    (a b s t : Bytes)
    → IsSize (length a)
    → IsSize (length b)
    → with_length a ++ s ≡ with_length b ++ t
    → (a ≡ b) × (s ≡ t)
unfolding with_length
with_length_cancel a b s t p q h =
    let (e, f) = length_bytes_cancel (length a) (length b) (a ++ s) (b ++ t) p q (
      sym (append_assoc (length_bytes (length a)) a s)
      ∙ h
      ∙ append_assoc (length_bytes (length b)) b t) in
    append_cancel a b s t e f

flag_byte_injective : (a b : Bool) → flag_byte a ≡ flag_byte b → a ≡ b
flag_byte_injective true true h = refl
flag_byte_injective false false h = refl
flag_byte_injective true false h = cc
flag_byte_injective false true h = cc

-- What is hashed for the first function, and what follows it.
functions_cons :
    (e : FunctionEntry) (es : List FunctionEntry) (s : Bytes)
    → hash_functions (e ∷ es) ++ s
      ≡ e.name
        ++ e.vis
          ∷ flag_byte e.is_entry
          ∷ (with_length e.params ++ (with_length e.ret ++ (hash_functions es ++ s)))
unfolding hash_functions
functions_cons e es s =
    rw (append_assoc e.name, append_assoc (with_length e.params), append_assoc (with_length e.ret))
      refl

function_entry_eq :
    (e f : FunctionEntry)
    → e.name ≡ f.name
    → e.vis ≡ f.vis
    → e.is_entry ≡ f.is_entry
    → e.params ≡ f.params
    → e.ret ≡ f.ret
    → e ≡ f
function_entry_eq e f n v i p r =
    λ j. record { name = n j; vis = v j; is_entry = i j; params = p j; ret = r j }

pub functions_cancel :
    (es fs : List FunctionEntry) (s t : Bytes)
    → All IsFunctionEntry es
    → All IsFunctionEntry fs
    → length es ≡ length fs
    → hash_functions es ++ s ≡ hash_functions fs ++ t
    → (es ≡ fs) × (s ≡ t)
unfolding hash_functions
functions_cancel [] [] s t p q k h = (refl, h)
functions_cancel [] (f ∷ fs) s t p q k h = absurd (omega (arith, k))
functions_cancel (e ∷ es) [] s t p q k h = absurd (omega (arith, k))
functions_cancel (e ∷ es) (f ∷ fs) s t (p, ps) (q, qs) k h =
    let h' = sym (functions_cons e es s) ∙ h ∙ functions_cons f fs t in
    let (name, vis, h₁) = name_cancel e.name f.name e.vis f.vis _ _ p.name q.name p.vis q.vis h' in
    let (flag, h₂) = cons_injective h₁ in
    let (params, h₃) = with_length_cancel e.params f.params _ _ p.params q.params h₂ in
    let (ret, h₄) = with_length_cancel e.ret f.ret _ _ p.ret q.ret h₃ in
    let (others, rest) = functions_cancel es fs s t ps qs (omega (arith, k)) h₄ in
    (
      ap₂ (λ x xs. x ∷ xs)
          (function_entry_eq e f name vis (flag_byte_injective e.is_entry f.is_entry flag) params
            ret)
          others,
      rest,
    )

structs_cons :
    (e : StructEntry) (es : List StructEntry) (s : Bytes)
    → hash_structs (e ∷ es) ++ s
      ≡ e.name ++ e.abilities ∷ (with_length e.fields ++ (hash_structs es ++ s))
unfolding hash_structs
structs_cons e es s = rw (append_assoc e.name, append_assoc (with_length e.fields)) refl

struct_entry_eq :
    (e f : StructEntry) → e.name ≡ f.name → e.abilities ≡ f.abilities → e.fields ≡ f.fields → e ≡ f
struct_entry_eq e f n a p = λ j. record { name = n j; abilities = a j; fields = p j }

pub structs_cancel :
    (es fs : List StructEntry) (s t : Bytes)
    → All IsStructEntry es
    → All IsStructEntry fs
    → length es ≡ length fs
    → hash_structs es ++ s ≡ hash_structs fs ++ t
    → (es ≡ fs) × (s ≡ t)
unfolding hash_structs
structs_cancel [] [] s t p q k h = (refl, h)
structs_cancel [] (f ∷ fs) s t p q k h = absurd (omega (arith, k))
structs_cancel (e ∷ es) [] s t p q k h = absurd (omega (arith, k))
structs_cancel (e ∷ es) (f ∷ fs) s t (p, ps) (q, qs) k h =
    let h' = sym (structs_cons e es s) ∙ h ∙ structs_cons f fs t in
    let (name, abilities, h₁) =
      name_cancel e.name f.name e.abilities f.abilities _ _ p.name q.name p.abilities q.abilities
        h' in
    let (fields, h₂) = with_length_cancel e.fields f.fields _ _ p.fields q.fields h₁ in
    let (others, rest) = structs_cancel es fs s t ps qs (omega (arith, k)) h₂ in
    (ap₂ (λ x xs. x ∷ xs) (struct_entry_eq e f name abilities fields) others, rest)
