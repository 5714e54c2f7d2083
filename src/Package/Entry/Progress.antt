-- ===== src/Package/Entry/Progress.antt =====
-- A build that nothing stands in the way of comes to its end.
use nexus_move.Prelude.{
  ◌≡◌, refl, ap, ◌∙◌, arith, true, false, none, List, [], ◌∷◌, All, Bytes, Result, ok,
}
use nexus_move.Prelude.Lists.{All-map}
use nexus_move.Prelude.Orders.{bytes_order}
use nexus_move.Package.{CompiledModule, BuildError, join}
use nexus_move.Package.Disk.{
  Disk, Fs, ◌>>◌, failing_as, fail_as, has_slash, is_above, create_dir_all, write, and_then,
}
use nexus_move.Package.Disk.Laws.{IsOpenEnded, parent-join, create_dir_all_ok, write_ok}
use nexus_move.Package.Framework.{mv_name, mv_path, write_failed}
use nexus_move.Package.Entry.{write_bytecode, write_encoded, failed}
use nexus_move.Package.Entry.Artifacts.{IsFlat, has_slash-mv_name}

-- The operating system refuses nothing, and the directories are there.
pub record IsOpen (dirs : List Bytes) (d : Disk) : Type 0 where
  pub allowed : (path : Bytes) → d.refuse path ≡ none
  pub there : All (λ dir. d.is_dir dir ≡ true) dirs

-- The step succeeds and leaves the disk open.
abbrev pub Succeeds : (Disk → Type 0) → Fs BuildError (Unit {0}) → Disk → Type 0
Succeeds P step d = (e : Disk) × (step d ≡ (ok tt, e)) × P e

pub chain-Succeeds :
    (P Q : Disk → Type 0) (first rest : Fs BuildError (Unit {0})) (d : Disk)
    → Succeeds P first d
    → ((e : Disk) → P e → Succeeds Q rest e)
    → Succeeds Q (first >> rest) d
chain-Succeeds P Q first rest d (e, done, p) next =
    let (f, finished, q) = next e p in
    (
      f,
      ap (λ (r : Result BuildError (Unit {0}) × Disk). and_then r.0 (λ _. rest) r.1) done
          ∙ finished,
      q,
    )

pub write-Succeeds :
    (dirs : List Bytes) (dir name contents : Bytes) (f : Bytes → BuildError) (d : Disk)
    → IsOpenEnded dir
    → has_slash name ≡ false
    → d.is_dir dir ≡ true
    → IsOpen dirs d
    → Succeeds (IsOpen dirs) (failing_as f (write (join dir name) contents)) d
write-Succeeds dirs dir name contents f d ended flat there open_ =
    let done =
      write_ok (join dir name) contents d (open_.allowed _)
        (ap d.is_dir (parent-join dir name ended flat) ∙ there) in
    (
      _,
      ap (λ (r : Result Bytes (Unit {0}) × Disk). (fail_as f r.0, r.1)) done,
      record { allowed = open_.allowed; there = open_.there },
    )

pub write_bytecode-Succeeds :
    (dir : Bytes) (dirs : List Bytes) (modules : List CompiledModule) (d : Disk)
    → IsOpenEnded dir
    → All IsFlat modules
    → IsOpen (dir ∷ dirs) d
    → Succeeds (IsOpen (dir ∷ dirs)) (write_bytecode dir modules) d
unfolding write_bytecode
write_bytecode-Succeeds dir dirs [] d ended flat open_ = (d, refl, open_)
write_bytecode-Succeeds dir dirs (m ∷ modules) d ended flat open_ =
    chain-Succeeds (IsOpen (dir ∷ dirs)) (IsOpen (dir ∷ dirs))
      (failing_as (write_failed (mv_path dir m.name)) (write (mv_path dir m.name) m.bytes))
      (write_bytecode dir modules) d
      (write-Succeeds (dir ∷ dirs) dir (mv_name m.name) m.bytes (write_failed (mv_path dir m.name))
        d ended (has_slash-mv_name m.name flat.0) open_.there.0 open_)
      (λ e o. write_bytecode-Succeeds dir dirs modules e ended flat.1 o)

pub write_encoded-Succeeds :
    (dirs : List Bytes) (dir name : Bytes) (encoded : Result Bytes Bytes) (what why : Bytes)
    (d : Disk) {bytes : Bytes}
    → IsOpenEnded dir
    → has_slash name ≡ false
    → d.is_dir dir ≡ true
    → encoded ≡ ok bytes
    → IsOpen dirs d
    → Succeeds (IsOpen dirs) (write_encoded (join dir name) encoded what why) d
unfolding write_encoded
write_encoded-Succeeds dirs dir name encoded what why d {bytes} ended flat there coded open_ =
    let (e, done, p) = write-Succeeds dirs dir name bytes (failed why) d ended flat there open_ in
    (
      e,
      ap
            (λ (r : Result Bytes Bytes).
              and_then (fail_as (failed what) r)
                (λ (b : Bytes). failing_as (failed why) (write (join dir name) b)) d)
            coded
          ∙ done,
      p,
    )

pub create_dir_all-Succeeds :
    (dir : Bytes) (dirs : List Bytes) (f : Bytes → BuildError) (d : Disk)
    → All (λ above. is_above above dir ≡ true) dirs
    → ((path : Bytes) → d.refuse path ≡ none)
    → Succeeds (IsOpen dirs) (failing_as f (create_dir_all dir)) d
create_dir_all-Succeeds dir dirs f d above allowed = (
  _,
  ap (λ (r : Result Bytes (Unit {0}) × Disk). (fail_as f r.0, r.1))
      (create_dir_all_ok dir d (allowed dir)),
  record { allowed = allowed; there = All-map (λ q h. ground (arith, h)) dirs above },
)
