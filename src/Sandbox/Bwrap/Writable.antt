-- ===== src/Sandbox/Bwrap/Writable.antt =====
-- sandbox/bwrap.go: which parts of the host a command can write to.
use mathlib.Core.List.Memᴰ
use temenos.Base.{
  ◌≡◌, refl, sym, ap, ◌∙◌, inl, inr, Bool, true, false, List, [], ◌∷◌, map, Bytes, codes, bytes_eq,
  All, All-mem, Memᴰ, Bool-cases, arith,
}
use temenos.Sandbox.Config.{Host}
use temenos.Sandbox.Mounts.{Mount}
use temenos.Sandbox.ToolPaths.{is_present}
use temenos.Daemon.Request.{ExecConfig}
use temenos.Sandbox.Bwrap.Reading.{Operation}
use temenos.Sandbox.Bwrap.Operations.{
  read_write_bind, self_bind, base_operations, mount_operation, shown_mounts, chdir_operations,
  operations,
}

abbrev pub is_write : Operation → Bool
is_write op = bytes_eq op.option (codes "--bind")

-- The mount that an operation came from, which wants to be written to and is on the disk.
abbrev pub IsWrite : Host → List Mount → Operation → Type 0
IsWrite host ms op =
    (m : Mount) × Memᴰ m ms
    × (m.read_only ≡ false)
    × (m.metadata_only ≡ false)
    × (is_present (host.stat m.source) ≡ true)
    × (op ≡ read_write_bind m.source m.target)

pub Memᴰ-map {ℓ κ} :
    {A : Type ℓ} {B : Type κ} (f : A → B) (b : B) (xs : List A)
    → Memᴰ b (map f xs)
    → (a : A) × Memᴰ a xs × (b ≡ f a)
Memᴰ-map f b [] m = elim m [ ]
Memᴰ-map f b (x ∷ xs) (Memᴰ.head e) = (x, Memᴰ.head refl, e)
Memᴰ-map f b (x ∷ xs) (Memᴰ.tail m) = let (a, n, e) = Memᴰ-map f b xs m in (a, Memᴰ.tail n, e)

base-reads : (k : Bool) → All (λ op. is_write op ≡ false) (base_operations k)
unfolding bytes_eq
base-reads true = ground arith
base-reads false = ground arith

binds-read : (dirs : List Bytes) → All (λ op. is_write op ≡ false) (map self_bind dirs)
unfolding bytes_eq
binds-read [] = tt
binds-read (d ∷ dirs) = (refl, binds-read dirs)

chdir-reads : (dir : Bytes) → All (λ op. is_write op ≡ false) (chdir_operations dir)
unfolding bytes_eq
chdir-reads [] = tt
chdir-reads (c ∷ dir) = (refl, tt)

not_written :
    {op : Operation} {ops : List Operation}
    → All (λ o. is_write o ≡ false) ops
    → Memᴰ op ops
    → is_write op ≡ true
    → ⊥
not_written {op} all m h = let no = All-mem (λ o. is_write o ≡ false) m all in cc

IsWrite-more :
    (host : Host) (m : Mount) (ms : List Mount) (op : Operation)
    → IsWrite host ms op
    → IsWrite host (m ∷ ms) op
IsWrite-more host m ms op (n, given, rest, e, p, same) = (n, Memᴰ.tail given, rest, e, p, same)

is_write-read : (m : Mount) → m.read_only ≡ true → is_write (mount_operation m) ≡ false
unfolding bytes_eq
is_write-read m reads = rw reads refl

as_written :
    (m : Mount) (op : Operation)
    → op ≡ mount_operation m
    → is_write op ≡ true
    → (m.read_only ≡ false) × (op ≡ read_write_bind m.source m.target)
unfolding bytes_eq
as_written m op e h = elim (Bool-cases m.read_only) [
  | inl reads ↦ let no = sym h ∙ (ap is_write e ∙ is_write-read m reads) in cc
  | inr writes ↦ (writes, rw writes at e)
]

mount_operation-IsWrite :
    (host : Host) (ms : List Mount) (op : Operation)
    → Memᴰ op (map mount_operation (shown_mounts host ms))
    → is_write op ≡ true
    → IsWrite host ms op
unfolding bytes_eq
mount_operation-IsWrite host [] op m h = elim m [ ]
mount_operation-IsWrite host (x ∷ ms) op m h = elim (Bool-cases x.metadata_only) [
  | inl hidden ↦ IsWrite-more host x ms op (mount_operation-IsWrite host ms op (rw hidden at m) h)
  | inr grant ↦ elim (Bool-cases (is_present (host.stat x.source))) [
    | inr missing ↦
        IsWrite-more host x ms op (mount_operation-IsWrite host ms op (rw (grant, missing) at m) h)
    | inl there ↦ elim (Memᴰ.cases_cons (rw (grant, there) at m)) [
      | inr later ↦ IsWrite-more host x ms op (mount_operation-IsWrite host ms op later h)
      | inl this ↦
          let (writes, same) = as_written x op this h in
          (x, Memᴰ.head refl, writes, grant, there, same)
    ]
  ]
]

-- Every bind for writing is that of a mount that is not read-only, not metadata-only, and on the disk.
pub operations-IsWrite :
    (host : Host) (k : Bool) (dirs : List Bytes) (cfg : ExecConfig) (op : Operation)
    → Memᴰ op (operations host k dirs cfg)
    → is_write op ≡ true
    → IsWrite host cfg.mount_dirs op
operations-IsWrite host k dirs cfg op m h = elim (Memᴰ.append_cases (base_operations k) m) [
  | inl base ↦ absurd (not_written (base-reads k) base h)
  | inr behind ↦ elim (Memᴰ.append_cases (map self_bind dirs) behind) [
    | inl bind ↦ absurd (not_written (binds-read dirs) bind h)
    | inr rest ↦
        elim (Memᴰ.append_cases (map mount_operation (shown_mounts host cfg.mount_dirs)) rest) [
          | inl mount ↦ mount_operation-IsWrite host cfg.mount_dirs op mount h
          | inr chdir ↦ absurd (not_written (chdir-reads cfg.working_dir) chdir h)
        ]
  ]
]
