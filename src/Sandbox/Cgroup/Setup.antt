-- ===== src/Sandbox/Cgroup/Setup.antt =====
-- sandbox/cgroup_k8s.go, sandbox/status.go: what the diagnosis finds after the set-up of cgroup v2.
use mathlib.Core.Path.{subst}
use temenos.Base.{
  ℕ, zero, suc, split_on, ◌≡◌, refl, sym, ap, ◌∙◌, ◌≢◌, Bool, true, false, ◌||◌, Option, none, some,
  List, [], ◌∷◌, ◌++◌, Bytes, codes, bytes_eq, bytes_eq_iff, has_suffix, trim_space, cut_prefix,
  All, All-append, arith, append_assoc, Bool-cases, inl, inr, ◌⊎◌, append-nil,
}
use temenos.FilePath.{slash, print, join_path, is_abs, resolve}
use temenos.FilePath.Shorter.{parts_of}
use temenos.FilePath.Clean.{NoSlash}
use temenos.FilePath.Absolute.{IsPlain, parts_of-IsPlain}
use temenos.Sandbox.Cgroup.{
  Kernel, SetupError, cgroup_root, self_cgroup_file, delegated_path, discover_delegated_path_at,
  enable_attempts, enable_memory_controller, made_dir, Errno, wrote_pid, with_base, migrated,
  and_then, migrate, run_init_leaf_at,
}
use temenos.Sandbox.Cgroup.Paths.{
  join_path-print, join_path-root, has_suffix-slash, has_suffix-append,
}

-- The directory of a cgroup, below the mount.
abbrev pub below : List Bytes → Bytes
below [] = []
below (p ∷ ps) = slash ∷ p ++ below ps

abbrev pub init : Bytes
init = codes "init"

-- What the kernel documents of the cgroup v2 file system, as the process 1 of a pod sees it: `home` is
-- the cgroup that the process is in, which the two files under /proc name, and which changes when the
-- process writes its number to a `cgroup.procs` and does not when it enables
-- a controller. A cgroup has the controllers that its parent has delegated.
pub record IsCgroupFs (K : Kernel) : Type 0 where
  pub home : K.State → List Bytes
  pub plain : (s : K.State) → All IsPlain (home s)
  pub self : (s : K.State) → K.scan s self_cgroup_file ≡ some (codes "0::" ++ print true (home s))
  pub first :
      (s : K.State)
      → K.read s (codes "/proc/1/cgroup") ≡ some (codes "0::" ++ print true (home s) ++ codes "\n")
  pub solid :
      (s : K.State)
      → trim_space (codes "0::" ++ print true (home s) ++ codes "\n")
        ≡ codes "0::" ++ print true (home s)
  pub move :
      (s : K.State) (d : List Bytes)
      → All IsPlain d
      → (K.write s (cgroup_root ++ below d ++ codes "/cgroup.procs") K.pid).1 ≡ none
      → home ((K.write s (cgroup_root ++ below d ++ codes "/cgroup.procs") K.pid).0) ≡ d
  pub stay_write :
      (s : K.State) (file : Bytes) → home ((K.write s file (codes "+memory")).0) ≡ home s
  pub delegated :
      (s : K.State) (d : List Bytes) (q text : Bytes)
      → All IsPlain d
      → IsPlain q
      → K.read s (cgroup_root ++ below (d ++ q ∷ []) ++ codes "/cgroup.controllers") ≡ some text
      → K.read s (cgroup_root ++ below d ++ codes "/cgroup.subtree_control") ≡ some text

pub print-below : (p : Bytes) (ps : List Bytes) → print true (p ∷ ps) ≡ below (p ∷ ps)
unfolding print
print-below p [] = ap (λ s. slash ∷ s) (sym (append-nil p))
print-below p (q ∷ ps) = ap (λ s. slash ∷ p ++ s) (print-below q ps)

join_path-home :
    (d : List Bytes)
    → All IsPlain d
    → join_path (cgroup_root ∷ print true d ∷ []) ≡ cgroup_root ++ below d
unfolding cgroup_root join_path
join_path-home [] h = refl
join_path-home (p ∷ ps) h = join_path-root p ps h ∙ ap (λ s. cgroup_root ++ s) (print-below p ps)

pub below-append : (d : List Bytes) (q : Bytes) → below (d ++ q ∷ []) ≡ below d ++ slash ∷ q
below-append [] q = ap (λ s. slash ∷ s) (append-nil q)
below-append (p ∷ d) q = simp (below-append d q, append_assoc)

root-IsPlain : All IsPlain (codes "sys" ∷ codes "fs" ∷ codes "cgroup" ∷ [])
unfolding parts_of is_abs resolve split_on
root-IsPlain = parts_of-IsPlain (codes "/sys/fs/cgroup") refl

pub init-IsPlain : IsPlain init
unfolding parts_of is_abs resolve split_on
init-IsPlain = (parts_of-IsPlain (codes "/init") refl).0

pub controllers-IsPlain : IsPlain (codes "cgroup.controllers")
unfolding parts_of is_abs resolve split_on
controllers-IsPlain = (parts_of-IsPlain (codes "/cgroup.controllers") refl).0

procs-IsPlain : IsPlain (codes "cgroup.procs")
unfolding parts_of is_abs resolve split_on
procs-IsPlain = (parts_of-IsPlain (codes "/cgroup.procs") refl).0

pub join_path-below :
    (d : List Bytes) (q : Bytes)
    → All IsPlain d
    → IsPlain q
    → join_path ((cgroup_root ++ below d) ∷ q ∷ []) ≡ cgroup_root ++ below d ++ slash ∷ q
unfolding cgroup_root
join_path-below d q h k =
    ap (λ s. join_path (s ∷ q ∷ []))
      (sym (print-below (codes "sys") (codes "fs" ∷ codes "cgroup" ∷ d)))
    ∙ (join_path-print (codes "sys") (codes "fs" ∷ codes "cgroup" ∷ d) q
          (All-append IsPlain (codes "sys" ∷ codes "fs" ∷ codes "cgroup" ∷ []) d root-IsPlain h) k
        ∙ ap (λ s. s ++ slash ∷ q) (print-below (codes "sys") (codes "fs" ∷ codes "cgroup" ∷ d)))

-- The last component.
last : (ps : List Bytes) → (ps ≡ []) ⊎ ((d : List Bytes) × (q : Bytes) × (ps ≡ d ++ q ∷ []))
last [] = inl refl
last (p ∷ ps) = elim (last ps) [
  | inl none_left ↦ inr ([], p, ap (λ qs. p ∷ qs) none_left)
  | inr (d, q, split) ↦ inr (p ∷ d, q, ap (λ qs. p ∷ qs) split)
]

All-last : (d : List Bytes) (q : Bytes) → All IsPlain (d ++ q ∷ []) → IsPlain q
All-last [] q h = h.0
All-last (p ∷ d) q h = All-last d q h.1

has_suffix-NoSlash : (p q : Bytes) → NoSlash q → has_suffix (slash ∷ p) q ≡ false
unfolding has_suffix bytes_eq
has_suffix-NoSlash p [] h = refl
has_suffix-NoSlash p (c ∷ q) h = ground (arith, has_suffix-NoSlash p q h.1)

has_suffix-init : (q : Bytes) → NoSlash q → has_suffix (slash ∷ init) (slash ∷ q) ≡ true → q ≡ init
unfolding has_suffix
has_suffix-init q h k = elim (Bool-cases (bytes_eq (slash ∷ init) (slash ∷ q))) [
  | inl whole ↦ sym (ground (arith, (bytes_eq_iff (slash ∷ init) (slash ∷ q)).0 whole))
  | inr part ↦ absurd (ground (arith, has_suffix-NoSlash init q h))
]

-- A cgroup below a directory that ends in /init.
root-not_init : has_suffix (slash ∷ init) (cgroup_root ++ []) ≢ true
unfolding cgroup_root has_suffix bytes_eq
root-not_init h = ground (arith, h)

already-init :
    (h : List Bytes)
    → All IsPlain h
    → has_suffix (slash ∷ init) (cgroup_root ++ below h) ≡ true
    → (d : List Bytes) × (h ≡ d ++ init ∷ [])
unfolding cgroup_root
already-init h plain k = elim (last h) [
  | inl none_left ↦ absurd (
      root-not_init
        (sym (ap (λ ps. has_suffix (slash ∷ init) (cgroup_root ++ below ps)) none_left) ∙ k))
  | inr (d, q, split) ↦
      let parts : All IsPlain (d ++ q ∷ []) = subst (All IsPlain) split plain in
      let path : cgroup_root ++ below h ≡ (cgroup_root ++ below d) ++ slash ∷ q =
        ap (λ ps. cgroup_root ++ below ps) split ∙ ap (λ s. cgroup_root ++ s) (below-append d q) in
      let is_init : q ≡ init = has_suffix-init q (All-last d q parts).1 (
        sym (has_suffix-slash init (cgroup_root ++ below d) q init-IsPlain.1)
        ∙ (sym (ap (has_suffix (slash ∷ init)) path) ∙ k)) in
      (d, split ∙ ap (λ q. d ++ q ∷ []) is_init)
]

suffix-either :
    (dir : Bytes)
    → has_suffix (slash ∷ init) dir || bytes_eq dir (cgroup_root ++ slash ∷ init) ≡ true
    → has_suffix (slash ∷ init) dir ≡ true
suffix-either dir h = elim (Bool-cases (bytes_eq dir (cgroup_root ++ slash ∷ init))) [
  | inl same ↦
      ap (has_suffix (slash ∷ init)) ((bytes_eq_iff dir (cgroup_root ++ slash ∷ init)).0 same)
      ∙ has_suffix-append cgroup_root (slash ∷ init)
  | inr differs ↦ ground (arith, h, differs)
]

-- The discovery finds the directory of `home`.
module _ (K : Kernel) (fs : IsCgroupFs K) where
  pub discover-home :
      (s : K.State)
      → discover_delegated_path_at K s self_cgroup_file cgroup_root
        ≡ some (cgroup_root ++ below (fs.home s))
  unfolding discover_delegated_path_at delegated_path cut_prefix
  discover-home s =
      ap (delegated_path cgroup_root) (fs.self s)
      ∙ ap some (join_path-home (fs.home s) (fs.plain s))

  -- The steps of the migration.
  enable-home :
      (n : ℕ) (file : Bytes) (s : K.State) → fs.home ((enable_attempts K n file s).0) ≡ fs.home s
  unfolding enable_attempts
  enable-home zero file s = refl
  enable-home (suc n) file s =
      ground (arith, fs.stay_write s file, enable-home n file (K.write s file (codes "+memory")).0)

  wrote_pid-none :
      (w : K.State × Option Errno)
      → (wrote_pid K w).1 ≡ none
      → (w.1 ≡ none) × ((wrote_pid K w).0 ≡ w.0)
  wrote_pid-none (s, none) h = (refl, refl)
  wrote_pid-none (s, some e) h = ground arith

  migrated-home :
      (s : K.State) (d : List Bytes)
      → All IsPlain d
      → (migrated K (cgroup_root ++ below d) s).1 ≡ none
      → fs.home ((migrated K (cgroup_root ++ below d) s).0) ≡ d
  unfolding migrated cgroup_root
  migrated-home s d h =
      let wrote : K.State × Option Errno =
        K.write s (cgroup_root ++ below d ++ codes "/cgroup.procs") K.pid in
      rw (migrated, join_path-below d (codes "cgroup.procs") h procs-IsPlain)
        (λ k. let (done, is) = wrote_pid-none wrote k in ap fs.home is ∙ fs.move s d h done)

  and_then-none :
      (m : K.State × Option SetupError) (f : K.State → K.State × Option SetupError)
      → (and_then K m f).1 ≡ none
      → (m.1 ≡ none) × (and_then K m f ≡ f m.0)
  and_then-none (s, none) f h = (refl, refl)
  and_then-none (s, some e) f h = ground arith

  migrate-home :
      (s : K.State)
      → (migrate K (cgroup_root ++ below (fs.home s)) s).1 ≡ none
      → fs.home ((migrate K (cgroup_root ++ below (fs.home s)) s).0) ≡ fs.home s ++ init ∷ []
  unfolding migrate enable_memory_controller cgroup_root
  migrate-home s =
      let d : List Bytes = fs.home s ++ init ∷ [] in
      let d-IsPlain : All IsPlain d =
        All-append IsPlain (fs.home s) (init ∷ []) (fs.plain s) (init-IsPlain, tt) in
      let dir : join_path ((cgroup_root ++ below (fs.home s)) ∷ init ∷ [])
          ≡ cgroup_root ++ below d =
        join_path-below (fs.home s) init (fs.plain s) init-IsPlain
        ∙ sym (ap (λ s. cgroup_root ++ s) (below-append (fs.home s) init)) in
      rw dir (λ h.
        let made = made_dir K (cgroup_root ++ below d) s in
        let to_init = and_then K made (migrated K (cgroup_root ++ below d)) in
        let (both, is) =
          and_then-none to_init (enable_memory_controller K (cgroup_root ++ below (fs.home s))) h in
        let (one, moved) = and_then-none made (migrated K (cgroup_root ++ below d)) both in
        ap (λ m. fs.home m.0) is
        ∙ (enable-home 2
              (join_path ((cgroup_root ++ below (fs.home s)) ∷ codes "cgroup.subtree_control" ∷ []))
              to_init.0
            ∙ (ap (λ m. fs.home m.0) moved
                ∙ migrated-home made.0 d d-IsPlain (sym (ap (λ m. m.1) moved) ∙ both))))

  with_base-none :
      (base : Bytes) (m : K.State × Option SetupError)
      → (with_base K base m).1 ≡ none
      → (m.1 ≡ none) × ((with_base K base m).0 ≡ m.0)
  with_base-none base (s, none) h = (refl, refl)
  with_base-none base (s, some e) h = ground arith

  pub settled :
      (s : K.State)
      → (run_init_leaf_at K cgroup_root self_cgroup_file s).1 ≡ none
      → (d : List Bytes) × (fs.home ((run_init_leaf_at K cgroup_root self_cgroup_file s).0)
          ≡ d ++ init ∷ [])
  unfolding run_init_leaf_at
  settled s =
      let mounted : Bool =
        K.is_there s (join_path (cgroup_root ∷ codes "cgroup.controllers" ∷ [])) in
      let dir : Bytes = cgroup_root ++ below (fs.home s) in
      let there : Bool =
        has_suffix (slash ∷ init) dir || bytes_eq dir (cgroup_root ++ slash ∷ init) in
      elim (Bool-cases mounted) [
        | inl m ↦ elim (Bool-cases there) [
          | inl t ↦
              rw (run_init_leaf_at, m, discover-home s, t)
                (λ h. already-init (fs.home s) (fs.plain s) (suffix-either dir t))
          | inr t ↦
              rw (run_init_leaf_at, m, discover-home s, t)
                (λ h.
                  let (done, is) = with_base-none dir (migrate K dir s) h in
                  (fs.home s, ap fs.home is ∙ migrate-home s done))
        ]
        | inr m ↦ rw (run_init_leaf_at, m) (λ h. ground arith)
      ]
