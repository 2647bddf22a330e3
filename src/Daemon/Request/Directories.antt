-- ===== src/Daemon/Request/Directories.antt =====
-- internal/daemon/handler.go: what a request mounts.
use temenos.Base.{
  ◌≡◌, refl, ap, ◌∙◌, true, false, inl, inr, List, [], ◌∷◌, ◌++◌, map, Bytes, All, Result, ok, err,
  Result-cases, Bool-cases, append_assoc, append-nil, arith,
}
use temenos.FilePath.{clean, is_abs}
use temenos.FilePath.Absolute.{IsPlain, parts_of-IsPlain, is_abs-clean, clean_idem}
use temenos.FilePath.Shorter.{parts_of}
use temenos.Sandbox.Mounts.{Mount, source_of, ancestor_mount, add_ancestor_mounts}
use temenos.Sandbox.Mounts.Added.{AreFresh, add_ancestor_mounts-AreFresh}
use temenos.Daemon.Request.{
  AllowedPath, RequestError, validation, validate_path, append_paths, build_mounts,
}

abbrev pub IsAbsolute : AllowedPath → Type 0
IsAbsolute p = is_abs p.path ≡ true

-- The mount of one path of the request.
abbrev pub mount_of : AllowedPath → Mount
mount_of p = record {
  source = clean p.path;
  target = clean p.path;
  read_only = p.read_only;
  metadata_only = p.metadata_only;
}

validate_path_abs : (p : Bytes) → is_abs p ≡ true → validate_path p ≡ ok tt
unfolding validate_path
validate_path_abs p h = rw (is_abs-clean p, h) refl

validate_path_relative : (p : Bytes) → is_abs p ≡ false → validate_path p ≡ err (validation p)
unfolding validate_path
validate_path_relative p h = rw (is_abs-clean p, h) refl

append_paths-ok :
    (mounts : List Mount) (paths : List AllowedPath)
    → All IsAbsolute paths
    → append_paths mounts paths ≡ ok (mounts ++ map mount_of paths)
unfolding append_paths
append_paths-ok mounts [] h = simp append-nil
append_paths-ok mounts (p ∷ paths) (a, h) =
    rw (append_paths, validate_path_abs p.path a)
      (append_paths-ok (mounts ++ mount_of p ∷ []) paths h
        ∙ ap (λ l. ok l) (append_assoc mounts (mount_of p ∷ []) (map mount_of paths)))

append_paths-IsAbsolute :
    (mounts : List Mount) (paths : List AllowedPath) (out : List Mount)
    → append_paths mounts paths ≡ ok out
    → All IsAbsolute paths
unfolding append_paths
append_paths-IsAbsolute mounts [] out h = tt
append_paths-IsAbsolute mounts (p ∷ paths) out h = elim (Bool-cases (is_abs p.path)) [
  | inl a ↦ (
    a,
    append_paths-IsAbsolute (mounts ++ mount_of p ∷ []) paths out
        (rw (append_paths, validate_path_abs p.path a) at h),
  )
  | inr relative ↦
      let no : ◌≡◌ {A = Result RequestError (List Mount)} (err (validation p.path)) (ok out) =
        rw (append_paths, validate_path_relative p.path relative) at h in
      cc
]

-- A path that is absolute, of whose components none is empty, a dot or two dots, and that cleaning
-- does not change.
abbrev pub IsSettled : Mount → Type 0
IsSettled m =
    (is_abs m.source ≡ true) × All IsPlain (parts_of m.source) × (clean m.source ≡ m.source)

All-IsSettled :
    (paths : List AllowedPath) → All IsAbsolute paths → All IsSettled (map mount_of paths)
All-IsSettled [] h = tt
All-IsSettled (p ∷ paths) (a, h) = (
  (
    is_abs-clean p.path ∙ a,
    parts_of-IsPlain (clean p.path) (is_abs-clean p.path ∙ a),
    clean_idem p.path a,
  ),
  All-IsSettled paths h,
)

module _ (baseline : List Mount) (paths : List AllowedPath) where
  -- Absolute paths are accepted, whatever they look like.
  pub build_mounts_made :
      All IsAbsolute paths
      → build_mounts baseline paths ≡ ok (add_ancestor_mounts (baseline ++ map mount_of paths))
  unfolding build_mounts
  build_mounts_made h = rw (build_mounts, append_paths-ok baseline paths h) refl

  build_mounts-IsAbsolute :
      (out : List Mount) → build_mounts baseline paths ≡ ok out → All IsAbsolute paths
  unfolding build_mounts
  build_mounts-IsAbsolute out e = elim (Result-cases (append_paths baseline paths)) [
    | inl (mounts, made) ↦ append_paths-IsAbsolute baseline paths mounts made
    | inr (wrong, failed) ↦ ground arith
  ]

  same_result :
      (out other : List Mount)
      → build_mounts baseline paths ≡ ok out
      → build_mounts baseline paths ≡ ok other
      → out ≡ other
  same_result out other e f = cc

-- If `buildMounts` succeeds, every path of the request is absolute. It then gives the mounts of the
-- configuration first, one mount per path next, in the order of the request, each of a clean absolute
-- path without dots onto itself, and after them fresh metadata-only mounts of directories.
pub build_mounts_lem :
    (baseline : List Mount) (paths : List AllowedPath) (out : List Mount)
    → build_mounts baseline paths ≡ ok out
    → All IsAbsolute paths
      × All IsSettled (map mount_of paths)
      × (added : List Bytes) × (out ≡ (baseline ++ map mount_of paths) ++ map ancestor_mount added)
      × AreFresh (map source_of (baseline ++ map mount_of paths)) added
build_mounts_lem baseline paths out e =
    let a = build_mounts-IsAbsolute baseline paths out e in
    let (added, same, fresh) = add_ancestor_mounts-AreFresh (baseline ++ map mount_of paths) in
    let made = build_mounts_made baseline paths a in
    (
      a,
      All-IsSettled paths a,
      added,
      same_result baseline paths out (add_ancestor_mounts (baseline ++ map mount_of paths)) e made
          ∙ same,
      fresh,
    )
