-- ===== src/Sandbox/Mounts/Added.antt =====
-- `AddAncestorMounts` appends, and what it appends is new and grants metadata only.
use temenos.Base.{
  ◌≡◌, false, List, [], ◌∷◌, ◌++◌, map, Bytes, elem, append_assoc, append-nil, Bool-cases, ap, inl,
  inr,
}
use mathlib.Core.List.{map-append}
use temenos.FilePath.Shorter.{is_top}
use temenos.Sandbox.Mounts.{Mount, source_of, ancestor_mount, scan_mounts, add_ancestor_mounts}
use temenos.Sandbox.Mounts.Ancestors.{Climb, at_top, at_known, up, climb_dirs_ends}

-- Each directory is neither the root nor the dot, and differs from the known ones and from those
-- in front of it.
abbrev pub AreFresh : List Bytes → List Bytes → Type 0
AreFresh known [] = Unit
AreFresh known (d ∷ ds) =
    (is_top d ≡ false) × (elem d known ≡ false) × AreFresh (known ++ d ∷ []) ds

AreFresh-append :
    (known xs ys : List Bytes)
    → AreFresh known xs
    → AreFresh (known ++ xs) ys
    → AreFresh known (xs ++ ys)
AreFresh-append known [] ys h k = rw append-nil at k
AreFresh-append known (x ∷ xs) ys (t, e, h) k =
    (t, e, AreFresh-append (known ++ x ∷ []) xs ys h (rw (append_assoc known (x ∷ []) xs) k))

Climb-AreFresh :
    {known : List Bytes} {d : Bytes} {added : List Bytes}
    → Climb known d added
    → AreFresh known added
Climb-AreFresh (at_top t) = tt
Climb-AreFresh (at_known t k) = tt
Climb-AreFresh (up t k way) = (t, k, Climb-AreFresh way)

scan_mounts-AreFresh :
    (ps : List Mount) (known : List Bytes) (mounts : List Mount)
    → (added : List Bytes) × AreFresh known added
      × (scan_mounts ps (known, mounts) ≡ (known ++ added, mounts ++ map ancestor_mount added))
unfolding scan_mounts
scan_mounts-AreFresh [] known mounts = ([], tt, simp append-nil)
scan_mounts-AreFresh (m ∷ ps) known mounts = elim (Bool-cases m.metadata_only) [
  | inl skip ↦ rw skip (scan_mounts-AreFresh ps known mounts)
  | inr grant ↦
      let (ds, way, same) = climb_dirs_ends m.source known mounts in
      let (es, fresh, rest) =
        scan_mounts-AreFresh ps (known ++ ds) (mounts ++ map ancestor_mount ds) in
      (
        ds ++ es,
        AreFresh-append known ds es (Climb-AreFresh way) fresh,
        rw (grant, same, rest) (simp (append_assoc, map-append)),
      )
]

-- The mounts given come first and unchanged. What follows are metadata-only mounts of a directory
-- onto itself, none of them the root or the dot, none the source of a mount given, and no two alike.
pub add_ancestor_mounts-AreFresh :
    (mounts : List Mount)
    → (added : List Bytes) × (add_ancestor_mounts mounts ≡ mounts ++ map ancestor_mount added)
      × AreFresh (map source_of mounts) added
unfolding add_ancestor_mounts
add_ancestor_mounts-AreFresh mounts =
    let (added, fresh, same) = scan_mounts-AreFresh mounts (map source_of mounts) mounts in
    (added, ap (λ (s : List Bytes × List Mount). s.1) same, fresh)
