-- ===== src/Sandbox/Mounts/Parents.antt =====
-- The parent directories of what is mounted are mounted too.
use temenos.Base.{
  ◌≡◌, refl, ◌⊎◌, inl, inr, Bool, true, ◌&&◌, List, [], ◌∷◌, ◌++◌, map, Bytes, bytes_eq,
  bytes_eq_iff, bytes_eq_refl, elem, elem-append, any, arith, append_assoc, append-nil, Bool-cases,
  ap, sym, Memᴰ,
}
use mathlib.Core.Path.{subst}
use mathlib.Core.List.{map-append}
use temenos.FilePath.{dir}
use temenos.FilePath.Shorter.{is_top}
use temenos.Sandbox.Mounts.{Mount, source_of, ancestor_mount, scan_mounts, add_ancestor_mounts}
use temenos.Sandbox.Mounts.Ancestors.{
  Climb, at_top, at_known, up, climb_dirs_ends, scan_mounts-skip, scan_mounts-climb,
}

-- The directory is the source of a metadata-only mount of the list.
unfoldable pub is_explicit : Bytes → List Mount → Bool
is_explicit d mounts = any (λ m. m.metadata_only && bytes_eq m.source d) mounts

-- The parent is at the top, or known.
abbrev pub HasParent : Bytes → List Bytes → Type 0
HasParent d known = (is_top (dir d) ≡ true) ⊎ (elem (dir d) known ≡ true)

HasParent-append :
    (d : Bytes) (known more : List Bytes) → HasParent d known → HasParent d (known ++ more)
HasParent-append d known more h = ground (arith, elem-append (dir d) known more)

elem-middle : (d : Bytes) (known more : List Bytes) → elem d (known ++ d ∷ more) ≡ true
unfolding elem
elem-middle d [] more = ground (arith, bytes_eq_refl d)
elem-middle d (k ∷ known) more = ground (arith, elem-middle d known more)

elem-cons : (e d : Bytes) (ds : List Bytes) → elem e (d ∷ ds) ≡ true → (d ≡ e) ⊎ (elem e ds ≡ true)
unfolding elem
elem-cons e d ds h = ground (arith, bytes_eq_iff d e)

-- What a way up adds has its parents, and so has the directory below its start.
Climb-HasParent :
    {known : List Bytes} {d : Bytes} {added : List Bytes}
    → Climb known d added
    → ((is_top d ≡ true) ⊎ (elem d (known ++ added) ≡ true))
      × ((e : Bytes) → elem e added ≡ true → HasParent e (known ++ added))
Climb-HasParent (at_top t) = (inl t, λ e h. unfold elem in cc)
Climb-HasParent (at_known {known} t k) = (inr (rw append-nil k), λ e h. unfold elem in cc)
Climb-HasParent (up {known} {d} {added} t k way) =
    let (first, others) = Climb-HasParent way in
    (
      inr (elem-middle d known added),
      λ e h. elim (elem-cons e d added h) [
        | inl same ↦
            subst (λ x. HasParent x (known ++ d ∷ added)) same
              (rw (append_assoc known (d ∷ []) added) at first)
        | inr later ↦ rw (append_assoc known (d ∷ []) added) at (others e later)
      ],
    )

-- The state between two rounds of the outer loop: what is known and is not one of the mounts to
-- come has its parents, unless a metadata-only mount of the list `all` names it.
abbrev Settled : List Mount → List Mount → List Bytes → Type 0
Settled all pending known =
    (d : Bytes)
    → elem d known ≡ true
    → (elem d (map source_of pending) ≡ true) ⊎ (is_explicit d all ≡ true) ⊎ HasParent d known

any-mem :
    (m : Mount) (all : List Mount)
    → Memᴰ m all
    → m.metadata_only ≡ true
    → is_explicit m.source all ≡ true
unfolding is_explicit
any-mem m [] l h = elim l [ ]
any-mem m (n ∷ all) (Memᴰ.head e) h = rw (← e) (ground (arith, bytes_eq_refl m.source))
any-mem m (n ∷ all) (Memᴰ.tail l) h = ground (arith, any-mem m all l h)

source_of-ancestor_mount : (added : List Bytes) → map source_of (map ancestor_mount added) ≡ added
source_of-ancestor_mount [] = refl
source_of-ancestor_mount (d ∷ added) = ap (λ l. d ∷ l) (source_of-ancestor_mount added)

sources_of-append :
    (known : List Bytes) (mounts : List Mount) (added : List Bytes)
    → known ≡ map source_of mounts
    → known ++ added ≡ map source_of (mounts ++ map ancestor_mount added)
sources_of-append known mounts added same = rw (map-append, source_of-ancestor_mount, same)

module _ (all : List Mount) where
  Settled-skip :
      (m : Mount) (ps : List Mount) (known : List Bytes)
      → is_explicit m.source all ≡ true
      → Settled all (m ∷ ps) known
      → Settled all ps known
  Settled-skip m ps known x h d k = elim (h d k) [
    | inl p ↦ elim (elem-cons d m.source (map source_of ps) p) [
      | inl same ↦ inr (inl (subst (λ s. is_explicit s all ≡ true) same x))
      | inr later ↦ inl later
    ]
    | inr r ↦ inr r
  ]

  Settled-Climb :
      (m : Mount) (ps : List Mount) (known added : List Bytes)
      → Climb known (dir m.source) added
      → Settled all (m ∷ ps) known
      → Settled all ps (known ++ added)
  Settled-Climb m ps known added way h d k =
      let (first, others) = Climb-HasParent way in
      elim (Bool-cases (elem d known)) [
        | inl old ↦ elim (h d old) [
          | inl p ↦ elim (elem-cons d m.source (map source_of ps) p) [
            | inl same ↦ inr (inr (subst (λ x. HasParent x (known ++ added)) same first))
            | inr later ↦ inl later
          ]
          | inr (inl x) ↦ inr (inl x)
          | inr (inr p) ↦ inr (inr (HasParent-append d known added p))
        ]
        | inr new ↦ inr (inr (others d (ground (arith, elem-append d known added))))
      ]

  abbrev IsDone : List Bytes × List Mount → Type 0
  IsDone state = (state.0 ≡ map source_of state.1) × Settled all [] state.0

  scan_mounts-Settled :
      (ps : List Mount) (known : List Bytes) (mounts : List Mount)
      → ((m : Mount) → Memᴰ m ps → Memᴰ m all)
      → known ≡ map source_of mounts
      → Settled all ps known
      → IsDone (scan_mounts ps (known, mounts))
  unfolding scan_mounts
  scan_mounts-Settled [] known mounts sub same h = (same, h)
  scan_mounts-Settled (m ∷ ps) known mounts sub same h = elim (Bool-cases m.metadata_only) [
    | inl skip ↦ subst IsDone (sym (scan_mounts-skip m ps (known, mounts) skip)) (
        scan_mounts-Settled ps known mounts (λ n l. sub n (Memᴰ.tail l)) same
          (Settled-skip m ps known (any-mem m all (sub m (Memᴰ.head refl)) skip) h))
    | inr grant ↦
        let (added, way, end) = climb_dirs_ends m.source known mounts in
        subst IsDone (sym (scan_mounts-climb m ps (known, mounts) _ grant end)) (
          scan_mounts-Settled ps (known ++ added) (mounts ++ map ancestor_mount added)
            (λ n l. sub n (Memᴰ.tail l)) (sources_of-append known mounts added same)
            (Settled-Climb m ps known added way h))
  ]

-- For each source mounted in the end, the parent directory is the root, the dot or the source of
-- another mount, unless a metadata-only mount that was given names the source itself.
pub add_ancestor_mounts-HasParent :
    (mounts : List Mount) (d : Bytes)
    → elem d (map source_of (add_ancestor_mounts mounts)) ≡ true
    → (is_explicit d mounts ≡ true) ⊎ HasParent d (map source_of (add_ancestor_mounts mounts))
unfolding add_ancestor_mounts
add_ancestor_mounts-HasParent mounts d h =
    let (same, settled) =
      scan_mounts-Settled mounts mounts (map source_of mounts) mounts (λ n l. l) refl
        (λ e k. inl k) in
    elim (settled d (rw same h)) [
      | inl none_left ↦ unfold elem in cc
      | inr (inl x) ↦ inl x
      | inr (inr p) ↦ inr (rw same at p)
    ]
