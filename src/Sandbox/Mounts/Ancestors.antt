-- ===== src/Sandbox/Mounts/Ancestors.antt =====
-- What `AddAncestorMounts` adds, and what it leaves as it was.
use temenos.Base.{
  ℕ, zero, suc, ◌+◌, ◌≤◌, ◌<◌, ◌≡◌, refl, ◌⊎◌, inl, inr, true, false, List, [], ◌∷◌, ◌++◌, map,
  Bytes, elem, length, arith, append_assoc, append-nil, Bool-cases, ◌∙◌,
}
use temenos.FilePath.{dir, clean, up_to_slash}
use temenos.FilePath.Shorter.{is_top, dir-clean_shorter, length-clean}
use temenos.Sandbox.Mounts.{Mount, ancestor_mount, climb_dirs, scan_mounts}

-- The way up from a directory, with no bound on the rounds: `added` are the directories that are
-- neither the root, nor the dot, nor known already.
pub data Climb : List Bytes → Bytes → List Bytes → Type 0 where
  at_top : {known : List Bytes} {d : Bytes} → is_top d ≡ true → Climb known d []
  at_known :
      {known : List Bytes} {d : Bytes} → is_top d ≡ false → elem d known ≡ true → Climb known d []
  up :
      {known : List Bytes} {d : Bytes} {added : List Bytes}
      → is_top d ≡ false
      → elem d known ≡ false
      → Climb (known ++ d ∷ []) (dir d) added
      → Climb known d (d ∷ added)

-- The fuel is enough for a clean directory that is shorter, or at the end of the way.
abbrev Enough : ℕ → Bytes → Type 0
Enough fuel d = ((is_top d ≡ true) × (0 < fuel)) ⊎ (length d + 1 < fuel)

Enough-dir :
    (fuel : ℕ) (u : Bytes)
    → is_top (clean u) ≡ false
    → Enough (suc fuel) (clean u)
    → Enough fuel (dir (clean u))
Enough-dir fuel u h (inl (t, k)) = cc
Enough-dir fuel u h (inr k) = elim (dir-clean_shorter u h) [
  | inl t ↦ inl (t, omega arith)
  | inr s ↦ inr (omega arith)
]

length-up_to_slash : (s : Bytes) → length (up_to_slash s) ≤ length s
unfolding up_to_slash
length-up_to_slash [] = omega arith
length-up_to_slash (c ∷ s) = ground (arith, length-up_to_slash s)

Enough-start : (s : Bytes) → Enough (length s + 2) (dir s)
Enough-start [] = unfold dir clean up_to_slash is_top in inl (refl, omega arith)
Enough-start (c ∷ s) =
    unfold dir in
    inr (omega (arith, length-clean (up_to_slash (c ∷ s)), length-up_to_slash (c ∷ s)))

climb_dirs-Climb :
    (fuel : ℕ) (u : Bytes) (known : List Bytes) (mounts : List Mount)
    → Enough fuel (clean u)
    → (added : List Bytes) × Climb known (clean u) added
      × (climb_dirs fuel (clean u) (known, mounts)
          ≡ (known ++ added, mounts ++ map ancestor_mount added))
unfolding climb_dirs
climb_dirs-Climb zero u known mounts h = absurd (omega arith)
climb_dirs-Climb (suc fuel) u known mounts h = elim (Bool-cases (is_top (clean u))) [
  | inl t ↦ ([], at_top t, simp (t, append-nil))
  | inr t ↦ elim (Bool-cases (elem (clean u) known)) [
    | inl k ↦ ([], at_known t k, simp (t, k, append-nil))
    | inr k ↦
        let (added, way, same) =
          climb_dirs-Climb fuel (up_to_slash (clean u)) (known ++ clean u ∷ [])
            (mounts ++ ancestor_mount (clean u) ∷ []) (unfold dir in Enough-dir fuel u t h) in
        (
          clean u ∷ added,
          up t k (unfold dir in way),
          rw (t, k) ((unfold dir in same) ∙ simp append_assoc),
        )
  ]
]

-- Every way up that `AddAncestorMounts` starts comes to its end within the fuel.
pub climb_dirs_ends :
    (s : Bytes) (known : List Bytes) (mounts : List Mount)
    → (added : List Bytes) × Climb known (dir s) added
      × (climb_dirs (length s + 2) (dir s) (known, mounts)
          ≡ (known ++ added, mounts ++ map ancestor_mount added))
unfolding dir
climb_dirs_ends s known mounts =
    climb_dirs-Climb (length s + 2) (up_to_slash s) known mounts (Enough-start s)

-- The two kinds of round of the outer loop.
module _ (m : Mount) (ps : List Mount) (state : List Bytes × List Mount) where
  pub scan_mounts-skip : m.metadata_only ≡ true → scan_mounts (m ∷ ps) state ≡ scan_mounts ps state
  unfolding scan_mounts
  scan_mounts-skip skip = ground arith

  pub scan_mounts-climb :
      (after : List Bytes × List Mount)
      → m.metadata_only ≡ false
      → climb_dirs (length m.source + 2) (dir m.source) state ≡ after
      → scan_mounts (m ∷ ps) state ≡ scan_mounts ps after
  unfolding scan_mounts
  scan_mounts-climb after grant end = ground arith
