-- ===== src/Sandbox/Bwrap/Binds.antt =====
-- sandbox/bwrap.go: which tool directories are bound.
use mathlib.Core.Path.{subst}
use mathlib.Core.List.Memᴰ
use temenos.Base.{
  ◌≡◌, refl, sym, ap, ◌∙◌, inl, inr, true, false, List, [], ◌∷◌, ◌++◌, Bytes, elem, append_assoc,
  append-nil, Bool-cases, All, All-append, All-map, Memᴰ,
}
use temenos.Sandbox.Config.{Host}
use temenos.Sandbox.ToolPaths.{ToolDir, all_tool_dirs, is_present}
use temenos.Sandbox.Bwrap.{
  covered_by_static_root, ro_bind, bind_read_dirs, bind_tools, append_bwrap_tool_binds,
}

-- A read-only bind of each directory onto itself.
abbrev pub binds_of : List Bytes → List Bytes
binds_of [] = []
binds_of (d ∷ ds) = ro_bind d d ++ binds_of ds

-- Each directory exists, is outside the static roots, and differs from the known ones and from those
-- in front of it.
abbrev pub AreBindable : Host → List Bytes → List Bytes → Type 0
AreBindable host known [] = Unit
AreBindable host known (d ∷ ds) =
    (elem d known ≡ false)
    × (covered_by_static_root d ≡ false)
    × (is_present (host.stat d) ≡ true)
    × AreBindable host (known ++ d ∷ []) ds

AreBindable-append :
    (host : Host) (known xs ys : List Bytes)
    → AreBindable host known xs
    → AreBindable host (known ++ xs) ys
    → AreBindable host known (xs ++ ys)
AreBindable-append host known [] ys h k = rw append-nil at k
AreBindable-append host known (x ∷ xs) ys (e, c, p, h) k = (
  e,
  c,
  p,
  AreBindable-append host (known ++ x ∷ []) xs ys h (rw (append_assoc known (x ∷ []) xs) k),
)

pub binds_of-append : (xs ys : List Bytes) → binds_of (xs ++ ys) ≡ binds_of xs ++ binds_of ys
binds_of-append [] ys = refl
binds_of-append (x ∷ xs) ys = ap (λ l. ro_bind x x ++ l) (binds_of-append xs ys)

abbrev pub read_dirs_of : List ToolDir → List Bytes
read_dirs_of [] = []
read_dirs_of (td ∷ tds) = td.read_dirs ++ read_dirs_of tds

-- What a part of the loop, over the directories `rds`, has added to the set and to the arguments.
abbrev Grows : Host → List Bytes → List Bytes × List Bytes → List Bytes × List Bytes → Type 0
Grows host rds (seen, args) result =
    (new : List Bytes) × AreBindable host seen new
    × (result ≡ (seen ++ new, args ++ binds_of new))
    × All (λ d. Memᴰ d rds) new

Grows-more :
    (host : Host) (rd : Bytes) (rds : List Bytes) (state result : List Bytes × List Bytes)
    → Grows host rds state result
    → Grows host (rd ∷ rds) state result
Grows-more host rd rds (seen, args) result (new, fresh, same, known) =
    (new, fresh, same, All-map _ _ (λ d m. Memᴰ.tail m) new known)

module _ (host : Host) (rd : Bytes) (rds seen args : List Bytes) where
  bind_seen :
      elem rd seen ≡ true
      → bind_read_dirs host (rd ∷ rds) (seen, args) ≡ bind_read_dirs host rds (seen, args)
  unfolding bind_read_dirs
  bind_seen h = rw (bind_read_dirs, h) refl

  bind_covered :
      elem rd seen ≡ false
      → covered_by_static_root rd ≡ true
      → bind_read_dirs host (rd ∷ rds) (seen, args) ≡ bind_read_dirs host rds (seen, args)
  unfolding bind_read_dirs
  bind_covered h c = rw (bind_read_dirs, h, c) refl

  bind_missing :
      elem rd seen ≡ false
      → covered_by_static_root rd ≡ false
      → is_present (host.stat rd) ≡ false
      → bind_read_dirs host (rd ∷ rds) (seen, args) ≡ bind_read_dirs host rds (seen, args)
  unfolding bind_read_dirs
  bind_missing h c p = rw (bind_read_dirs, h, c, p) refl

  bind_new :
      elem rd seen ≡ false
      → covered_by_static_root rd ≡ false
      → is_present (host.stat rd) ≡ true
      → bind_read_dirs host (rd ∷ rds) (seen, args)
        ≡ bind_read_dirs host rds (seen ++ rd ∷ [], args ++ ro_bind rd rd)
  unfolding bind_read_dirs
  bind_new h c p = rw (bind_read_dirs, h, c, p) refl

bind_read_dirs-Grows :
    (host : Host) (rds seen args : List Bytes)
    → Grows host rds (seen, args) (bind_read_dirs host rds (seen, args))
bind_read_dirs-Grows host [] seen args = ([], tt, unfold bind_read_dirs in simp append-nil, tt)
bind_read_dirs-Grows host (rd ∷ rds) seen args =
    let skipped =
      Grows-more host rd rds (seen, args) (bind_read_dirs host rds (seen, args))
        (bind_read_dirs-Grows host rds seen args) in
    elim (Bool-cases (elem rd seen)) [
      | inl h ↦
          subst (Grows host (rd ∷ rds) (seen, args)) (sym (bind_seen host rd rds seen args h))
            skipped
      | inr h ↦ elim (Bool-cases (covered_by_static_root rd)) [
        | inl c ↦
            subst (Grows host (rd ∷ rds) (seen, args))
              (sym (bind_covered host rd rds seen args h c)) skipped
        | inr c ↦ elim (Bool-cases (is_present (host.stat rd))) [
          | inr p ↦
              subst (Grows host (rd ∷ rds) (seen, args))
                (sym (bind_missing host rd rds seen args h c p)) skipped
          | inl p ↦
              let (new, fresh, same, known) =
                bind_read_dirs-Grows host rds (seen ++ rd ∷ []) (args ++ ro_bind rd rd) in
              (
                rd ∷ new,
                (h, c, p, fresh),
                bind_new host rd rds seen args h c p ∙ (same ∙ simp append_assoc),
                (Memᴰ.head refl, All-map _ _ (λ d m. Memᴰ.tail m) new known),
              )
        ]
      ]
    ]

bind_tools-Grows :
    (host : Host) (tds : List ToolDir) (seen args : List Bytes)
    → Grows host (read_dirs_of tds) (seen, args) (bind_tools host tds (seen, args))
unfolding bind_tools
bind_tools-Grows host [] seen args = ([], tt, simp append-nil, tt)
bind_tools-Grows host (td ∷ tds) seen args =
    let (xs, fresh, same, known) = bind_read_dirs-Grows host td.read_dirs seen args in
    let (ys, more, rest, old) = bind_tools-Grows host tds (seen ++ xs) (args ++ binds_of xs) in
    (
      xs ++ ys,
      AreBindable-append host seen xs ys fresh more,
      ap (bind_tools host tds) same ∙ (rest ∙ simp (append_assoc, binds_of-append)),
      All-append _ xs ys (All-map _ _ (λ d m. Memᴰ.append_left (read_dirs_of tds) m) xs known)
          (All-map _ _ (λ d m. Memᴰ.append_right td.read_dirs m) ys old),
    )

-- The tool directories are bound read-only, each onto itself, behind the arguments given: each of
-- them is a directory that a tool reads, exists, and is neither a static root nor below one, and no
-- two are alike.
pub append_bwrap_tool_binds-AreBindable :
    (host : Host) (args : List Bytes)
    → (dirs : List Bytes) × (append_bwrap_tool_binds host args ≡ args ++ binds_of dirs)
      × AreBindable host [] dirs
      × All (λ d. Memᴰ d (read_dirs_of (all_tool_dirs host false))) dirs
unfolding append_bwrap_tool_binds
append_bwrap_tool_binds-AreBindable host args =
    let (dirs, fresh, same, known) = bind_tools-Grows host (all_tool_dirs host false) [] args in
    (dirs, ap (λ (s : List Bytes × List Bytes). s.1) same, fresh, known)
