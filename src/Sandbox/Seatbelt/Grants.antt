-- ===== src/Sandbox/Seatbelt/Grants.antt =====
-- sandbox/policy.go: what the rules grant, with the parameters put in.
use mathlib.Core.Path.{subst}
use temenos.Base.{
  ℕ, suc, ◌≡◌, refl, sym, ap, ◌∙◌, true, false, some, List, [], ◌∷◌, ◌++◌, map, Bytes, bytes_eq,
  Result, ok, err, All, append_assoc, append-nil, same_ok, arith, Bool-cases, inl, inr,
}
use temenos.Sandbox.Mounts.{Mount}
use temenos.Sandbox.Seatbelt.Keys.{is_key, is_key_refl}
use temenos.Sandbox.Seatbelt.{
  Key, metadata_root, readable_root, writable_root, Rule, allow_metadata, allow_read,
  allow_read_write, PolicyError, cannot_remap, Param, Rules, with_rule, mount_rules,
}
use temenos.Sandbox.Seatbelt.Params.{
  param, grant, asked, IsBelow, IsKeyFresh, param-append, AreFound, metadata_root-IsKeyFresh,
  readable_root-IsKeyFresh, writable_root-IsKeyFresh, AreFound-append, All-fresh, IsBelow-append,
}

with_rule-ok :
    (rule : Rule) (k : Key) (path : Bytes) (rest : Result PolicyError Rules) (out : Rules)
    → with_rule rule k path rest ≡ ok out
    → (inner : Rules) × (rest ≡ ok inner) × (out ≡ (rule ∷ inner.0, (k, path) ∷ inner.1, inner.2))
with_rule-ok rule k path (err e) out h = ground arith
with_rule-ok rule k path (ok inner) out h = (inner, refl, cc)

-- The rules grant what the mounts ask for, with any parameters behind those that are there, no
-- parameter is hidden, and the indices are used up to the next ones.
abbrev pub IsGranted : List Mount → List Param → List Rule → ℕ → Type 0
IsGranted ds whole rules next =
    ((after : List Param) → map (grant (whole ++ after)) rules ≡ map asked ds)
    × AreFound whole whole
    × ((w : ℕ) × (m : ℕ) × All (IsBelow next w m) whole)

IsGranted-step :
    (rule : Rule) (k : Key) (d : Mount) (ds : List Mount) (before ps : List Param)
    (rules : List Rule) (next : ℕ)
    → All (IsKeyFresh k) before
    → is_key k k ≡ true
    → ((qs : List Param) → param qs k ≡ some d.source → grant qs rule ≡ asked d)
    → IsGranted ds ((before ++ (k, d.source) ∷ []) ++ ps) rules next
    → IsGranted (d ∷ ds) (before ++ (k, d.source) ∷ ps) (rule ∷ rules) next
IsGranted-step rule k d ds before ps rules next fresh same asks h =
    let (granted, found, below) =
      subst (λ whole. IsGranted ds whole rules next) (append_assoc before ((k, d.source) ∷ []) ps)
        h in
    (
      λ after.
          let whole : List Param = (before ++ (k, d.source) ∷ ps) ++ after in
          let mine : param whole k ≡ some d.source =
            ap (λ qs. param qs k) (append_assoc before ((k, d.source) ∷ ps) after)
            ∙ param-append before (ps ++ after) k d.source fresh same in
          ap (λ g. g ∷ map (grant whole) rules) (asks whole mine)
          ∙ ap (λ gs. asked d ∷ gs) (granted after),
      found,
      below,
    )

with_rule-IsGranted :
    (rule : Rule) (k : Key) (d : Mount) (ds : List Mount) (before : List Param)
    (rest : Result PolicyError Rules) (out : Rules) (r w m : ℕ)
    → All (IsKeyFresh k) before
    → is_key k k ≡ true
    → ((qs : List Param) → param qs k ≡ some d.source → grant qs rule ≡ asked d)
    → AreFound before before
    → All (IsBelow r w m) (before ++ (k, d.source) ∷ [])
    → ((inner : Rules)
        → All (IsBelow r w m) (before ++ (k, d.source) ∷ [])
        → AreFound (before ++ (k, d.source) ∷ []) (before ++ (k, d.source) ∷ [])
        → rest ≡ ok inner
        → IsGranted ds ((before ++ (k, d.source) ∷ []) ++ inner.1) inner.0 inner.2)
    → with_rule rule k d.source rest ≡ ok out
    → IsGranted (d ∷ ds) (before ++ out.1) out.0 out.2
with_rule-IsGranted rule k d ds before rest out r w m fresh same asks found below go h =
    let (inner, is, out_is) = with_rule-ok rule k d.source rest out h in
    subst (λ o. IsGranted (d ∷ ds) (before ++ o.1) o.0 o.2) (sym out_is)
      (IsGranted-step rule k d ds before inner.1 inner.0 inner.2 fresh same asks
        (go inner below (AreFound-append before k d.source found fresh same) is))

asks-metadata :
    (d : Mount) (k : Key)
    → d.metadata_only ≡ true
    → (qs : List Param) → param qs k ≡ some d.source
    → grant qs (allow_metadata k) ≡ asked d
unfolding grant asked
asks-metadata d k only qs h = rw (h, only) refl

asks-read :
    (d : Mount) (k : Key)
    → d.metadata_only ≡ false
    → d.read_only ≡ true
    → (qs : List Param) → param qs k ≡ some d.source
    → grant qs (allow_read k) ≡ asked d
unfolding grant asked
asks-read d k more ro qs h = rw (h, more, ro) refl

asks-write :
    (d : Mount) (k : Key)
    → d.metadata_only ≡ false
    → d.read_only ≡ false
    → (qs : List Param) → param qs k ≡ some d.source
    → grant qs (allow_read_write k) ≡ asked d
unfolding grant asked
asks-write d k more writable qs h = rw (h, more, writable) refl

-- The branches of the loop.
module _ (d : Mount) (ds : List Mount) (r w m : ℕ) where
  mount_rules-metadata :
      d.metadata_only ≡ true
      → mount_rules r w m (d ∷ ds)
        ≡ with_rule
            (allow_metadata (metadata_root m))
            (metadata_root m)
            d.source
            (mount_rules r w (suc m) ds)
  unfolding mount_rules
  mount_rules-metadata only = rw only refl

  mount_rules-remap :
      d.metadata_only ≡ false
      → bytes_eq d.source d.target ≡ false
      → mount_rules r w m (d ∷ ds) ≡ err (cannot_remap d.source d.target)
  unfolding mount_rules
  mount_rules-remap more other = rw (more, other) refl

  mount_rules-read :
      d.metadata_only ≡ false
      → bytes_eq d.source d.target ≡ true
      → d.read_only ≡ true
      → mount_rules r w m (d ∷ ds)
        ≡ with_rule
            (allow_read (readable_root r))
            (readable_root r)
            d.source
            (mount_rules (suc r) w m ds)
  unfolding mount_rules
  mount_rules-read more same ro = rw (more, same, ro) refl

  mount_rules-write :
      d.metadata_only ≡ false
      → bytes_eq d.source d.target ≡ true
      → d.read_only ≡ false
      → mount_rules r w m (d ∷ ds)
        ≡ with_rule
            (allow_read_write (writable_root w))
            (writable_root w)
            d.source
            (mount_rules r (suc w) m ds)
  unfolding mount_rules
  mount_rules-write more same writable = rw (more, same, writable) refl

pub mount_rules-IsGranted :
    (ds : List Mount) (r w m : ℕ) (before : List Param) (out : Rules)
    → All (IsBelow r w m) before
    → AreFound before before
    → mount_rules r w m ds ≡ ok out
    → IsGranted ds (before ++ out.1) out.0 out.2
unfolding mount_rules
mount_rules-IsGranted [] r w m before out below found = λ h.
    subst (λ o. IsGranted [] (before ++ o.1) o.0 o.2) (same_ok ([], [], r) out h)
      (subst (λ whole. IsGranted [] whole [] r) (sym (append-nil before))
        (λ after. refl, found, (w, m, below)))
mount_rules-IsGranted (d ∷ ds) r w m before out below found = elim (Bool-cases d.metadata_only) [
  | inl only ↦ λ h.
      with_rule-IsGranted (allow_metadata (metadata_root m)) (metadata_root m) d ds before
        (mount_rules r w (suc m) ds) out r w (suc m)
        (All-fresh (metadata_root m) r w m before (metadata_root-IsKeyFresh r w m) below)
        (is_key_refl (metadata_root m)) (asks-metadata d (metadata_root m) only) found
        (IsBelow-append r w m r w (suc m) before (metadata_root m) d.source (ground arith)
          (ground arith) (ground arith) below (ground arith))
        (mount_rules-IsGranted ds r w (suc m) (before ++ (metadata_root m, d.source) ∷ []))
        (sym (mount_rules-metadata d ds r w m only) ∙ h)
  | inr more ↦ elim (Bool-cases (bytes_eq d.source d.target)) [
    | inr other ↦ λ h. absurd (ground (arith, sym (mount_rules-remap d ds r w m more other) ∙ h))
    | inl same ↦ elim (Bool-cases d.read_only) [
      | inl ro ↦ λ h.
          with_rule-IsGranted (allow_read (readable_root r)) (readable_root r) d ds before
            (mount_rules (suc r) w m ds) out (suc r) w m
            (All-fresh (readable_root r) r w m before (readable_root-IsKeyFresh r w m) below)
            (is_key_refl (readable_root r)) (asks-read d (readable_root r) more ro) found
            (IsBelow-append r w m (suc r) w m before (readable_root r) d.source (ground arith)
              (ground arith) (ground arith) below (ground arith))
            (mount_rules-IsGranted ds (suc r) w m (before ++ (readable_root r, d.source) ∷ []))
            (sym (mount_rules-read d ds r w m more same ro) ∙ h)
      | inr writable ↦ λ h.
          with_rule-IsGranted (allow_read_write (writable_root w)) (writable_root w) d ds before
            (mount_rules r (suc w) m ds) out r (suc w) m
            (All-fresh (writable_root w) r w m before (writable_root-IsKeyFresh r w m) below)
            (is_key_refl (writable_root w)) (asks-write d (writable_root w) more writable) found
            (IsBelow-append r w m r (suc w) m before (writable_root w) d.source (ground arith)
              (ground arith) (ground arith) below (ground arith))
            (mount_rules-IsGranted ds r (suc w) m (before ++ (writable_root w, d.source) ∷ []))
            (sym (mount_rules-write d ds r w m more same writable) ∙ h)
    ]
  ]
]
