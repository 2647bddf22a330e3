-- ===== src/Sandbox/Cgroup/Paths.antt =====
-- sandbox/cgroup_k8s.go: the paths of cgroups, as `filepath.Join` makes them.
use mathlib.Core.List.{reverse, reverse_aux}
use temenos.Base.{
  ◌≡◌, refl, sym, ap, ◌∙◌, true, false, List, [], ◌∷◌, ◌++◌, Bytes, codes, bytes_eq, bytes_eq_iff,
  bytes_eq_refl, has_suffix, trim_suffix, join, All, All-append, arith, append_assoc, append-nil,
  Bool-cases, inl, inr,
}
use temenos.FilePath.{slash, print, clean, resolve, is_abs, join_path}
use temenos.FilePath.Clean.{NoSlash}
use temenos.FilePath.Shorter.{clean-eq-print}
use temenos.FilePath.Absolute.{IsPlain, split_on-join, parts_of-print, resolve_plain}
use temenos.Sandbox.Cgroup.{cgroup_root}

pub clean-print : (ps : List Bytes) → All IsPlain ps → clean (print true ps) ≡ print true ps
clean-print ps h =
    clean-eq-print (print true ps)
    ∙ (unfold print is_abs in (ap (print true) (parts_of-print ps h)))

join-append :
    (p : Bytes) (ps : List Bytes) (q : Bytes)
    → join slash (p ∷ ps ++ q ∷ []) ≡ join slash (p ∷ ps) ++ slash ∷ q
unfolding join
join-append p [] q = refl
join-append p (r ∷ ps) q = simp (join-append r ps q, append_assoc)

pub print-append :
    (p : Bytes) (ps : List Bytes) (q : Bytes)
    → print true (p ∷ ps ++ q ∷ []) ≡ print true (p ∷ ps) ++ slash ∷ q
unfolding print
print-append p ps q = ap (λ s. slash ∷ s) (join-append p ps q)

-- A name below a directory.
pub join_path-print :
    (p : Bytes) (ps : List Bytes) (q : Bytes)
    → All IsPlain (p ∷ ps)
    → IsPlain q
    → join_path (print true (p ∷ ps) ∷ q ∷ []) ≡ print true (p ∷ ps) ++ slash ∷ q
unfolding join_path print join
join_path-print p ps [] h k = absurd (k.0 refl)
join_path-print p ps (c ∷ q) h k =
    ap clean (sym (print-append p ps (c ∷ q)))
    ∙ (clean-print (p ∷ ps ++ (c ∷ q) ∷ []) (All-append IsPlain (p ∷ ps) ((c ∷ q) ∷ []) h (k, tt))
        ∙ print-append p ps (c ∷ q))

reverse_aux-reverse_aux :
    (xs ys zs : List Bytes) → reverse_aux (reverse_aux xs ys) zs ≡ reverse_aux ys (xs ++ zs)
reverse_aux-reverse_aux [] ys zs = refl
reverse_aux-reverse_aux (x ∷ xs) ys zs = reverse_aux-reverse_aux xs (x ∷ ys) zs

pub join_path-root :
    (p : Bytes) (ps : List Bytes)
    → All IsPlain (p ∷ ps)
    → join_path (cgroup_root ∷ print true (p ∷ ps) ∷ []) ≡ cgroup_root ++ print true (p ∷ ps)
unfolding join_path cgroup_root print
join_path-root p ps h =
    let parts : List Bytes = codes "cgroup" ∷ codes "fs" ∷ codes "sys" ∷ [] in
    let same : reverse_aux (reverse_aux (p ∷ ps) parts) []
        ≡ codes "sys" ∷ codes "fs" ∷ codes "cgroup" ∷ p ∷ ps =
      reverse_aux-reverse_aux (p ∷ ps) parts []
      ∙ ap (λ qs. codes "sys" ∷ codes "fs" ∷ codes "cgroup" ∷ qs) (append-nil (p ∷ ps)) in
    ap (λ qs. print true (reverse (resolve true parts qs))) (split_on-join p ps h)
    ∙ (ap (λ qs. print true (reverse qs)) (resolve_plain parts (p ∷ ps) h) ∙ ap (print true) same)

bytes_eq-slash : (q r t : Bytes) → NoSlash q → bytes_eq q (r ++ slash ∷ t) ≡ false
unfolding bytes_eq
bytes_eq-slash [] [] t h = refl
bytes_eq-slash [] (b ∷ r) t h = refl
bytes_eq-slash (c ∷ q) [] t h = ground arith
bytes_eq-slash (c ∷ q) (b ∷ r) t h = ground (arith, bytes_eq-slash q r t h.1)

pub has_suffix-slash :
    (q r t : Bytes)
    → NoSlash q
    → has_suffix (slash ∷ q) (r ++ slash ∷ t) ≡ has_suffix (slash ∷ q) (slash ∷ t)
unfolding has_suffix
has_suffix-slash q [] t h = refl
has_suffix-slash q (a ∷ r) t h = ground (arith, has_suffix-slash q r t h, bytes_eq-slash q r t h)

pub trim_suffix-append : (p s : Bytes) → has_suffix p s ≡ true → trim_suffix p s ++ p ≡ s
unfolding has_suffix trim_suffix
trim_suffix-append p [] h = (bytes_eq_iff p []).0 h
trim_suffix-append p (a ∷ s) h = elim (Bool-cases (bytes_eq p (a ∷ s))) [
  | inl whole ↦ rw whole ((bytes_eq_iff p (a ∷ s)).0 whole)
  | inr part ↦ rw part (ap (λ t. a ∷ t) (trim_suffix-append p s (rw part at h)))
]

pub has_suffix-append : (r p : Bytes) → has_suffix p (r ++ p) ≡ true
unfolding has_suffix
has_suffix-append [] [] = refl
has_suffix-append [] (c ∷ p) = rw (bytes_eq_refl (c ∷ p)) refl
has_suffix-append (a ∷ r) p = ground (arith, has_suffix-append r p)

pub trim_suffix-slash : (q r : Bytes) → NoSlash q → trim_suffix (slash ∷ q) (r ++ slash ∷ q) ≡ r
unfolding trim_suffix
trim_suffix-slash q [] h = rw (bytes_eq_refl (slash ∷ q)) refl
trim_suffix-slash q (a ∷ r) h = ground (arith, trim_suffix-slash q r h, bytes_eq-slash q r q h)
