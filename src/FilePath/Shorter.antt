-- ===== src/FilePath/Shorter.antt =====
-- `Dir` comes to an end: the parent of a parent is shorter, until the root or the dot is reached.
use mathlib.Core.List.{reverse, reverse_aux}
use temenos.Base.{
  ℕ, ◌+◌, ◌≤◌, ◌<◌, ◌≡◌, refl, ◌⊎◌, inl, inr, ◌≢◌, Bool, true, false, ◌||◌, List, [], ◌∷◌, ◌++◌,
  ◌==◌, if◌then◌else◌, Bytes, codes, bytes_eq, bytes_eq_iff, ap, split_on, grow_first, join, length,
  All, arith, length-append, Bool-cases,
}
use temenos.FilePath.{slash, is_abs, climb, enter, resolve, print, clean, up_to_slash, dir}
use temenos.FilePath.Clean.{NoSlash, IsPart, split_on-NoSlash, resolve-IsPart}

-- What a list of components costs when it is printed: each with one slash.
abbrev weight : List Bytes → ℕ
weight [] = 0
weight (p ∷ ps) = length p + 1 + weight ps

weight-reverse_aux : (xs ys : List Bytes) → weight (reverse_aux xs ys) ≡ weight xs + weight ys
weight-reverse_aux [] ys = omega arith
weight-reverse_aux (x ∷ xs) ys = omega (arith, weight-reverse_aux xs (x ∷ ys))

All-reverse_aux :
    (P : Bytes → Type 0) (xs ys : List Bytes) → All P xs → All P ys → All P (reverse_aux xs ys)
All-reverse_aux P [] ys h k = k
All-reverse_aux P (x ∷ xs) ys (p, h) k = All-reverse_aux P xs (x ∷ ys) h (p, k)

weight-grow_first : (c : ℕ) (ps : List Bytes) → ps ≢ [] → weight (grow_first c ps) ≡ weight ps + 1
weight-grow_first c [] h = absurd (h refl)
weight-grow_first c (p ∷ ps) h = omega arith

split_on-ne-nil : (s : Bytes) → split_on slash s ≢ []
unfolding split_on
split_on-ne-nil [] h = cc
split_on-ne-nil (c ∷ s) h = go (c == slash) (split_on slash s) h
  where
    go : (b : Bool) (ps : List Bytes) → ¬ ((if b then [] ∷ ps else grow_first c ps) ≡ [])
    go true ps e = cc
    go false [] e = cc
    go false (p ∷ ps) e = cc

weight-split_on : (s : Bytes) → weight (split_on slash s) ≡ length s + 1
unfolding split_on
weight-split_on [] = refl
weight-split_on (c ∷ s) =
    ground (arith, weight-split_on s, weight-grow_first c (split_on slash s) (split_on-ne-nil s))

weight-climb : (rooted : Bool) (stack : List Bytes) → weight (climb rooted stack) ≤ weight stack + 3
unfolding climb
weight-climb rooted [] = ground arith
weight-climb rooted (top ∷ stack) = ground arith

weight-enter :
    (rooted : Bool) (stack : List Bytes) (p : Bytes)
    → weight (enter rooted stack p) ≤ weight stack + length p + 1
unfolding enter
weight-enter rooted stack [] = omega arith
weight-enter rooted stack (c ∷ p) = elim (Bool-cases (bytes_eq (c ∷ p) (codes ".."))) [
  | inl up ↦
      let size : length (c ∷ p) ≡ 2 = ap length ((bytes_eq_iff (c ∷ p) (codes "..")).0 up) in
      ground (arith, weight-climb rooted stack)
  | inr other ↦ ground arith
]

weight-resolve :
    (rooted : Bool) (stack ps : List Bytes)
    → weight (resolve rooted stack ps) ≤ weight stack + weight ps
unfolding resolve
weight-resolve rooted stack [] = omega arith
weight-resolve rooted stack (p ∷ ps) =
    omega (arith, weight-resolve rooted (enter rooted stack p) ps, weight-enter rooted stack p)

length-join : (p : Bytes) (ps : List Bytes) → length (join slash (p ∷ ps)) + 1 ≡ weight (p ∷ ps)
unfolding join
length-join p [] = omega arith
length-join p (q ∷ ps) =
    omega (arith, length-append p (slash ∷ join slash (q ∷ ps)), length-join q ps)

-- The components of a clean path, in order.
unfoldable pub parts_of : Bytes → List Bytes
parts_of p = reverse (resolve (is_abs p) [] (split_on slash p))

pub clean-eq-print : (p : Bytes) → clean p ≡ print (is_abs p) (parts_of p)
unfolding clean parts_of
clean-eq-print p = refl

pub parts_of-IsPart : (p : Bytes) → All IsPart (parts_of p)
unfolding parts_of
parts_of-IsPart p =
    All-reverse_aux IsPart (resolve (is_abs p) [] (split_on slash p)) []
      (resolve-IsPart (is_abs p) [] (split_on slash p) tt (split_on-NoSlash p)) tt

weight-resolve_from_root :
    (c : ℕ) (s : Bytes) (rooted : Bool)
    → (c == slash) ≡ true
    → weight (resolve rooted [] (split_on slash (c ∷ s))) ≤ length s + 1
unfolding split_on resolve
weight-resolve_from_root c s rooted h =
    ground (arith, weight-resolve rooted [] (split_on slash s), weight-split_on s)

-- An absolute path spends one slash on the root.
weight-parts_of : (p : Bytes) → weight (parts_of p) + (if is_abs p then 1 else 0) ≤ length p + 1
unfolding parts_of is_abs
weight-parts_of [] = unfold resolve split_on in omega arith
weight-parts_of (c ∷ s) = ground (
  arith,
  weight-reverse_aux (resolve (c == slash) [] (split_on slash (c ∷ s))) [],
  weight-resolve (c == slash) [] (split_on slash (c ∷ s)),
  weight-split_on (c ∷ s),
  weight-resolve_from_root c s (c == slash),
)

length-print :
    (r : Bool) (ps : List Bytes)
    → (length (print r ps) + 1 ≤ weight ps + (if r then 1 else 0)) ⊎ (length (print r ps) ≡ 1)
unfolding print
length-print true [] = unfold join in inr refl
length-print false [] = inr refl
length-print true (p ∷ ps) = inl (omega (arith, length-join p ps))
length-print false (p ∷ ps) = inl (omega (arith, length-join p ps))

-- `Clean` never makes a path longer, but for the empty path, which becomes the dot.
pub length-clean : (p : Bytes) → (length (clean p) ≤ length p) ⊎ (length (clean p) ≡ 1)
length-clean p =
    rw clean-eq-print (ground (arith, length-print (is_abs p) (parts_of p), weight-parts_of p))

up_to_slash-NoSlash : (s : Bytes) → NoSlash s → up_to_slash s ≡ []
unfolding up_to_slash
up_to_slash-NoSlash [] h = refl
up_to_slash-NoSlash (c ∷ s) h = ground (arith, up_to_slash-NoSlash s)

up_to_slash-append : (s t : Bytes) → up_to_slash (s ++ slash ∷ t) ≡ s ++ slash ∷ up_to_slash t
unfolding up_to_slash
up_to_slash-append [] t = refl
up_to_slash-append (c ∷ []) t = ground (arith, up_to_slash-append [] t)
up_to_slash-append (c ∷ d ∷ s) t = ground (arith, up_to_slash-append (d ∷ s) t)

up_to_slash-join_lt :
    (p : Bytes) (ps : List Bytes)
    → All IsPart (p ∷ ps)
    → length (up_to_slash (join slash (p ∷ ps))) < length (join slash (p ∷ ps))
unfolding join
up_to_slash-join_lt [] [] h = absurd (h.0.0 refl)
up_to_slash-join_lt (c ∷ p) [] h = rw (up_to_slash-NoSlash (c ∷ p) h.0.1) (omega arith)
up_to_slash-join_lt p (q ∷ ps) (h, hs) = rw up_to_slash-append (
    omega (
      arith,
      length-append p (slash ∷ join slash (q ∷ ps)),
      length-append p (slash ∷ up_to_slash (join slash (q ∷ ps))),
      up_to_slash-join_lt q ps hs,
    ))

-- The end of the way up: `dir == "/" || dir == "."`.
unfoldable pub is_top : Bytes → Bool
unfolding bytes_eq
is_top d = bytes_eq d (codes "/") || bytes_eq d (codes ".")

up_to_slash-print_lt :
    (r : Bool) (ps : List Bytes)
    → All IsPart ps
    → is_top (print r ps) ≡ false
    → length (up_to_slash (print r ps)) < length (print r ps)
unfolding print
up_to_slash-print_lt true [] h k = unfold join is_top in cc
up_to_slash-print_lt false [] h k = unfold is_top in cc
up_to_slash-print_lt true (p ∷ ps) h k =
    rw (up_to_slash-append [] (join slash (p ∷ ps))) (omega (arith, up_to_slash-join_lt p ps h))
up_to_slash-print_lt false (p ∷ ps) h k = up_to_slash-join_lt p ps h

clean_shorter :
    (u : Bytes) (n : ℕ) → length u < n → (is_top (clean u) ≡ true) ⊎ (length (clean u) < n)
clean_shorter [] n h = unfold clean is_top in inl refl
clean_shorter (c ∷ u) n h = inr (omega (arith, length-clean (c ∷ u)))

-- The parent of a parent is the root, the dot, or shorter.
pub dir-clean_shorter :
    (p : Bytes)
    → is_top (clean p) ≡ false
    → (is_top (dir (clean p)) ≡ true) ⊎ (length (dir (clean p)) < length (clean p))
unfolding dir
dir-clean_shorter p h = clean_shorter (up_to_slash (clean p)) (length (clean p)) (
    rw clean-eq-print
      (up_to_slash-print_lt (is_abs p) (parts_of p) (parts_of-IsPart p) (rw clean-eq-print at h)))
