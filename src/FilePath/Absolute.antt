-- ===== src/FilePath/Absolute.antt =====
-- Absolute paths under `Clean`: they stay absolute, lose every dot component, and stay as they are
-- from then on.
use mathlib.Core.List.{reverse, reverse_aux, reverse-reverse}
use temenos.Base.{
  ◌≡◌, refl, ◌≢◌, Bool, true, false, List, [], ◌∷◌, ◌++◌, Bytes, codes, bytes_eq_iff, split_on,
  join, All, arith, ap, ◌∙◌,
}
use temenos.FilePath.{slash, is_abs, climb, enter, resolve, print, clean}
use temenos.FilePath.Clean.{NoSlash, IsPart, split_on-NoSlash}
use temenos.FilePath.Shorter.{parts_of, parts_of-IsPart, clean-eq-print}

-- A component that means itself: not empty, without a slash, and neither `.` nor `..`.
abbrev pub IsPlain : Bytes → Type 0
IsPlain p = (p ≢ []) × NoSlash p × (p ≢ codes ".") × (p ≢ codes "..")

enter-IsPlain :
    (stack : List Bytes) (p : Bytes)
    → All IsPlain stack
    → NoSlash p
    → All IsPlain (enter true stack p)
unfolding enter climb
enter-IsPlain stack [] h k = h
enter-IsPlain [] (c ∷ p) h k =
    ground (arith, bytes_eq_iff (c ∷ p) (codes "."), bytes_eq_iff (c ∷ p) (codes ".."))
enter-IsPlain (top ∷ stack) (c ∷ p) h k = ground (
  arith,
  bytes_eq_iff (c ∷ p) (codes "."),
  bytes_eq_iff (c ∷ p) (codes ".."),
  bytes_eq_iff top (codes ".."),
)

resolve-IsPlain :
    (stack ps : List Bytes)
    → All IsPlain stack
    → All NoSlash ps
    → All IsPlain (resolve true stack ps)
unfolding resolve
resolve-IsPlain stack [] h k = h
resolve-IsPlain stack (p ∷ ps) h (k, ks) =
    resolve-IsPlain (enter true stack p) ps (enter-IsPlain stack p h k) ks

All-reverse_aux :
    (xs ys : List Bytes) → All IsPlain xs → All IsPlain ys → All IsPlain (reverse_aux xs ys)
All-reverse_aux [] ys h k = k
All-reverse_aux (x ∷ xs) ys (p, h) k = All-reverse_aux xs (x ∷ ys) h (p, k)

pub parts_of-IsPlain : (p : Bytes) → is_abs p ≡ true → All IsPlain (parts_of p)
unfolding parts_of
parts_of-IsPlain p h = rw h (
    All-reverse_aux (resolve true [] (split_on slash p)) []
      (resolve-IsPlain [] (split_on slash p) tt (split_on-NoSlash p)) tt)

is_abs-print : (r : Bool) (ps : List Bytes) → All IsPart ps → is_abs (print r ps) ≡ r
unfolding is_abs print join
is_abs-print true ps h = refl
is_abs-print false [] h = refl
is_abs-print false ([] ∷ ps) h = absurd (h.0.0 refl)
is_abs-print false ((c ∷ p) ∷ []) h = ground arith
is_abs-print false ((c ∷ p) ∷ q ∷ ps) h = ground arith

-- `Clean` keeps the kind of a path, absolute or relative.
pub is_abs-clean : (p : Bytes) → is_abs (clean p) ≡ is_abs p
is_abs-clean p = rw clean-eq-print (is_abs-print (is_abs p) (parts_of p) (parts_of-IsPart p))

split_on-append : (p t : Bytes) → NoSlash p → split_on slash (p ++ slash ∷ t) ≡ p ∷ split_on slash t
unfolding split_on
split_on-append [] t h = refl
split_on-append (c ∷ p) t (h, hs) = ground (arith, split_on-append p t hs)

split_on_slashless : (p : Bytes) → NoSlash p → split_on slash p ≡ p ∷ []
unfolding split_on
split_on_slashless [] h = refl
split_on_slashless (c ∷ p) (h, hs) = ground (arith, split_on_slashless p hs)

pub split_on-join :
    (p : Bytes) (ps : List Bytes)
    → All IsPlain (p ∷ ps)
    → split_on slash (join slash (p ∷ ps)) ≡ p ∷ ps
unfolding join
split_on-join p [] h = split_on_slashless p h.0.1
split_on-join p (q ∷ ps) (h, hs) =
    split_on-append p (join slash (q ∷ ps)) h.1 ∙ ap (λ l. p ∷ l) (split_on-join q ps hs)

enter_plain : (stack : List Bytes) (p : Bytes) → IsPlain p → enter true stack p ≡ p ∷ stack
unfolding enter
enter_plain stack [] h = absurd (h.0 refl)
enter_plain stack (c ∷ p) h =
    ground (arith, bytes_eq_iff (c ∷ p) (codes "."), bytes_eq_iff (c ∷ p) (codes ".."))

pub resolve_plain :
    (stack ps : List Bytes) → All IsPlain ps → resolve true stack ps ≡ reverse_aux ps stack
unfolding resolve
resolve_plain stack [] h = refl
resolve_plain stack (p ∷ ps) (h, hs) = rw (enter_plain stack p h) (resolve_plain (p ∷ stack) ps hs)

-- The components of the path that plain components are printed to.
pub parts_of-print : (ps : List Bytes) → All IsPlain ps → parts_of (print true ps) ≡ ps
unfolding parts_of print is_abs
parts_of-print [] h = unfold resolve split_on join enter in refl
parts_of-print (p ∷ ps) h =
    let parts : split_on slash (slash ∷ join slash (p ∷ ps)) ≡ [] ∷ p ∷ ps =
      unfold split_on in ap (λ l. [] ∷ l) (split_on-join p ps h) in
    rw parts (
      unfold resolve enter in (ap reverse (resolve_plain [] (p ∷ ps) h) ∙ reverse-reverse (p ∷ ps)))

-- An absolute path is settled by one `Clean`.
pub clean_idem : (p : Bytes) → is_abs p ≡ true → clean (clean p) ≡ clean p
clean_idem p h =
    let root : clean p ≡ print true (parts_of p) = rw clean-eq-print (rw h) in
    rw (clean-eq-print (clean p), is_abs-clean p, h, root)
      (ap (print true) (parts_of-print (parts_of p) (parts_of-IsPlain p h)))
