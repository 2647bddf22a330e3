-- ===== src/FilePath/Clean.antt =====
-- What `Clean` and `Dir` guarantee of their results: no component is empty or holds a slash, and
-- the parent of a path is shorter than the path.

use temenos.Base.{ℕ, ◌≢◌, Bool, List, [], ◌∷◌, Bytes, split_on, grow_first, All, arith}
use temenos.FilePath.{slash, climb, enter, resolve}

abbrev pub NoSlash : Bytes → Type 0
NoSlash [] = Unit
NoSlash (c ∷ s) = (c ≢ slash) × NoSlash s

-- A component that a clean path may have.
abbrev pub IsPart : Bytes → Type 0
IsPart p = (p ≢ []) × NoSlash p

NoSlash-grow_first :
    (c : ℕ) (ps : List Bytes) → c ≢ slash → All NoSlash ps → All NoSlash (grow_first c ps)
NoSlash-grow_first c [] h k = ((h, tt), tt)
NoSlash-grow_first c (p ∷ ps) h (k, ks) = ((h, k), ks)

pub split_on-NoSlash : (s : Bytes) → All NoSlash (split_on slash s)
unfolding split_on
split_on-NoSlash [] = (tt, tt)
split_on-NoSlash (c ∷ s) =
    ground (arith, split_on-NoSlash s, NoSlash-grow_first c (split_on slash s))

climb-IsPart :
    (rooted : Bool) (stack : List Bytes) → All IsPart stack → All IsPart (climb rooted stack)
unfolding climb
climb-IsPart rooted [] h = ground arith
climb-IsPart rooted (top ∷ stack) h = ground arith

enter-IsPart :
    (rooted : Bool) (stack : List Bytes) (p : Bytes)
    → All IsPart stack
    → NoSlash p
    → All IsPart (enter rooted stack p)
unfolding enter
enter-IsPart rooted stack [] h k = h
enter-IsPart rooted stack (c ∷ p) h k = ground (arith, climb-IsPart rooted stack)

pub resolve-IsPart :
    (rooted : Bool) (stack ps : List Bytes)
    → All IsPart stack
    → All NoSlash ps
    → All IsPart (resolve rooted stack ps)
unfolding resolve
resolve-IsPart rooted stack [] h k = h
resolve-IsPart rooted stack (p ∷ ps) h (k, ks) =
    resolve-IsPart rooted (enter rooted stack p) ps (enter-IsPart rooted stack p h k) ks
