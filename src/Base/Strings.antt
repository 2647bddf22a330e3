-- ===== src/Base/Strings.antt =====
-- Go strings: sequences of bytes, compared, searched and cut as package strings does it.
use Prim.Native.Nat.{ℕ}
use Prim.Native.Char.{code}
use Prim.Native.String.{String}
use mathlib.Core.Path.{◌≡◌, refl}
use mathlib.Core.Bool.{Bool, true, false, ◌&&◌, ◌||◌}
use mathlib.Core.Logic.{◌↔◌}
use mathlib.Core.Option.{Option, none, some}
use mathlib.Core.List.{List, [], ◌∷◌, ◌++◌, reverse}
use native.Mathlib.Omega.{arith}
use temenos.Base.Tests.{◌==◌, leb, if◌then◌else◌}

abbrev pub Bytes : Type 0
Bytes = List ℕ

-- The code points of a text, which are its bytes where the text is ASCII.
abbrev pub codes : String → Bytes
codes String.[] = []
codes (String.◌∷◌ c s) = code c ∷ codes s

unfoldable pub bytes_eq : Bytes → Bytes → Bool
bytes_eq [] [] = true
bytes_eq (a ∷ s) (b ∷ t) = a == b && bytes_eq s t
bytes_eq _ _ = false

pub bytes_eq_refl : (s : Bytes) → bytes_eq s s ≡ true
unfolding bytes_eq
bytes_eq_refl [] = refl
bytes_eq_refl (a ∷ s) = ground (arith, bytes_eq_refl s)

bytes_eq→eq : (s t : Bytes) → bytes_eq s t ≡ true → s ≡ t
unfolding bytes_eq
bytes_eq→eq [] [] h = refl
bytes_eq→eq [] (b ∷ t) h = cc
bytes_eq→eq (a ∷ s) [] h = cc
bytes_eq→eq (a ∷ s) (b ∷ t) h = ground (arith, bytes_eq→eq s t)

pub bytes_eq_iff : (s t : Bytes) → (bytes_eq s t ≡ true) ↔ (s ≡ t)
bytes_eq_iff s t = (bytes_eq→eq s t, λ e. rw e (bytes_eq_refl t))

-- `s == ""`
abbrev pub is_empty : Bytes → Bool
is_empty [] = true
is_empty (_ ∷ _) = false

-- `strings.HasPrefix(s, p)`, the prefix first.
unfoldable pub has_prefix : Bytes → Bytes → Bool
has_prefix [] s = true
has_prefix (a ∷ p) [] = false
has_prefix (a ∷ p) (b ∷ s) = a == b && has_prefix p s

-- `strings.CutPrefix`: the rest behind the prefix, if it is one.
unfoldable pub cut_prefix : Bytes → Bytes → Option Bytes
cut_prefix [] s = some s
cut_prefix (a ∷ p) [] = none
cut_prefix (a ∷ p) (b ∷ s) = if a == b then cut_prefix p s else none

-- `strings.HasSuffix(s, p)`, the suffix first.
unfoldable pub has_suffix : Bytes → Bytes → Bool
unfolding bytes_eq
has_suffix p [] = bytes_eq p []
has_suffix p (a ∷ s) = bytes_eq p (a ∷ s) || has_suffix p s

-- `strings.TrimSuffix(s, p)`, the suffix first.
unfoldable pub trim_suffix : Bytes → Bytes → Bytes
unfolding bytes_eq
trim_suffix p [] = []
trim_suffix p (a ∷ s) = let rest = trim_suffix p s in if bytes_eq p (a ∷ s) then [] else a ∷ rest

-- `strings.Contains(s, p)`, the part first.
unfoldable pub contains : Bytes → Bytes → Bool
unfolding has_prefix
contains p [] = has_prefix p []
contains p (a ∷ s) = has_prefix p (a ∷ s) || contains p s

-- Puts a byte in front of the first part.
abbrev pub grow_first : ℕ → List Bytes → List Bytes
grow_first a [] = (a ∷ []) ∷ []
grow_first a (p ∷ ps) = (a ∷ p) ∷ ps

-- `strings.Split(s, string(sep))` for a separator of one byte.
unfoldable pub split_on : ℕ → Bytes → List Bytes
split_on sep [] = [] ∷ []
split_on sep (a ∷ s) =
    let parts = split_on sep s in if a == sep then [] ∷ parts else grow_first a parts

-- `strings.Join(parts, string(sep))` for a separator of one byte.
unfoldable pub join : ℕ → List Bytes → Bytes
join sep [] = []
join sep (p ∷ []) = p
join sep (p ∷ q ∷ ps) = p ++ sep ∷ join sep (q ∷ ps)

-- White space (`unicode.IsSpace`), by its encoding in UTF-8: of one, two and three bytes.
unfoldable pub is_space : ℕ → Bool
is_space c = c == 32 || (leb 9 c && leb c 13)

unfoldable is_space2 : ℕ → ℕ → Bool
is_space2 a b = a == 194 && (b == 133 || b == 160)

unfoldable is_space3 : ℕ → ℕ → ℕ → Bool
is_space3 a b c =
    (a == 225 && b == 154 && c == 128)
    || (a == 226 && b == 128 && ((leb 128 c && leb c 138) || c == 168 || c == 169 || c == 175))
    || (a == 226 && b == 129 && c == 159)
    || (a == 227 && b == 128 && c == 128)

-- Without the white space in front, by tests of the encodings of two and three bytes.
unfoldable trim_front : (ℕ → ℕ → Bool) → (ℕ → ℕ → ℕ → Bool) → Bytes → Bytes
unfolding is_space
trim_front two three [] = []
trim_front two three (a ∷ []) = if is_space a then [] else a ∷ []
trim_front two three (a ∷ b ∷ []) = elim (is_space a) [
  | true ↦ trim_front two three (b ∷ [])
  | false ↦ if two a b then [] else a ∷ b ∷ []
]
trim_front two three (a ∷ b ∷ c ∷ s) = elim (is_space a) [
  | true ↦ trim_front two three (b ∷ c ∷ s)
  | false ↦ elim (two a b) [
    | true ↦ trim_front two three (c ∷ s)
    | false ↦ elim (three a b c) [ true ↦ trim_front two three s | false ↦ a ∷ b ∷ c ∷ s ]
  ]
]

-- `strings.TrimSpace`; from behind, the encodings are read backwards.
unfoldable pub trim_space : Bytes → Bytes
unfolding trim_front is_space2 is_space3
trim_space s =
    let rest = trim_front is_space2 is_space3 s in
    reverse (trim_front (λ a b. is_space2 b a) (λ a b c. is_space3 c b a) (reverse rest))

-- Membership in a set of strings (a Go `map[string]bool`).
unfoldable pub elem : Bytes → List Bytes → Bool
unfolding bytes_eq
elem s [] = false
elem s (t ∷ ts) = bytes_eq t s || elem s ts

pub elem-append : (s : Bytes) (xs ys : List Bytes) → elem s (xs ++ ys) ≡ (elem s xs || elem s ys)
unfolding elem
elem-append s [] ys = refl
elem-append s (x ∷ xs) ys = ground (arith, elem-append s xs ys)
