-- ===== src/FilePath.antt =====
-- The part of Go's path/filepath (Unix) that the program calls: `Clean`, `Dir`, `Join`, `IsAbs`.
pub mod Clean
pub mod Shorter
pub mod Absolute
pub mod Match
use mathlib.Core.List.{reverse}
use temenos.Base.{
  ℕ, ◌≡◌, Bool, true, false, ◌||◌, List, [], ◌∷◌, ◌++◌, ◌==◌, if◌then◌else◌, Bytes, codes, bytes_eq,
  is_empty, split_on, join,
}

abbrev pub slash : ℕ
slash = b'/'

unfoldable pub is_abs : Bytes → Bool
is_abs [] = false
is_abs (c ∷ s) = c == slash

-- `..` takes the last component away; at the top of a relative path it stays.
unfoldable pub climb : Bool → List Bytes → List Bytes
unfolding bytes_eq
climb rooted [] = if rooted then [] else codes ".." ∷ []
climb rooted (top ∷ stack) = if bytes_eq top (codes "..") then codes ".." ∷ top ∷ stack else stack

-- One component of a path; the stack has the last component first.
unfoldable pub enter : Bool → List Bytes → Bytes → List Bytes
unfolding climb bytes_eq
enter rooted stack part =
    if is_empty part || bytes_eq part (codes ".")
    then stack
    else if bytes_eq part (codes "..")
    then climb rooted stack
    else part ∷ stack

unfoldable pub resolve : Bool → List Bytes → List Bytes → List Bytes
unfolding enter
resolve rooted stack [] = stack
resolve rooted stack (part ∷ parts) = resolve rooted (enter rooted stack part) parts

unfoldable pub print : Bool → List Bytes → Bytes
unfolding join
print true parts = slash ∷ join slash parts
print false [] = codes "."
print false (part ∷ parts) = join slash (part ∷ parts)

-- `filepath.Clean`
unfoldable pub clean : Bytes → Bytes
unfolding print resolve split_on is_abs
clean p = print (is_abs p) (reverse (resolve (is_abs p) [] (split_on slash p)))

-- The path up to its last slash, which it includes.
unfoldable pub up_to_slash : Bytes → Bytes
up_to_slash [] = []
up_to_slash (c ∷ s) =
    let rest = up_to_slash s in
    if c == slash then c ∷ rest else if is_empty rest then [] else c ∷ rest

-- `filepath.Dir`
unfoldable pub dir : Bytes → Bytes
unfolding clean up_to_slash
dir p = clean (up_to_slash p)

abbrev drop_empty : List Bytes → List Bytes
drop_empty [] = []
drop_empty (p ∷ ps) = if is_empty p then drop_empty ps else p ∷ drop_empty ps

abbrev join_some : List Bytes → Bytes
unfolding clean join
join_some [] = []
join_some (p ∷ ps) = clean (join slash (p ∷ ps))

-- `filepath.Join`: empty elements are dropped, and the empty path stays empty.
unfoldable pub join_path : List Bytes → Bytes
unfolding clean join
join_path elems = join_some (drop_empty elems)
