-- ===== src/FilePath/Match.antt =====
-- Go's `filepath.Match` (Unix), for patterns and names in ASCII, where a rune is a byte.
-- A malformed pattern is an error whatever the name is, so the pattern is read first.
use temenos.Base.{
  ℕ, ◌≡◌, refl, Bool, true, false, not, ◌&&◌, ◌||◌, Option, none, some, List, [], ◌∷◌, ◌==◌, leb,
  if◌then◌else◌, Bytes, codes, is_empty,
}
use mathlib.Core.Option
use mathlib.Core.Bool.{xor}

abbrev slash : ℕ
slash = b'/'

abbrev backslash : ℕ
backslash = 92

abbrev pub Ranges : Type 0
Ranges = List (ℕ × ℕ)

pub data Test : Type 0 where
  literal : ℕ → Test
  any_byte : Test
  class : Bool → Ranges → Test

pub data Token : Type 0 where
  star : Token
  one : Test → Token

-- Where the reader stands in a pattern.
pub data Mode : Type 0 where
  outside escaped opened : Mode
  item item_escaped : Bool → Ranges → Mode
  low high high_escaped : Bool → Ranges → ℕ → Mode

pub data Move : Type 0 where
  bad : Move
  go : Mode → Move
  emit : Token → Move

-- A byte where an item of a class or its end may stand.
item_move : Bool → Ranges → ℕ → Move
item_move neg [] c =
    if c == b']' || c == b'-'
    then bad
    else if c == backslash
    then go (item_escaped neg [])
    else go (low neg [] c)
item_move neg (r ∷ rs) c =
    if c == b']'
    then emit (one (class neg (r ∷ rs)))
    else if c == b'-'
    then bad
    else if c == backslash
    then go (item_escaped neg (r ∷ rs))
    else go (low neg (r ∷ rs) c)

move : Mode → ℕ → Move
unfolding item_move
move outside c =
    if c == b'*'
    then emit star
    else if c == b'?'
    then emit (one any_byte)
    else if c == b'['
    then go opened
    else if c == backslash
    then go escaped
    else emit (one (literal c))
move escaped c = emit (one (literal c))
move opened c = if c == b'^' then go (item true []) else item_move false [] c
move (item neg rs) c = item_move neg rs c
move (item_escaped neg rs) c = go (low neg rs c)
move (low neg rs lo) c = if c == b'-' then go (high neg rs lo) else item_move neg ((lo, lo) ∷ rs) c
move (high neg rs lo) c =
    if c == b']' || c == b'-'
    then bad
    else if c == backslash
    then go (high_escaped neg rs lo)
    else go (item neg ((lo, c) ∷ rs))
move (high_escaped neg rs lo) c = go (item neg ((lo, c) ∷ rs))

abbrev is_outside : Mode → Bool
is_outside outside = true
is_outside _ = false

-- The tokens of a pattern, or nothing if it is malformed.
parse : Mode → Bytes → Option (List Token)
unfolding move
parse mode [] = if is_outside mode then some [] else none
parse mode (c ∷ s) = elim (move mode c) [
  | bad ↦ none
  | go next ↦ parse next s
  | emit t ↦ Option.map (λ ts. t ∷ ts) (parse outside s)
]

-- A chunk: whether a star stands in front, and the tests up to the next star.
abbrev Chunk : Type 0
Chunk = Bool × List Test

abbrev lead_star : List Chunk → List Chunk
lead_star [] = (true, []) ∷ []
lead_star ((_, tests) ∷ chunks) = (true, tests) ∷ chunks

abbrev lead_test : Test → List Chunk → List Chunk
lead_test t ((false, tests) ∷ chunks) = (false, t ∷ tests) ∷ chunks
lead_test t chunks = (false, t ∷ []) ∷ chunks

chunks_of : List Token → List Chunk
chunks_of [] = []
chunks_of (star ∷ ts) = lead_star (chunks_of ts)
chunks_of (one t ∷ ts) = lead_test t (chunks_of ts)

in_ranges : Ranges → ℕ → Bool
in_ranges [] c = false
in_ranges ((lo, hi) ∷ rs) c = (leb lo c && leb c hi) || in_ranges rs c

accepts : Test → ℕ → Bool
unfolding in_ranges xor
accepts (literal x) c = x == c
accepts any_byte c = not (c == slash)
accepts (class neg rs) c = xor neg (in_ranges rs c)

-- `matchChunk`: what is left of the name.
match_chunk : List Test → Bytes → Option Bytes
unfolding accepts
match_chunk [] s = some s
match_chunk (t ∷ ts) [] = none
match_chunk (t ∷ ts) (c ∷ s) = if accepts t c then match_chunk ts s else none

-- The loop that lets a star take more bytes, none of them a slash.
skip_match : List Test → Bool → Bytes → Option Bytes
unfolding match_chunk
skip_match tests last [] = none
skip_match tests last (c ∷ s) =
    let more = skip_match tests last s in
    if c == slash then none else elim (match_chunk tests s) [
      | none ↦ more
      | some rest ↦ if last && not (is_empty rest) then more else some rest
    ]

has_slash : Bytes → Bool
has_slash [] = false
has_slash (c ∷ s) = c == slash || has_slash s

abbrev is_last : List Chunk → Bool
is_last [] = true
is_last (_ ∷ _) = false

-- The rest of the name behind one chunk.
chunk_rest : Chunk → Bool → Bytes → Option Bytes
unfolding match_chunk skip_match has_slash
chunk_rest (true, []) true name = if has_slash name then none else some []
chunk_rest (starred, tests) last name =
    let more = if starred then skip_match tests last name else none in
    elim (match_chunk tests name) [
      | none ↦ more
      | some rest ↦ if is_empty rest || not last then some rest else more
    ]

match_chunks : List Chunk → Bytes → Bool
unfolding chunk_rest
match_chunks [] name = is_empty name
match_chunks (c ∷ cs) name = elim (chunk_rest c (is_last cs) name) [
  | none ↦ false
  | some rest ↦ match_chunks cs rest
]

-- `filepath.Match(pattern, name)`; nothing is `ErrBadPattern`.
unfoldable pub match : Bytes → Bytes → Option Bool
unfolding parse chunks_of match_chunks
match pattern name = Option.map (λ ts. match_chunks (chunks_of ts) name) (parse outside pattern)

tests :
    (match (codes "LC_*") (codes "LC_ALL") ≡ some true)
    × (match (codes "TTAL_*_ID") (codes "TTAL_JOB_ID") ≡ some true)
    × (match (codes "TTAL_*_ID") (codes "TTAL_JOB_IDX") ≡ some false)
    × (match (codes "[A-CX]?") (codes "Bz") ≡ some true)
    × (match (codes "[^A-C]") (codes "B") ≡ some false)
    × (match (codes "[]a]") (codes "a") ≡ none)
    × (match (codes "a[") (codes "b") ≡ none)
    × (match (codes "\\*") (codes "*") ≡ some true)
    × (match (codes "a*b*c") (codes "aXbYbZc") ≡ some true)
    × (match (codes "*") (codes "a/b") ≡ some false)
unfolding match
tests = (refl, refl, refl, refl, refl, refl, refl, refl, refl, refl)
