-- ===== src/Daemon/Jobs/Ids.antt =====
-- internal/daemon/jobs.go: job identifiers, `fmt.Sprintf("%06x", seq)`, and that no two are alike.
use mathlib.Core.Path.{ap₂}
use mathlib.Core.List.{reverse, reverse-cons, reverse-reverse}
use temenos.Base.{
  ℕ, zero, suc, ◌+◌, ◌-◌, ◌*◌, ◌/◌, ◌%◌, ◌<◌, ◌≡◌, refl, ap, sym, ◌∙◌, List, [], ◌∷◌, ◌++◌, map,
  Bytes, codes, ltb, ◌==◌, if◌then◌else◌, arith, false, is_empty,
}

-- Hexadecimal digits, the lowest first; sixteen are enough for 64 bits.
hex_digits : ℕ → ℕ → List ℕ
hex_digits zero n = []
hex_digits (suc k) n =
    let more = hex_digits k (n / 16) in (n % 16) ∷ (if n / 16 == 0 then [] else more)

-- Zeros behind the highest digit, up to a width.
pad_to : ℕ → List ℕ → List ℕ
pad_to zero ds = ds
pad_to (suc w) [] = 0 ∷ pad_to w []
pad_to (suc w) (d ∷ ds) = d ∷ pad_to w ds

hex_char : ℕ → ℕ
hex_char d = if ltb d 10 then 48 + d else 87 + d

unfoldable pub job_id : ℕ → Bytes
unfolding hex_digits pad_to hex_char
job_id seq = map hex_char (reverse (pad_to 6 (hex_digits 16 seq)))

first_id : job_id 1 ≡ codes "000001"
unfolding job_id
first_id = refl

later_id : job_id 0xabcdef12 ≡ codes "abcdef12"
unfolding job_id
later_id = refl

abbrev value : List ℕ → ℕ
value [] = 0
value (d ∷ ds) = d + 16 * value ds

abbrev limit : ℕ → ℕ
limit zero = 1
limit (suc k) = 16 * limit k

value-hex_digits : (k n : ℕ) → n < limit k → value (hex_digits k n) ≡ n
unfolding hex_digits
value-hex_digits zero n h = omega arith
value-hex_digits (suc k) n h = ground (arith, value-hex_digits k (n / 16))

value-pad_to : (w : ℕ) (ds : List ℕ) → value (pad_to w ds) ≡ value ds
unfolding pad_to
value-pad_to zero ds = refl
value-pad_to (suc w) [] = omega (arith, value-pad_to w [])
value-pad_to (suc w) (d ∷ ds) = omega (arith, value-pad_to w ds)

abbrev char_value : ℕ → ℕ
char_value c = if ltb c 58 then c - 48 else c - 87

char_value-hex_char : (d : ℕ) → char_value (hex_char d) ≡ d
unfolding hex_char
char_value-hex_char d = ground arith

map-char_value : (ds : List ℕ) → map char_value (map hex_char ds) ≡ ds
map-char_value [] = refl
map-char_value (d ∷ ds) = ap₂ (λ c cs. c ∷ cs) (char_value-hex_char d) (map-char_value ds)

-- The number that an identifier is read back to.
abbrev read_id : Bytes → ℕ
read_id s = value (reverse (map char_value s))

read_id-job_id : (seq : ℕ) → seq < 18446744073709551616 → read_id (job_id seq) ≡ seq
unfolding job_id
read_id-job_id seq h = rw (map-char_value (reverse (pad_to 6 (hex_digits 16 seq)))) (
    rw (reverse-reverse (pad_to 6 (hex_digits 16 seq)))
      (value-pad_to 6 (hex_digits 16 seq) ∙ value-hex_digits 16 seq h))

-- Two jobs with different 64-bit numbers have different identifiers.
pub job_id_injective :
    (a b : ℕ) → a < 18446744073709551616 → b < 18446744073709551616 → job_id a ≡ job_id b → a ≡ b
job_id_injective a b ha hb e = sym (read_id-job_id a ha) ∙ ap read_id e ∙ read_id-job_id b hb

is_empty-map-append : (xs : List ℕ) (x : ℕ) → is_empty (map hex_char (xs ++ x ∷ [])) ≡ false
is_empty-map-append [] x = refl
is_empty-map-append (y ∷ xs) x = refl

is_empty-map-reverse : (x : ℕ) (xs : List ℕ) → is_empty (map hex_char (reverse (x ∷ xs))) ≡ false
is_empty-map-reverse x xs = rw (reverse-cons x xs) (is_empty-map-append (reverse xs) x)

-- No identifier is the empty string.
pub is_empty-job_id : (seq : ℕ) → is_empty (job_id seq) ≡ false
unfolding job_id
is_empty-job_id seq = padded (hex_digits 16 seq)
  where
    padded : (ds : List ℕ) → is_empty (map hex_char (reverse (pad_to 6 ds))) ≡ false
    padded [] = refl
    padded (d ∷ ds) = is_empty-map-reverse d (pad_to 5 ds)
