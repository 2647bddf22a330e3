-- ===== src/Daemon/Request/Environment.antt =====
-- internal/daemon/handler.go, sandbox/sandbox.go: which environment a request can give to the
-- sandboxed process.
use temenos.Base.{
  ℕ, ◌≡◌, refl, ap, ◌∙◌, Bool, true, false, ◌↔◌, ◌≢◌, ◌⊎◌, Option, none, some, List, [], ◌∷◌, ◌++◌,
  Bytes, codes, bytes_eq, has_prefix, any, All, ok, arith,
}
use temenos.Base.Assoc.{lookup}
use temenos.Sandbox.Config.{Config, filter_env, matches_any}
use temenos.Sandbox.Config.Filter.{filter_env_lem, All-filter_env, injected_keys_not_in_baseline}
use temenos.Sandbox.Environ.{build_env, env_contains_key}
use temenos.Sandbox.Environ.Winner.{winner, winner-path}
use temenos.Daemon.Request.{
  is_alpha, is_digit, is_name_tail, is_valid_env_name, is_control, validate_env, env_map_to_slice,
}

-- A letter or an underscore, which a POSIX name starts with; digits may follow.
abbrev pub IsFirstByte : ℕ → Type 0
IsFirstByte c = (is_alpha c ≡ true) ⊎ (c ≡ b'_')

abbrev pub IsNameByte : ℕ → Type 0
IsNameByte c = IsFirstByte c ⊎ (is_digit c ≡ true)

abbrev pub IsName : Bytes → Type 0
IsName [] = ⊥
IsName (c ∷ s) = IsFirstByte c × All IsNameByte s

is_name_tail_iff : (s : Bytes) → (is_name_tail s ≡ true) ↔ All IsNameByte s
unfolding is_name_tail
is_name_tail_iff [] = (λ h. tt, λ h. refl)
is_name_tail_iff (c ∷ s) =
    let (there, back) = is_name_tail_iff s in
    (λ h. (ground arith, there (ground arith)), λ h. ground (arith, back h.1))

is_valid_env_name_iff : (s : Bytes) → (is_valid_env_name s ≡ true) ↔ IsName s
unfolding is_valid_env_name
is_valid_env_name_iff [] = (λ h. cc, λ h. absurd h)
is_valid_env_name_iff (c ∷ s) =
    let (there, back) = is_name_tail_iff s in
    (λ h. (ground arith, there (ground arith)), λ h. ground (arith, back h.1))

-- A value without NUL, LF and CR.
abbrev pub IsText : Bytes → Type 0
IsText value = All (λ c. (c ≢ 0) × (c ≢ 10) × (c ≢ 13)) value

any-is_control_iff : (s : Bytes) → (any is_control s ≡ false) ↔ IsText s
any-is_control_iff [] = (λ h. tt, λ h. refl)
any-is_control_iff (c ∷ s) =
    let (there, back) = any-is_control_iff s in
    (
      λ h. ((ground arith, ground arith, ground arith), there (ground arith)),
      λ h. ground (arith, back h.1),
    )

abbrev pub IsEntry : (Bytes × Bytes) → Type 0
IsEntry (key, value) = IsName key × IsText value

-- `validateEnv` accepts exactly the variables whose names are POSIX names and whose values hold
-- neither NUL nor LF nor CR.
pub validate_env_iff : (env : List (Bytes × Bytes)) → (validate_env env ≡ ok tt) ↔ All IsEntry env
unfolding validate_env
validate_env_iff [] = (λ h. tt, λ h. refl)
validate_env_iff ((key, value) ∷ env) =
    let (there, back) = validate_env_iff env in
    let (name, of_name) = is_valid_env_name_iff key in
    let (text, of_text) = any-is_control_iff value in
    (
      λ h. ((name (ground arith), text (ground arith)), there (ground arith)),
      λ h. ground (arith, back h.1, of_name h.0.0, of_text h.0.1),
    )

-- A string without `=`.
abbrev NoEquals : Bytes → Type 0
NoEquals s = All (λ c. c ≢ b'=') s

All-IsNameByte-NoEquals : (s : Bytes) → All IsNameByte s → NoEquals s
unfolding is_alpha is_digit
All-IsNameByte-NoEquals [] h = tt
All-IsNameByte-NoEquals (c ∷ s) (n, h) = (λ e. ground arith, All-IsNameByte-NoEquals s h)

IsName-NoEquals : (s : Bytes) → IsName s → NoEquals s
unfolding is_alpha
IsName-NoEquals [] h = tt
IsName-NoEquals (c ∷ s) (n, h) = (λ e. ground arith, All-IsNameByte-NoEquals s h)

-- An entry sets the key that stands in front of its first `=`.
has_prefix-entry :
    (key k v : Bytes)
    → NoEquals key
    → NoEquals k
    → has_prefix (key ++ codes "=") (k ++ codes "=" ++ v) ≡ bytes_eq k key
unfolding has_prefix bytes_eq
has_prefix-entry [] [] v h g = refl
has_prefix-entry [] (c ∷ k) v h (n, g) = ground arith
has_prefix-entry (a ∷ key) [] v (n, h) g = ground arith
has_prefix-entry (a ∷ key) (c ∷ k) v (n, h) (m, g) = ground (arith, has_prefix-entry key k v h g)

abbrev is_set : Option Bytes → Bool
is_set none = false
is_set (some v) = true

env_contains_key-env_map_to_slice :
    (key : Bytes) (env : List (Bytes × Bytes))
    → NoEquals key
    → All IsEntry env
    → env_contains_key (env_map_to_slice env) key ≡ is_set (lookup key env)
unfolding env_contains_key env_map_to_slice lookup
env_contains_key-env_map_to_slice key [] h g = refl
env_contains_key-env_map_to_slice key ((k, v) ∷ env) h ((name, text), g) = ground (
  arith,
  has_prefix-entry key k v h (IsName-NoEquals k name),
  env_contains_key-env_map_to_slice key env h g,
)

-- Whatever valid environment a request carries, the process searches the sandbox's own path, as long
-- as no pattern of the operator lets the key PATH through.
pub request_cannot_set_path :
    (c : Config) (env : List (Bytes × Bytes)) (search_path fallback_home : Bytes)
    → validate_env env ≡ ok tt
    → matches_any c.allow_env (codes "PATH") ≡ false
    → winner
        (codes "PATH")
        (build_env search_path (env_map_to_slice (filter_env c env).0) fallback_home)
      ≡ some search_path
request_cannot_set_path c env search_path fallback_home valid closed =
    let entries = (validate_env_iff env).0 valid in
    let kept = All-filter_env IsEntry c env entries in
    let passed = ((filter_env_lem c env).0 (codes "PATH")).0 in
    let gone : lookup (codes "PATH") (filter_env c env).0 ≡ none =
      rw (injected_keys_not_in_baseline.0, closed) at passed in
    winner-path search_path fallback_home (env_map_to_slice (filter_env c env).0) (
      env_contains_key-env_map_to_slice (codes "PATH") (filter_env c env).0
        (omega arith, (omega arith, (omega arith, (omega arith, tt)))) kept
      ∙ ap is_set gone)
