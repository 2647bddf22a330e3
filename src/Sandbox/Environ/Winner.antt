-- ===== src/Sandbox/Environ/Winner.antt =====
-- Which value of a variable a sandboxed process sees.
use temenos.Base.{
  ◌≡◌, refl, inl, inr, Bool, true, false, Option, none, some, List, [], ◌∷◌, ◌++◌, if◌then◌else◌,
  Bytes, codes, has_prefix, cut_prefix, arith, Bool-cases, Option-cases,
}
use temenos.Sandbox.Environ.{build_env, env_contains_key, first_given}

abbrev pub or_else : Option Bytes → Option Bytes → Option Bytes
or_else none o = o
or_else (some v) o = some v

-- Package os/exec passes the last entry of a key on.
unfoldable pub winner : Bytes → List Bytes → Option Bytes
unfolding cut_prefix
winner key [] = none
winner key (e ∷ env) = or_else (winner key env) (cut_prefix (key ++ codes "=") e)

cut_prefix_iff :
    (p s : Bytes) → has_prefix p s ≡ (elim (cut_prefix p s) [ none ↦ false | some _ ↦ true ])
unfolding has_prefix cut_prefix
cut_prefix_iff [] s = refl
cut_prefix_iff (a ∷ p) [] = refl
cut_prefix_iff (a ∷ p) (b ∷ s) = ground (arith, cut_prefix_iff p s)

cut_prefix-append : (p s : Bytes) → cut_prefix p (p ++ s) ≡ some s
unfolding cut_prefix
cut_prefix-append [] s = refl
cut_prefix-append (a ∷ p) s = ground (arith, cut_prefix-append p s)

winner_absent :
    (key : Bytes) (env : List Bytes) → env_contains_key env key ≡ false → winner key env ≡ none
unfolding winner env_contains_key
winner_absent key [] h = refl
winner_absent key (e ∷ env) h =
    ground (arith, winner_absent key env, cut_prefix_iff (key ++ codes "=") e)

winner_present :
    (key : Bytes) (env : List Bytes)
    → env_contains_key env key ≡ true
    → (v : Bytes) × (winner key env ≡ some v)
unfolding winner env_contains_key
winner_present key [] h = cc
winner_present key (e ∷ env) h = elim (Option-cases (winner key env)) [
  | inr (v, later) ↦ (v, rw later)
  | inl none_later ↦ elim (Option-cases (cut_prefix (key ++ codes "=") e)) [
    | inr (v, here) ↦ (v, rw (none_later, here))
    | inl miss ↦
        let (v, later) =
          winner_present key env (ground (arith, cut_prefix_iff (key ++ codes "=") e)) in
        (v, rw later)
  ]
]

path_kept :
    (search_path : Bytes) (env : List Bytes) (b : Bool) (home : Bytes)
    → winner (codes "PATH") env ≡ none
    → winner (codes "PATH") (
        if b
        then (codes "PATH=" ++ search_path) ∷ (codes "HOME=" ++ home) ∷ env
        else (codes "PATH=" ++ search_path) ∷ env)
      ≡ some search_path
unfolding winner
path_kept search_path env true home h = rw h
path_kept search_path env false home h = rw h

-- The process sees the sandbox's search path, if no entry of the caller sets PATH.
pub winner-path :
    (search_path fallback_home : Bytes) (cfg_env : List Bytes)
    → env_contains_key cfg_env (codes "PATH") ≡ false
    → winner (codes "PATH") (build_env search_path cfg_env fallback_home) ≡ some search_path
unfolding build_env
winner-path search_path fallback_home cfg_env h =
    path_kept search_path (codes "TERM=dumb" ∷ codes "GOTELEMETRY=off" ∷ cfg_env) _ _
      (unfold winner in rw (winner_absent (codes "PATH") cfg_env h))

-- The process sees the caller's HOME, and the fallback or `/home/agent` exactly if the caller
-- gives none.
winner-home :
    (search_path fallback_home : Bytes) (cfg_env : List Bytes)
    → winner (codes "HOME") (build_env search_path cfg_env fallback_home)
      ≡ or_else
          (winner (codes "HOME") cfg_env)
          (some (first_given fallback_home (codes "/home/agent")))
unfolding build_env
winner-home search_path fallback_home cfg_env =
    elim (Bool-cases (env_contains_key cfg_env (codes "HOME"))) [
      | inl given ↦
          let (v, found) = winner_present (codes "HOME") cfg_env given in
          unfold env_contains_key winner in rw (given, found)
      | inr missing ↦
          let absent = winner_absent (codes "HOME") cfg_env missing in
          unfold env_contains_key winner in rw (missing, absent)
    ]
