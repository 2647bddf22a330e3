-- ===== src/Sandbox/Environ.antt =====
-- sandbox/sandbox.go: the environment of a sandboxed process.
pub mod Winner
use temenos.Base.{
  Bool, true, false, not, ◌&&◌, ◌||◌, List, [], ◌∷◌, ◌++◌, if◌then◌else◌, Bytes, codes, is_empty,
  has_prefix,
}

-- `cmp.Or(s, t)` on strings.
abbrev pub first_given : Bytes → Bytes → Bytes
first_given s t = if is_empty s then t else s

unfoldable pub env_contains_key : List Bytes → Bytes → Bool
unfolding has_prefix
env_contains_key [] key = false
env_contains_key (e ∷ env) key =
    if has_prefix (key ++ codes "=") e then true else env_contains_key env key

abbrev tail_of : List Bytes → List Bytes
tail_of [] = []
tail_of (_ ∷ xs) = xs

-- `buildEnv`; the search path is what `buildSandboxPATH` returns, and a missing `cfg` has no `Env`.
unfoldable pub build_env : Bytes → List Bytes → Bytes → List Bytes
unfolding env_contains_key
build_env search_path cfg_env fallback_home =
    let path_entry = codes "PATH=" ++ search_path in
    let rest = codes "TERM=dumb" ∷ codes "GOTELEMETRY=off" ∷ cfg_env in
    if not (env_contains_key (path_entry ∷ rest) (codes "HOME"))
    then path_entry ∷ (codes "HOME=" ++ first_given fallback_home (codes "/home/agent")) ∷ rest
    else path_entry ∷ rest
