-- ===== src/Daemon/Request.antt =====
-- internal/daemon/handler.go: from a run request to what the sandbox is asked to execute.
pub mod Environment
pub mod Directories
use temenos.Base.{
  ℕ, Bool, true, false, not, ◌&&◌, ◌||◌, List, [], ◌∷◌, ◌++◌, leb, ◌==◌, if◌then◌else◌, Bytes,
  codes, any, Result, ok, err,
}
use temenos.Base.Int.{ℤ}
use temenos.FilePath.{clean, is_abs}
use temenos.Sandbox.Mounts.{Mount, add_ancestor_mounts}

pub record AllowedPath : Type 0 where
  pub path : Bytes
  pub read_only : Bool
  pub metadata_only : Bool

-- `RunRequest`; nothing reads `Network`.
pub record RunRequest : Type 0 where
  pub command : Bytes
  pub env : List (Bytes × Bytes)
  pub allowed_paths : List AllowedPath
  pub timeout : ℤ
  pub caller_id : Bytes
  pub auth_token : Bytes

-- `validation` is an error that wraps `errHTTPValidation`, which `validateEnv` does not.
pub data RequestError : Type 0 where
  validation : Bytes → RequestError
  invalid_name invalid_value : Bytes → RequestError

unfoldable pub validate_path : Bytes → Result RequestError (Unit {0})
unfolding clean is_abs
validate_path p = if not (is_abs (clean p)) then err (validation p) else ok tt

-- The loop of `buildMounts`.
unfoldable pub append_paths : List Mount → List AllowedPath → Result RequestError (List Mount)
unfolding validate_path clean
append_paths mounts [] = ok mounts
append_paths mounts (ap ∷ paths) = elim (validate_path ap.path) [
  | err e ↦ err e
  | ok _ ↦
      append_paths
        (mounts
          ++ record {
            source = clean ap.path;
            target = clean ap.path;
            read_only = ap.read_only;
            metadata_only = ap.metadata_only;
          }
            ∷ [])
        paths
]

unfoldable pub build_mounts : List Mount → List AllowedPath → Result RequestError (List Mount)
unfolding append_paths add_ancestor_mounts
build_mounts baseline paths = elim (append_paths baseline paths) [
  | err e ↦ err e
  | ok mounts ↦ ok (add_ancestor_mounts mounts)
]

-- `sandbox.ExecConfig`
pub record ExecConfig : Type 0 where
  pub env : List Bytes
  pub working_dir : Bytes
  pub mount_dirs : List Mount

abbrev pub working_dir_of : Bytes → List AllowedPath → Bytes
unfolding clean
working_dir_of temp_dir [] = temp_dir
working_dir_of temp_dir (ap ∷ paths) = clean ap.path

-- `buildExecConfig`; `temp_dir` is `os.TempDir()`.
unfoldable pub build_exec_config : Bytes → List Bytes → List Mount → List AllowedPath → ExecConfig
unfolding clean
build_exec_config temp_dir env mounts paths = record {
  env = env;
  working_dir = working_dir_of temp_dir paths;
  mount_dirs = mounts;
}

unfoldable pub is_alpha : ℕ → Bool
is_alpha c = (leb b'A' c && leb c b'Z') || (leb b'a' c && leb c b'z')

unfoldable pub is_digit : ℕ → Bool
is_digit c = leb b'0' c && leb c b'9'

-- The loop of `isValidEnvName`.
unfoldable pub is_name_tail : Bytes → Bool
unfolding is_alpha is_digit
is_name_tail [] = true
is_name_tail (c ∷ s) =
    if not (is_alpha c) && not (is_digit c) && not (c == b'_') then false else is_name_tail s

unfoldable pub is_valid_env_name : Bytes → Bool
unfolding is_alpha is_name_tail
is_valid_env_name [] = false
is_valid_env_name (c ∷ s) = if not (is_alpha c) && not (c == b'_') then false else is_name_tail s

-- `strings.ContainsAny(val, "\x00\n\r")`
abbrev pub is_control : ℕ → Bool
is_control c = c == 0 || c == 10 || c == 13

unfoldable pub validate_env : List (Bytes × Bytes) → Result RequestError (Unit {0})
unfolding is_valid_env_name
validate_env [] = ok tt
validate_env ((key, value) ∷ env) =
    if not (is_valid_env_name key)
    then err (invalid_name key)
    else if any is_control value
    then err (invalid_value key)
    else validate_env env

unfoldable pub env_map_to_slice : List (Bytes × Bytes) → List Bytes
env_map_to_slice [] = []
env_map_to_slice ((k, v) ∷ env) = (k ++ codes "=" ++ v) ∷ env_map_to_slice env
