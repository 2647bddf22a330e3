-- ===== src/Examples/Sandboxes.antt =====
-- sandbox: mounts, the configuration, and the environment of a process.
use temenos.Base.{
  arith, ◌+◌, ◌≡◌, refl, ◌⊎◌, true, false, not, ◌&&◌, ◌||◌, none, some, List, [], ◌∷◌, ◌++◌, map,
  All, Bytes, codes, elem, length, split_on, if◌then◌else◌,
}
use temenos.Base.Assoc.{lookup}
use temenos.Base.Int.{pos}
use temenos.Base.Sort.{IsSorted}
use temenos.Sandbox.Mounts.{Mount, source_of, ancestor_mount, add_ancestor_mounts}
use temenos.Sandbox.Mounts.Added.{AreFresh, add_ancestor_mounts-AreFresh}
use temenos.Sandbox.Mounts.Parents.{is_explicit, HasParent, add_ancestor_mounts-HasParent}
use temenos.Sandbox.Config.{
  Config, Host, zero_config, filter_env, matches_any, baseline_allow_env, load, absent, present,
}
use temenos.Sandbox.Config.Filter.{filter_env_lem, keys}
use temenos.Sandbox.Config.Loading.{IsUsable, load-IsUsable}
use temenos.Sandbox.ToolPaths.{build_sandbox_path, all_tool_dirs, bin_dir_of}
use temenos.Sandbox.ToolPaths.SearchPath.{IsUsed, split_on-build_sandbox_path}
use temenos.Sandbox.Environ.{build_env}
use temenos.Sandbox.Environ.Winner.{winner, winner-path}

abbrev mounts : List Mount
mounts =
    record {
      source = codes "/h/u/w";
      target = codes "/h/u/w";
      read_only = false;
      metadata_only = false;
    }
    ∷ []

add_ancestor_mounts-AreFresh_example :
    (added : List Bytes) × (add_ancestor_mounts mounts ≡ mounts ++ map ancestor_mount added)
    × AreFresh (map source_of mounts) added
add_ancestor_mounts-AreFresh_example = add_ancestor_mounts-AreFresh mounts

add_ancestor_mounts-HasParent_example :
    (is_explicit (codes "/h/u") mounts ≡ true)
    ⊎ HasParent (codes "/h/u") (map source_of (add_ancestor_mounts mounts))
unfolding add_ancestor_mounts elem
add_ancestor_mounts-HasParent_example = add_ancestor_mounts-HasParent mounts (codes "/h/u") refl

abbrev operator : Config
unfolding zero_config
operator = record zero_config { allow_env = codes "MY_*" ∷ [] }

abbrev variables : List (Bytes × Bytes)
variables =
    (codes "MY_X", codes "1") ∷ (codes "SECRET", codes "s") ∷ (codes "HOME", codes "/h/u") ∷ []

filter_env_lem_example :
    ((k : Bytes)
      → let passes = matches_any baseline_allow_env k || matches_any operator.allow_env k in
        (lookup k (filter_env operator variables).0 ≡ (if passes then lookup k variables else none))
        × (elem k (filter_env operator variables).1 ≡ (not passes && elem k (keys variables))))
    × IsSorted (filter_env operator variables).1
    × (length (filter_env operator variables).0 + length (filter_env operator variables).1
        ≡ length variables)
filter_env_lem_example = filter_env_lem operator variables

-- A process with a home directory, and no configuration file.
abbrev host : Host
host = record {
  getenv = λ name. [];
  user_home_dir = some (codes "/h/u");
  current_user_home = some (codes "/h/u");
  stat = λ path. absent;
  decode_toml = λ text. none;
}

abbrev defaults : Config
unfolding zero_config
defaults = record zero_config {
  auto_background_after = pos 30;
  socket_path = codes "/h/u/.temenos/daemon.sock";
}

load-IsUsable_example : IsUsable defaults
unfolding load defaults
load-IsUsable_example = load-IsUsable host [] defaults refl

-- The same process where every path exists.
abbrev furnished : Host
furnished = record host { stat = λ path. present }

split_on-build_sandbox_path_example :
    (split_on b':' (build_sandbox_path furnished false)
      ≡ codes "/usr/bin"
        ∷ codes "/usr/local/bin"
        ∷ codes "/bin"
        ∷ map bin_dir_of (all_tool_dirs furnished false))
    × All (IsUsed furnished) (all_tool_dirs furnished false)
split_on-build_sandbox_path_example =
    split_on-build_sandbox_path furnished false (unfold all_tool_dirs in omega arith)

winner-path_example :
    winner (codes "PATH") (build_env (codes "/bin") (codes "MY_X=1" ∷ []) []) ≡ some (codes "/bin")
winner-path_example = winner-path (codes "/bin") [] (codes "MY_X=1" ∷ []) (unfold build_env in refl)
