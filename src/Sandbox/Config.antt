-- ===== src/Sandbox/Config.antt =====
-- sandbox/config.go: the configuration, its defaults and checks, and the filter of environment keys.
pub mod Filter
pub mod Loading
use temenos.Base.{
  any, bytes_eq, ℕ, ◌≡◌, refl, Bool, true, false, not, ◌&&◌, ◌||◌, Option, none, some, List, [],
  ◌∷◌, ◌++◌, if◌then◌else◌, ◌==◌, Bytes, codes, is_empty, elem, map, Result, ok, err, ◌>>=◌,
}
use temenos.Base.Int.{ℤ, pos, is_zero}
use temenos.Base.Sort.{sort}
use temenos.FilePath.{join_path}
use temenos.FilePath.Match.{match}
use temenos.Sandbox.Mounts.{Mount}

pub record KubernetesConfig : Type 0 where
  pub enabled : Bool
  pub require_service_account : Bytes
  pub token_review_url : Bytes

pub record Config : Type 0 where
  pub allow_read : List Bytes
  pub allow_write : List Bytes
  pub allow_env : List Bytes
  pub auto_background_after : ℤ
  pub socket_path : Bytes
  pub kubernetes : KubernetesConfig

abbrev pub default_auto_background_after : ℤ
default_auto_background_after = pos 30

-- `&Config{}`
unfoldable pub zero_config : Config
zero_config = record {
  allow_read = [];
  allow_write = [];
  allow_env = [];
  auto_background_after = pos 0;
  socket_path = [];
  kubernetes = record { enabled = false; require_service_account = []; token_review_url = [] };
}

-- What `os.Stat` says of a path.
pub data FileStat : Type 0 where
  present absent unreadable : FileStat

-- The process's surroundings that the configuration depends on: variables (an unset one is empty),
-- the two ways to the home directory, files, and the TOML decoder, which is not part of the
-- repository.
pub record Host : Type 0 where
  pub getenv : Bytes → Bytes
  pub user_home_dir : Option Bytes
  pub current_user_home : Option Bytes
  pub stat : Bytes → FileStat
  pub decode_toml : Bytes → Option Config

pub data ConfigError : Type 0 where
  no_home_dir no_current_user stat_failed decode_failed service_account_required : ConfigError
  allow_read_path allow_write_path : Bytes → ConfigError
  malformed_pattern : Bytes → ConfigError

abbrev pub or_error : Option Bytes → ConfigError → Result ConfigError Bytes
or_error none e = err e
or_error (some s) e = ok s

module _ (host : Host) where
  unfoldable pub default_config_path : Result ConfigError Bytes
  unfolding join_path
  default_config_path =
      let path = host.getenv (codes "TEMENOS_CONFIG_PATH") in
      let in_home = or_error host.user_home_dir no_home_dir >>= λ home.
      ok (join_path (home ∷ codes ".config" ∷ codes "temenos" ∷ codes "config.toml" ∷ [])) in
      if not (is_empty path) then ok path else in_home

  unfoldable pub expand_home : Bytes → Result ConfigError Bytes
  unfolding join_path
  expand_home [] = ok []
  expand_home (c ∷ s) =
      let in_home = or_error host.current_user_home no_current_user >>= λ home.
      ok (join_path (home ∷ s ∷ [])) in
      if c == b'~' then in_home else ok (c ∷ s)

  unfoldable pub default_config : Result ConfigError Config
  unfolding expand_home zero_config
  default_config = do
    socket_path ← expand_home (codes "~/.temenos/daemon.sock")
    ok (record zero_config {
      auto_background_after = default_auto_background_after;
      socket_path = socket_path;
    })

  abbrev pub default_socket : Bytes → Result ConfigError Bytes
  unfolding expand_home
  default_socket [] = expand_home (codes "~/.temenos/daemon.sock")
  default_socket (c ∷ s) = ok (c ∷ s)

  abbrev pub default_url : Bytes → Bytes
  default_url [] = codes "https://kubernetes.default.svc"
  default_url (c ∷ s) = c ∷ s

  unfoldable pub apply_defaults : Config → Result ConfigError Config
  unfolding expand_home
  apply_defaults c = do
    socket_path ← default_socket c.socket_path
    ok (record c {
      auto_background_after =
          if is_zero c.auto_background_after
          then default_auto_background_after
          else c.auto_background_after;
      socket_path = socket_path;
      kubernetes = record (c.kubernetes) {
        token_review_url = default_url c.kubernetes.token_review_url;
      };
    })

  -- `expandSlice`; the error names the path.
  unfoldable pub expand_slice : (Bytes → ConfigError) → List Bytes → Result ConfigError (List Bytes)
  unfolding expand_home
  expand_slice wrap [] = ok []
  expand_slice wrap (p ∷ ps) =
      let rest = expand_slice wrap ps in
      elim (expand_home p) [
        | err e ↦ err (wrap p)
        | ok expanded ↦ rest >>= λ more. ok (expanded ∷ more)
      ]

unfoldable pub validate_allow_env : List Bytes → Result ConfigError (Unit {0})
unfolding match
validate_allow_env [] = ok tt
validate_allow_env (pattern ∷ patterns) = elim (match pattern []) [
  | none ↦ err (malformed_pattern pattern)
  | some _ ↦ validate_allow_env patterns
]

abbrev pub require_account : KubernetesConfig → Result ConfigError (Unit {0})
require_account k =
    if k.enabled && is_empty k.require_service_account then err service_account_required else ok tt

module _ (host : Host) where
  -- `Load` from the decoded file on.
  unfoldable pub prepare : Config → Result ConfigError Config
  unfolding apply_defaults expand_slice expand_home validate_allow_env
  prepare decoded = do
    cfg ← apply_defaults host decoded
    allow_read ← expand_slice host allow_read_path cfg.allow_read
    allow_write ← expand_slice host allow_write_path cfg.allow_write
    socket_path ← expand_home host cfg.socket_path
    _ ← validate_allow_env cfg.allow_env
    _ ← require_account cfg.kubernetes
    ok (record cfg {
      allow_read = allow_read;
      allow_write = allow_write;
      socket_path = socket_path;
    })

  unfoldable pub decode_file : Bytes → Result ConfigError Config
  unfolding prepare
  decode_file path = elim (host.decode_toml path) [
    | none ↦ err decode_failed
    | some decoded ↦ prepare decoded
  ]

  unfoldable pub load_file : Bytes → Result ConfigError Config
  unfolding default_config decode_file
  load_file path = elim (host.stat path) [
    | absent ↦ default_config host
    | unreadable ↦ err stat_failed
    | present ↦ decode_file path
  ]

  unfoldable pub load : Bytes → Result ConfigError Config
  unfolding default_config_path load_file
  load [] = do path ← default_config_path host; load_file path
  load (c ∷ path) = load_file (c ∷ path)

-- `BaselineMounts`
abbrev pub baseline_mount : Bool → Bytes → Mount
baseline_mount read_only p = record {
  source = p;
  target = p;
  read_only = read_only;
  metadata_only = false;
}

unfoldable pub baseline_mounts : Config → List Mount
baseline_mounts c =
    map (baseline_mount true) c.allow_read ++ map (baseline_mount false) c.allow_write

unfoldable pub baseline_allow_env : List Bytes
baseline_allow_env =
    codes "USER"
    ∷ codes "LOGNAME"
    ∷ codes "LANG"
    ∷ codes "LC_*"
    ∷ codes "TZ"
    ∷ codes "HOME"
    ∷ codes "PWD"
    ∷ codes "TMPDIR"
    ∷ codes "SHELL"
    ∷ codes "COLUMNS"
    ∷ codes "LINES"
    ∷ codes "DEBUG"
    ∷ codes "CI"
    ∷ codes "NO_COLOR"
    ∷ codes "FORCE_COLOR"
    ∷ codes "TMUX"
    ∷ codes "TMUX_PANE"
    ∷ []

-- The check that runs when the package is loaded: whether it panics.
unfoldable pub init_panics : List Bytes → Bool
unfolding bytes_eq
init_panics patterns =
    any
      (λ p.
        bytes_eq p (codes "PATH") || bytes_eq p (codes "TERM") || bytes_eq p (codes "GOTELEMETRY"))
      patterns

-- It does not.
init_panics-baseline_allow_env : init_panics baseline_allow_env ≡ false
unfolding init_panics baseline_allow_env
init_panics-baseline_allow_env = refl

-- One of the two loops; the keys of `seen` are the patterns of `out`.
unfoldable pub add_unseen : List Bytes → List Bytes → List Bytes
unfolding elem
add_unseen out [] = out
add_unseen out (p ∷ ps) = add_unseen (if elem p out then out else out ++ p ∷ []) ps

unfoldable pub effective_allow_env : Config → List Bytes
unfolding add_unseen baseline_allow_env
effective_allow_env c = add_unseen (add_unseen [] baseline_allow_env) c.allow_env

abbrev pub is_hit : Option Bool → Bool
is_hit none = false
is_hit (some b) = b

-- The inner loop of `FilterEnv`.
unfoldable pub matches_any : List Bytes → Bytes → Bool
unfolding match
matches_any [] key = false
matches_any (pattern ∷ patterns) key =
    if is_hit (match pattern key) then true else matches_any patterns key

unfoldable pub filter_loop :
    List Bytes
    → List (Bytes × Bytes)
    → List (Bytes × Bytes)
    → List Bytes
    → List (Bytes × Bytes) × List Bytes
unfolding matches_any
filter_loop patterns [] allowed stripped = (allowed, sort stripped)
filter_loop patterns ((key, value) ∷ env) allowed stripped =
    let matched = matches_any patterns key in
    filter_loop patterns env (if matched then allowed ++ (key, value) ∷ [] else allowed)
      (if matched then stripped else stripped ++ key ∷ [])

-- `FilterEnv`; a map is a list of pairs, and the empty one is `nil`.
unfoldable pub filter_env : Config → List (Bytes × Bytes) → List (Bytes × Bytes) × List Bytes
unfolding filter_loop effective_allow_env sort
filter_env c env = filter_loop (effective_allow_env c) env [] []
