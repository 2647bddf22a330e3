-- ===== src/Sandbox/ToolPaths.antt =====
-- sandbox/paths.go: the tool directories and the PATH of a sandboxed process.
pub mod SearchPath
use temenos.Base.{
  Bool, true, false, not, ◌&&◌, Option, none, some, List, [], ◌∷◌, ◌++◌, map, if◌then◌else◌, Bytes,
  codes, is_empty, join,
}
use temenos.FilePath.{join_path}
use temenos.Sandbox.Config.{Host, FileStat, present, absent, unreadable}

pub record ToolDir : Type 0 where
  pub bin_dir : Bytes
  pub read_dirs : List Bytes
  pub exec_dirs : List Bytes

unfoldable pub darwin_tool_dirs : List ToolDir
darwin_tool_dirs =
    record {
      bin_dir = codes "/opt/homebrew/bin";
      read_dirs = codes "/opt/homebrew" ∷ [];
      exec_dirs = codes "/opt/homebrew" ∷ [];
    }
    ∷ []

abbrev reading : Bytes → Bytes → ToolDir
reading bin_dir read_dir = record { bin_dir = bin_dir; read_dirs = read_dir ∷ []; exec_dirs = [] }

unfoldable pub linux_tool_dirs : List ToolDir
linux_tool_dirs =
    reading (codes "/home/linuxbrew/.linuxbrew/bin") (codes "/home/linuxbrew/.linuxbrew")
    ∷ reading (codes "/snap/bin") (codes "/snap")
    ∷ reading (codes "/run/current-system/sw/bin") (codes "/run/current-system/sw")
    ∷ []

-- `runtime.GOOS == "darwin"` is the argument.
unfoldable pub static_tool_dirs : Bool → List ToolDir
unfolding darwin_tool_dirs linux_tool_dirs
static_tool_dirs darwin = if darwin then darwin_tool_dirs else linux_tool_dirs

abbrev or_empty : Option Bytes → Bytes
or_empty none = []
or_empty (some s) = s

-- `add` and the `if` for mise: a directory that could not be resolved is left out.
abbrev added : Bytes → Bytes → List ToolDir
added [] bin_dir = []
added (c ∷ root) bin_dir = reading bin_dir (c ∷ root) ∷ []

-- `os.Stat(path)` returns no error.
abbrev pub is_present : FileStat → Bool
is_present present = true
is_present _ = false

module _ (host : Host) where
  unfoldable pub daemon_home : Bytes
  daemon_home =
      let h = host.getenv (codes "HOME") in
      if not (is_empty h) then h else or_empty host.user_home_dir

  unfoldable pub resolve_gopath_bin : Bytes
  unfolding daemon_home join_path
  resolve_gopath_bin =
      let gopath = host.getenv (codes "GOPATH") in
      if not (is_empty gopath)
      then join_path (gopath ∷ codes "bin" ∷ [])
      else if not (is_empty daemon_home)
      then join_path (daemon_home ∷ codes "go" ∷ codes "bin" ∷ [])
      else []

  unfoldable pub resolve_home_sub : List Bytes → Bytes
  unfolding daemon_home join_path
  resolve_home_sub parts = if is_empty daemon_home then [] else join_path (daemon_home ∷ parts)

  unfoldable pub dynamic_tool_dirs : List ToolDir
  unfolding resolve_gopath_bin resolve_home_sub join_path
  dynamic_tool_dirs =
      let gopath_bin = resolve_gopath_bin in
      let cargo = resolve_home_sub (codes ".cargo" ∷ codes "bin" ∷ []) in
      let mise = resolve_home_sub (codes ".local" ∷ codes "share" ∷ codes "mise" ∷ []) in
      let local = resolve_home_sub (codes ".local" ∷ codes "bin" ∷ []) in
      let bun = resolve_home_sub (codes ".bun" ∷ codes "bin" ∷ []) in
      let proto = resolve_home_sub (codes ".proto" ∷ codes "bin" ∷ []) in
      added gopath_bin gopath_bin
      ++ (added cargo cargo
          ++ (added mise (join_path (mise ∷ codes "shims" ∷ []))
              ++ (added local local ++ (added bun bun ++ added proto proto))))

  -- The loop of `allToolDirs` over one of the two lists.
  unfoldable pub existing_dirs : List ToolDir → List ToolDir
  existing_dirs [] = []
  existing_dirs (td ∷ dirs) =
      if is_empty td.bin_dir
      then existing_dirs dirs
      else if is_present (host.stat td.bin_dir)
      then td ∷ existing_dirs dirs
      else existing_dirs dirs

  -- `allToolDirs`; its cache is filled by the first call and never changes.
  unfoldable pub all_tool_dirs : Bool → List ToolDir
  unfolding existing_dirs static_tool_dirs dynamic_tool_dirs
  all_tool_dirs darwin = existing_dirs (static_tool_dirs darwin) ++ existing_dirs dynamic_tool_dirs

abbrev pub bin_dir_of : ToolDir → Bytes
bin_dir_of td = td.bin_dir

module _ (host : Host) where
  unfoldable pub build_sandbox_path : Bool → Bytes
  unfolding all_tool_dirs join
  build_sandbox_path darwin = join b':' (
      codes "/usr/bin"
      ∷ codes "/usr/local/bin"
      ∷ codes "/bin"
      ∷ map bin_dir_of (all_tool_dirs host darwin))

unfoldable pub seatbelt_metadata_dirs : Bool → List Bytes
seatbelt_metadata_dirs darwin = if darwin then codes "/opt" ∷ [] else []
