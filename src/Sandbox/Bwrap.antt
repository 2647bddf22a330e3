-- ===== src/Sandbox/Bwrap.antt =====
-- sandbox/bwrap.go, sandbox/shared.go: the arguments of bubblewrap.
pub mod Binds
pub mod Reading
pub mod Operations
pub mod Roundtrip
pub mod Writable
use temenos.Base.{
  Bool, true, false, not, ◌&&◌, ◌||◌, List, [], ◌∷◌, ◌++◌, if◌then◌else◌, any, Bytes, codes,
  bytes_eq, is_empty, has_prefix, elem,
}
use temenos.Sandbox.Config.{Host}
use temenos.Sandbox.Mounts.{Mount}
use temenos.Sandbox.ToolPaths.{ToolDir, all_tool_dirs, is_present}
use temenos.Daemon.Request.{ExecConfig}

unfoldable pub is_subdir_of : Bytes → Bytes → Bool
unfolding has_prefix
is_subdir_of child parent = has_prefix (parent ++ codes "/") child

abbrev pub bwrap_static_roots : List Bytes
bwrap_static_roots = codes "/usr" ∷ codes "/bin" ∷ codes "/lib" ∷ []

unfoldable pub covered_by_static_root : Bytes → Bool
unfolding is_subdir_of bytes_eq
covered_by_static_root path =
    any (λ root. bytes_eq path root || is_subdir_of path root) bwrap_static_roots

abbrev pub ro_bind : Bytes → Bytes → List Bytes
ro_bind source target = codes "--ro-bind" ∷ source ∷ target ∷ []

unfoldable pub is_bound : List Bytes → Bytes → Bool
unfolding bytes_eq
is_bound [] source = false
is_bound (a ∷ []) source = false
is_bound (a ∷ b ∷ args) source =
    if (bytes_eq a (codes "--ro-bind") || bytes_eq a (codes "--bind")) && bytes_eq b source
    then true
    else is_bound (b ∷ args) source

module _ (host : Host) where
  -- The inner loop of `appendBwrapToolBinds`, on the set `seen` and the arguments.
  unfoldable pub bind_read_dirs : List Bytes → List Bytes × List Bytes → List Bytes × List Bytes
  unfolding covered_by_static_root elem
  bind_read_dirs [] state = state
  bind_read_dirs (rd ∷ rds) (seen, args) =
      let next = bind_read_dirs rds (seen ++ rd ∷ [], args ++ ro_bind rd rd) in
      let skip = bind_read_dirs rds (seen, args) in
      if elem rd seen
      then skip
      else if covered_by_static_root rd
      then skip
      else if not (is_present (host.stat rd))
      then skip
      else next

  unfoldable pub bind_tools : List ToolDir → List Bytes × List Bytes → List Bytes × List Bytes
  unfolding bind_read_dirs
  bind_tools [] state = state
  bind_tools (td ∷ tds) state = bind_tools tds (bind_read_dirs td.read_dirs state)

  -- `bwrap.go` is built on Linux only.
  unfoldable pub append_bwrap_tool_binds : List Bytes → List Bytes
  unfolding bind_tools all_tool_dirs
  append_bwrap_tool_binds args = (bind_tools (all_tool_dirs host false) ([], args)).1

  unfoldable pub append_nix_store_bind : List Bytes → List Bytes
  unfolding is_bound
  append_nix_store_bind args =
      if not (is_present (host.stat (codes "/nix/store")))
      then args
      else if is_bound args (codes "/nix/store")
      then args
      else args ++ ro_bind (codes "/nix/store") (codes "/nix/store")

  -- The loop of `buildArgs` over the mounts: what it appends.
  unfoldable pub mount_args : List Mount → List Bytes
  mount_args [] = []
  mount_args (m ∷ ms) =
      let rest = mount_args ms in
      if m.metadata_only
      then rest
      else if not (is_present (host.stat m.source))
      then rest
      else if m.read_only
      then ro_bind m.source m.target ++ rest
      else (codes "--bind" ∷ m.source ∷ m.target ∷ []) ++ rest

abbrev pub base_args : Bool → List Bytes
base_args kubernetes_mode =
    ro_bind (codes "/usr") (codes "/usr")
    ++ (ro_bind (codes "/bin") (codes "/bin")
        ++ ((codes "--tmpfs" ∷ codes "/tmp" ∷ codes "--tmpfs" ∷ codes "/home/agent" ∷ [])
            ++ (if kubernetes_mode
                then codes "--unshare-user-try"
                  ∷ codes "--unshare-ipc"
                  ∷ codes "--unshare-uts"
                  ∷ codes "--unshare-cgroup-try"
                  ∷ []
                else codes "--proc" ∷ codes "/proc" ∷ codes "--unshare-all" ∷ [])))

abbrev pub shared_args : List Bytes
shared_args =
    (codes "--share-net" ∷ codes "--dev" ∷ codes "/dev" ∷ [])
    ++ (ro_bind (codes "/etc/resolv.conf") (codes "/etc/resolv.conf")
        ++ (ro_bind (codes "/etc/ssl/certs") (codes "/etc/ssl/certs")
            ++ (ro_bind (codes "/etc/hosts") (codes "/etc/hosts")
                ++ ((codes "--die-with-parent" ∷ [])
                    ++ (ro_bind (codes "/lib") (codes "/lib")
                        ++ (codes "--symlink" ∷ codes "/usr/lib64" ∷ codes "/lib64" ∷ []))))))

-- `buildArgs` with a configuration; the file is built on Linux only, so the test of the system holds.
unfoldable pub build_args : Host → Bool → Bytes → ExecConfig → List Bytes
unfolding append_bwrap_tool_binds append_nix_store_bind mount_args
build_args host kubernetes_mode command cfg =
    let args =
      append_nix_store_bind host
        (append_bwrap_tool_binds host (base_args kubernetes_mode ++ shared_args)) in
    args
    ++ (mount_args host cfg.mount_dirs
        ++ ((if not (is_empty cfg.working_dir) then codes "--chdir" ∷ cfg.working_dir ∷ [] else [])
            ++ (codes "--" ∷ codes "bash" ∷ codes "-c" ∷ command ∷ [])))
