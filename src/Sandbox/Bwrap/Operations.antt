-- ===== src/Sandbox/Bwrap/Operations.antt =====
-- sandbox/bwrap.go: what the arguments of `buildArgs` make bubblewrap do.
use temenos.Base.{
  ◌≡◌, ℕ, Bool, not, ◌&&◌, Option, some, List, [], ◌∷◌, ◌++◌, map, Bytes, codes, is_empty,
  if◌then◌else◌,
}
use temenos.Sandbox.Config.{Host}
use temenos.Sandbox.Mounts.{Mount}
use temenos.Sandbox.ToolPaths.{is_present}
use temenos.Daemon.Request.{ExecConfig}
use temenos.Sandbox.Bwrap.Reading.{Operation}

-- How many operands each option takes, by the manual of bubblewrap.
pub record IsBubblewrap (arity : Bytes → Option ℕ) : Type 0 where
  pub ro_bind_takes : arity (codes "--ro-bind") ≡ some 2
  pub bind_takes : arity (codes "--bind") ≡ some 2
  pub symlink_takes : arity (codes "--symlink") ≡ some 2
  pub tmpfs_takes : arity (codes "--tmpfs") ≡ some 1
  pub proc_takes : arity (codes "--proc") ≡ some 1
  pub dev_takes : arity (codes "--dev") ≡ some 1
  pub chdir_takes : arity (codes "--chdir") ≡ some 1
  pub unshare_all_takes : arity (codes "--unshare-all") ≡ some 0
  pub unshare_user_try_takes : arity (codes "--unshare-user-try") ≡ some 0
  pub unshare_ipc_takes : arity (codes "--unshare-ipc") ≡ some 0
  pub unshare_uts_takes : arity (codes "--unshare-uts") ≡ some 0
  pub unshare_cgroup_try_takes : arity (codes "--unshare-cgroup-try") ≡ some 0
  pub share_net_takes : arity (codes "--share-net") ≡ some 0
  pub die_with_parent_takes : arity (codes "--die-with-parent") ≡ some 0

abbrev flag : Bytes → Operation
flag name = record { option = name; operands = [] }

abbrev on_dir : Bytes → Bytes → Operation
on_dir name dir = record { option = name; operands = dir ∷ [] }

abbrev pub read_only_bind : Bytes → Bytes → Operation
read_only_bind source target = record {
  option = codes "--ro-bind";
  operands = source ∷ target ∷ [];
}

abbrev pub read_write_bind : Bytes → Bytes → Operation
read_write_bind source target = record { option = codes "--bind"; operands = source ∷ target ∷ [] }

abbrev pub self_bind : Bytes → Operation
self_bind dir = read_only_bind dir dir

abbrev pub shared_operations : List Operation
shared_operations =
    flag (codes "--share-net")
    ∷ on_dir (codes "--dev") (codes "/dev")
    ∷ self_bind (codes "/etc/resolv.conf")
    ∷ self_bind (codes "/etc/ssl/certs")
    ∷ self_bind (codes "/etc/hosts")
    ∷ flag (codes "--die-with-parent")
    ∷ self_bind (codes "/lib")
    ∷ record { option = codes "--symlink"; operands = codes "/usr/lib64" ∷ codes "/lib64" ∷ [] }
    ∷ []

-- What every command sees: the system's programs, libraries, names and certificates for reading,
-- scratch directories of its own, and new namespaces but for the network; in a pod no new namespace
-- of processes.
abbrev pub base_operations : Bool → List Operation
base_operations kubernetes_mode =
    (self_bind (codes "/usr")
      ∷ self_bind (codes "/bin")
      ∷ on_dir (codes "--tmpfs") (codes "/tmp")
      ∷ on_dir (codes "--tmpfs") (codes "/home/agent")
      ∷ [])
    ++ ((if kubernetes_mode
          then flag (codes "--unshare-user-try")
            ∷ flag (codes "--unshare-ipc")
            ∷ flag (codes "--unshare-uts")
            ∷ flag (codes "--unshare-cgroup-try")
            ∷ []
          else on_dir (codes "--proc") (codes "/proc") ∷ flag (codes "--unshare-all") ∷ [])
        ++ shared_operations)

abbrev pub mount_operation : Mount → Operation
mount_operation m =
    if m.read_only then read_only_bind m.source m.target else read_write_bind m.source m.target

abbrev pub is_shown : Host → Mount → Bool
is_shown host m = not m.metadata_only && is_present (host.stat m.source)

abbrev pub shown_mounts : Host → List Mount → List Mount
shown_mounts host [] = []
shown_mounts host (m ∷ ms) =
    if is_shown host m then m ∷ shown_mounts host ms else shown_mounts host ms

abbrev pub chdir_operations : Bytes → List Operation
chdir_operations dir = if is_empty dir then [] else on_dir (codes "--chdir") dir ∷ []

-- Everything that the arguments ask for.
abbrev pub operations : Host → Bool → List Bytes → ExecConfig → List Operation
operations host kubernetes_mode dirs cfg =
    base_operations kubernetes_mode
    ++ (map self_bind dirs
        ++ (map mount_operation (shown_mounts host cfg.mount_dirs)
            ++ chdir_operations cfg.working_dir))

abbrev pub shell_command : Bytes → List Bytes
shell_command command = codes "bash" ∷ codes "-c" ∷ command ∷ []
