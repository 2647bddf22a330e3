-- ===== src/Examples/Bindings.antt =====
-- sandbox/bwrap.go: a request, from its check to the arguments of bubblewrap.
use mathlib.Core.List.Memᴰ
use temenos.Base.{
  ◌≡◌, refl, Bool, true, false, Option, none, some, ℕ, List, [], ◌∷◌, Bytes, codes, bytes_eq, elem,
  All, Memᴰ, ok, if◌then◌else◌,
}
use temenos.Base.Int.{pos}
use temenos.Sandbox.Config.{Config, Host, present, absent, zero_config}
use temenos.Sandbox.Mounts.{Mount}
use temenos.Sandbox.ToolPaths.{is_present}
use temenos.Sandbox.Bwrap.{build_args}
use temenos.Sandbox.Bwrap.Reading.{read_args, Operation}
use temenos.Sandbox.Bwrap.Operations.{
  IsBubblewrap, base_operations, operations, shell_command, read_write_bind,
}
use temenos.Sandbox.Bwrap.Roundtrip.{IsShared, read_args-build_args}
use temenos.Daemon.Request.{RunRequest, ExecConfig}
use temenos.Daemon.Run.{check_request}
use temenos.Daemon.Run.Writes.{IsWritable, check_request-writes}

abbrev manual : Bytes → Option ℕ
unfolding elem
manual name =
    if elem name (codes "--ro-bind" ∷ codes "--bind" ∷ codes "--symlink" ∷ [])
    then some 2
    else if elem name (codes "--tmpfs" ∷ codes "--proc" ∷ codes "--dev" ∷ codes "--chdir" ∷ [])
    then some 1
    else some 0

manual-IsBubblewrap : IsBubblewrap manual
unfolding manual elem
manual-IsBubblewrap = record {
  ro_bind_takes = refl;
  bind_takes = refl;
  symlink_takes = refl;
  tmpfs_takes = refl;
  proc_takes = refl;
  dev_takes = refl;
  chdir_takes = refl;
  unshare_all_takes = refl;
  unshare_user_try_takes = refl;
  unshare_ipc_takes = refl;
  unshare_uts_takes = refl;
  unshare_cgroup_try_takes = refl;
  share_net_takes = refl;
  die_with_parent_takes = refl;
}

-- A host where only the working directory exists, which is named like an option.
abbrev box : Host
unfolding bytes_eq
box = record {
  getenv = λ name. [];
  user_home_dir = some (codes "/h/u");
  current_user_home = some (codes "/h/u");
  stat = λ path. if bytes_eq path (codes "/--bind") then present else absent;
  decode_toml = λ text. none;
}

abbrev operator : Config
unfolding zero_config
operator = record zero_config {
  allow_read = codes "/etc" ∷ [];
  allow_write = codes "/srv" ∷ [];
  auto_background_after = pos 30;
}

abbrev asking : RunRequest
asking = record {
  command = codes "--";
  env = [];
  allowed_paths =
      record { path = codes "/x/../--bind"; read_only = false; metadata_only = false } ∷ [];
  timeout = pos 60;
  caller_id = codes "s";
  auth_token = [];
}

abbrev onto_itself : Bytes → Bool → Mount
onto_itself p reads = record { source = p; target = p; read_only = reads; metadata_only = false }

abbrev accepted : ExecConfig
accepted = record {
  env = [];
  working_dir = codes "/--bind";
  mount_dirs =
      onto_itself (codes "/etc") true
      ∷ onto_itself (codes "/srv") false
      ∷ onto_itself (codes "/--bind") false
      ∷ [];
}

asking_passes : check_request operator (codes "/tmp") asking ≡ ok ([], accepted)
unfolding check_request operator
asking_passes = refl

read_args-build_args_example :
    (dirs : List Bytes) × (read_args manual 0 (build_args box true (codes "--") accepted)
      ≡ some ([], operations box true dirs accepted, shell_command (codes "--")))
    × All (IsShared box) dirs
read_args-build_args_example =
    read_args-build_args manual manual-IsBubblewrap box true (codes "--") accepted

asking_reads :
    read_args manual 0 (build_args box true (codes "--") accepted)
    ≡ some ([], operations box true [] accepted, shell_command (codes "--"))
unfolding read_args build_args manual box bytes_eq elem
asking_reads = refl

abbrev write_there : Operation
write_there = read_write_bind (codes "/--bind") (codes "/--bind")

write_there-listed : Memᴰ write_there (operations box true [] accepted)
unfolding box bytes_eq
write_there-listed = Memᴰ.append_right (base_operations true) (Memᴰ.head refl)

check_request-writes_example :
    (d : Bytes) × (write_there ≡ read_write_bind d d)
    × (is_present (box.stat d) ≡ true)
    × IsWritable operator asking d
check_request-writes_example =
    check_request-writes manual box true operator (codes "/tmp") asking [] accepted
      (operations box true [] accepted) (shell_command (codes "--")) write_there manual-IsBubblewrap
      asking_passes asking_reads write_there-listed refl
