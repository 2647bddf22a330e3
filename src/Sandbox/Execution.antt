-- ===== src/Sandbox/Execution.antt =====
-- sandbox/sandbox.go, sandbox/noop.go, sandbox/unavailable.go, sandbox/seatbelt.go, sandbox/bwrap.go,
-- sandbox/cgroup.go, sandbox/platform.go, sandbox/platform_darwin.go: commands, their ends, and the
-- sandboxes.
pub mod Run
pub mod Commands
pub mod Limit
pub mod Cleanup
pub mod Outputs
use temenos.Base.{
  ℕ, ◌+◌, ◌*◌, ◌/◌, ◌%◌, Bool, true, false, not, Option, none, some, List, [], ◌∷◌, ◌++◌,
  if◌then◌else◌, Bytes, codes, is_empty, cut_prefix, ltb, Result, ok, err, take, length,
}
use temenos.Base.Int.{ℤ, pos, negsuc, is_positive, scale_64}
use temenos.FilePath.{join_path}
use temenos.Sandbox.Config.{Host, Config, ConfigError, load}
use temenos.Sandbox.ToolPaths.{build_sandbox_path, is_present}
use temenos.Sandbox.Environ.{build_env, first_given}
use temenos.Sandbox.Bwrap.{build_args}
use temenos.Sandbox.Seatbelt.{PolicyError, build_policy}
use temenos.Sandbox.Cgroup.{
  Kernel, Package, Unavailable, cgroup_root, self_cgroup_file, discover_delegated_path_at,
  cgroup_v2_reason,
}
use temenos.Daemon.Request.{ExecConfig}

-- `exec.Cmd`, with `SysProcAttr.CgroupFD` where `UseCgroupFD` is set.
pub record Cmd : Type 0 where
  pub path : Bytes
  pub args : List Bytes
  pub env : List Bytes
  pub dir : Bytes
  pub cgroup_fd : Option ℕ

-- The error of `cmd.Wait`.
pub data Waited : Type 0 where
  exited : Waited
  exit_error : ℤ → Waited
  wait_error : Bytes → Waited

-- How a started command ends: what is in the two buffers, the error of `Wait` and that of the context.
pub record Finish : Type 0 where
  pub stdout : Bytes
  pub stderr : Bytes
  pub waited : Waited
  pub ctx_err : Option Bytes

pub data CgroupError : Type 0 where
  not_initialized no_id no_delegated not_under_root : CgroupError
  manager : Bytes → CgroupError

pub data ExecError : Type 0 where
  start_failed wait_failed context_done hook_failed no_temp_dir open_failed no_sandbox :
      Bytes → ExecError
  cgroup_setup_failed : CgroupError → ExecError
  policy_failed : PolicyError → ExecError

pub record Outcome : Type 0 where
  pub stdout : Bytes
  pub stderr : Bytes
  pub exit_code : ℤ
  pub error : Option ExecError

-- What an execution does to the machine, in order. A group comes with its path, `memory.max` and
-- `memory.swap.max`; the calls whose errors are only logged come with their error, if there is one.
pub data Event : Type 0 where
  group_made : Bytes → ℤ → ℤ → Event
  group_killed group_deleted temp_removed : Bytes → Option Bytes → Event
  temp_made : Bytes → Event
  dir_opened dir_closed : ℕ → Event
  started : Cmd → Event
  process_killed : ℕ → Event

-- What the machine answers in one execution: the operating system, the cgroup2 library, the random
-- source, the printing verb `%q` and the embedded templates of seatbelt. `finish` is given the timeout
-- of the context.
pub record Machine : Type 0 where
  pub host : Host
  pub look_path : Bytes → Bool
  pub start : Cmd → Result Bytes ℕ
  pub finish : ℤ → Cmd → Finish
  pub random : Option Bytes
  pub new_manager : Bytes → ℤ → ℤ → Option Bytes
  pub kill_group : Bytes → Option Bytes
  pub delete_group : Bytes → Option Bytes
  pub open_dir : Bytes → Result Bytes ℕ
  pub mkdir_temp : Result Bytes Bytes
  pub remove_all : Bytes → Option Bytes
  pub user_cache_dir : Option Bytes
  pub quote : Bytes → Bytes
  pub templates : Bytes

abbrev pub max_output_bytes : ℕ
max_output_bytes = 64 * 1024

-- `Options` of sandbox.New, and the sandboxes it chooses from.
pub record Options : Type 0 where
  pub bwrap_path : Bytes
  pub timeout : ℤ
  pub allow_unsandboxed : Bool
  pub memory_limit_mb : ℤ
  pub kubernetes_mode : Bool

pub record BwrapSandbox : Type 0 where
  pub bwrap_path : Bytes
  pub timeout : ℤ
  pub memory_limit_mb : ℤ
  pub kubernetes_mode : Bool

pub data Sandbox : Type 0 where
  bwrap : BwrapSandbox → Sandbox
  seatbelt noop : ℤ → Sandbox
  unavailable_on : Bytes → Sandbox

unfoldable pub truncate : Bytes → ℕ → Bytes
truncate s max_bytes =
    if ltb max_bytes (length s) then take max_bytes s ++ codes "\n[output truncated]" else s

unfoldable pub effective_timeout : ℤ → ℤ
effective_timeout d = if is_positive d then d else pos 30_000_000_000

abbrev pub failed : ExecError → Outcome
failed e = record { stdout = []; stderr = []; exit_code = negsuc 0; error = some e }

-- The end of `runCmdWithHook`, from `Wait` on.
unfoldable pub classify : Finish → Outcome
unfolding truncate
classify f =
    let outcome : ℤ → Option ExecError → Outcome = λ code e. record {
      stdout = truncate f.stdout max_output_bytes;
      stderr = truncate f.stderr max_output_bytes;
      exit_code = code;
      error = e;
    } in
    elim f.ctx_err [
      | some e ↦ outcome (negsuc 0) (some (context_done e))
      | none ↦ elim f.waited [
        | exit_error code ↦ outcome code none
        | wait_error e ↦ outcome (negsuc 0) (some (wait_failed e))
        | exited ↦ outcome (pos 0) none
      ]
    ]

abbrev pub fd_closed : Option ℕ → List Event
fd_closed none = []
fd_closed (some fd) = dir_closed fd ∷ []

-- `cleanup`, of a group and its descriptor. An error of one call does not keep it from the next.
abbrev pub cleanup : Machine → Bytes → Option ℕ → List Event
cleanup machine path fd =
    group_killed path (machine.kill_group path)
    ∷ (fd_closed fd ++ group_deleted path (machine.delete_group path) ∷ [])

-- `IsAvailable` of each sandbox. An error of `Stat` other than a missing file is logged.
abbrev pub bwrap_is_available : Machine → BwrapSandbox → Bool
bwrap_is_available machine b = machine.look_path b.bwrap_path

abbrev pub seatbelt_is_available : Machine → Bool
seatbelt_is_available machine = is_present (machine.host.stat (codes "/usr/bin/sandbox-exec"))

abbrev pub noop_is_available : Bool
noop_is_available = true

abbrev pub unavailable_is_available : Bool
unavailable_is_available = false

-- `IsAvailable` of the interface.
unfoldable pub is_available : Machine → Sandbox → Bool
is_available machine (bwrap b) = bwrap_is_available machine b
is_available machine (seatbelt timeout) = seatbelt_is_available machine
is_available machine (noop timeout) = noop_is_available
is_available machine (unavailable_on platform) = unavailable_is_available

abbrev pub bwrap_of : Options → BwrapSandbox
bwrap_of opts = record {
  bwrap_path = first_given opts.bwrap_path (codes "bwrap");
  timeout = opts.timeout;
  memory_limit_mb = opts.memory_limit_mb;
  kubernetes_mode = opts.kubernetes_mode;
}

-- `New` of platform.go, on Linux, and of platform_darwin.go.
unfoldable pub new_on_linux : Machine → Options → Sandbox
new_on_linux machine opts =
    if bwrap_is_available machine (bwrap_of opts)
    then bwrap (bwrap_of opts)
    else if opts.allow_unsandboxed
    then noop opts.timeout
    else unavailable_on (codes "linux")

unfoldable pub new_on_darwin : Machine → Options → Sandbox
new_on_darwin machine opts =
    if seatbelt_is_available machine
    then seatbelt opts.timeout
    else if opts.allow_unsandboxed
    then noop opts.timeout
    else unavailable_on (codes "darwin")

unfoldable pub new : Bool → Machine → Options → Sandbox
unfolding new_on_linux new_on_darwin
new darwin machine opts = if darwin then new_on_darwin machine opts else new_on_linux machine opts

-- `DefaultTimeout`: two minutes, in nanoseconds.
abbrev pub default_timeout : ℤ
default_timeout = pos 120_000_000_000

-- `LoadConfig`
unfoldable pub load_config : Bool → Machine → Bytes → Result ConfigError (Config × Sandbox)
unfolding load new
load_config darwin machine path = elim (load machine.host path) [
  | err e ↦ err e
  | ok cfg ↦
      let opts : Options = record {
        bwrap_path = [];
        timeout = default_timeout;
        allow_unsandboxed = false;
        memory_limit_mb = pos 0;
        kubernetes_mode = false;
      } in
      ok (cfg, new darwin machine opts)
]
