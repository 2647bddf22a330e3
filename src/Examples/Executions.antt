-- ===== src/Examples/Executions.antt =====
-- sandbox: the execution of a command in a pod that is set up.
use temenos.Base.{◌≡◌, refl, arith, false, true, none, some, [], ◌∷◌, ◌++◌, All, Bytes, codes, ok}
use temenos.Base.Int.{pos}
use temenos.Sandbox.Cgroup.{Package, cgroup_v2_reason}
use temenos.Sandbox.Execution.{Machine, Options, BwrapSandbox, bwrap, exited, new}
use temenos.Sandbox.Execution.Run.{exec, bwrap_exec}
use temenos.Sandbox.Execution.Commands.{OnStart, IsSandboxed, exec-IsSandboxed}
use temenos.Sandbox.Execution.Limit.{IsLimited, bwrap_exec-IsLimited}
use temenos.Sandbox.Execution.Cleanup.{descriptor, held_after, left_by, held_after-exec}
use temenos.Sandbox.Execution.Outputs.{IsBounded, exec-IsBounded}
use temenos.Sandbox.Config.{load}
use temenos.Daemon.Startup.{config_or_zero, token_validator}
use temenos.Daemon.Startup.Service.{SocketSystem, Service, service_of, options_of, start_daemon}
use temenos.Daemon.Startup.Limited.{start_daemon-IsLimited}
use temenos.Examples.Pods.{pod, bare_mac, work, fresh}

abbrev pub machine : Machine
machine = record {
  host = bare_mac;
  look_path = λ path. true;
  start = λ cmd. ok 7;
  finish =
      λ timeout cmd. record { stdout = codes "hi"; stderr = []; waited = exited; ctx_err = none };
  random = some (1 ∷ 2 ∷ 3 ∷ 4 ∷ 5 ∷ 6 ∷ 7 ∷ 255 ∷ []);
  new_manager = λ group limit swap. none;
  kill_group = λ path. none;
  delete_group = λ path. some (codes "device or resource busy");
  open_dir = λ path. ok 9;
  mkdir_temp = ok (codes "/tmp/ttal-agent-1");
  remove_all = λ path. none;
  user_cache_dir = none;
  quote = λ s. s;
  templates = [];
}

abbrev options : Options
options = record {
  bwrap_path = [];
  timeout = pos 120_000_000_000;
  allow_unsandboxed = false;
  memory_limit_mb = pos 512;
  kubernetes_mode = true;
}

abbrev bubblewrap : BwrapSandbox
bubblewrap = record {
  bwrap_path = codes "bwrap";
  timeout = pos 120_000_000_000;
  memory_limit_mb = pos 512;
  kubernetes_mode = true;
}

abbrev pub set_up : Package pod.State
unfolding pod
set_up = record {
  machine = true;
  exec_cgroup_base = codes "/sys/fs/cgroup/pod";
  init_leaf = some none;
  status = some none;
  is_ready = true;
}

abbrev echo : Bytes
echo = codes "echo hi"

exec-IsSandboxed_example :
    All
      (OnStart (IsSandboxed false machine options echo work))
      ((exec machine pod false (new false machine options) echo work set_up).1)
exec-IsSandboxed_example = exec-IsSandboxed false machine options pod echo work set_up refl

bwrap_exec-IsLimited_example :
    IsLimited machine (pos 536870912) ((bwrap_exec machine pod bubblewrap echo work set_up).1)
unfolding cgroup_v2_reason set_up
bwrap_exec-IsLimited_example =
    bwrap_exec-IsLimited machine pod bubblewrap echo work set_up 512 refl (ground arith)
      (ground arith) refl

held_after-exec_example :
    held_after ((exec machine pod false (bwrap bubblewrap) echo work set_up).1) (descriptor 3 ∷ [])
    ≡ left_by ((exec machine pod false (bwrap bubblewrap) echo work set_up).1) ++ descriptor 3 ∷ []
held_after-exec_example =
    held_after-exec false machine pod (bwrap bubblewrap) echo work set_up (descriptor 3 ∷ [])

exec-IsBounded_example : IsBounded ((exec machine pod false (bwrap bubblewrap) echo work set_up).2)
exec-IsBounded_example = exec-IsBounded false machine pod (bwrap bubblewrap) echo work set_up

abbrev sockets : SocketSystem
sockets = record { mkdir_all = λ path. true; listen = λ network addr. true; chmod = λ path. true }

abbrev service : Service
unfolding load config_or_zero new token_validator
service = service_of false machine pod sockets (config_or_zero (load bare_mac [])) (pos 512)

start_daemon-IsLimited_example :
    let q = (start_daemon false machine pod sockets (pos 512) fresh).0 in
    let run = exec machine pod false service.sandbox echo work q in
    (run.0 ≡ q)
    × IsLimited machine (pos 536870912) run.1
    × All (OnStart (IsSandboxed false machine (options_of service.cfg (pos 512)) echo work)) run.1
unfolding start_daemon service fresh pod
start_daemon-IsLimited_example =
    start_daemon-IsLimited machine pod sockets (pos 512) 512 fresh service echo work refl
      (ground arith) (ground arith) refl
