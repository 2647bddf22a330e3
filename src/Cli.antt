-- ===== src/Cli.antt =====
-- internal/cli, cmd/temenos: the commands and the program's exit code. The reading of the arguments is
-- cobra's, and so is the help of the commands that do nothing by themselves.
pub mod JobKill
use temenos.Base.{
  ℕ, Bool, true, false, not, ◌&&◌, Option, none, some, List, [], ◌∷◌, ◌++◌, if◌then◌else◌, Bytes,
  codes, length, ◌==◌, Result, ok, err,
}
use temenos.Base.Int.{ℤ, pos}
use temenos.Client
use temenos.Client.{ClientError}
use temenos.Client.Commands.{Job}
use temenos.Client.Commands
use temenos.Daemon.Launchd.{LaunchSystem, LaunchEvent, LaunchError}
use temenos.Daemon.Launchd
use temenos.Daemon.Startup.Service.{RunError, SocketEvent, SocketSystem, Stop}
use temenos.Daemon.Startup.Service
use temenos.Sandbox.Cgroup.{Kernel, Package}
use temenos.Sandbox.Execution.{Machine}
use temenos.Sandbox.Status.{Status}
use temenos.Sandbox.Status

-- The commands, each below its parent.
pub data Command : Type 0 where
  root daemon daemon_install daemon_uninstall daemon_status daemon_start daemon_stop : Command
  daemon_restart job job_list job_log job_kill doctor : Command

-- The flags of all commands.
pub record Flags : Type 0 where
  pub cgroupv2_memory_limit : ℤ
  pub status : Bytes
  pub caller_id : Bytes
  pub json : Bool

abbrev pub default_flags : Flags
default_flags = record {
  cgroupv2_memory_limit = pos 0;
  status = codes "running";
  caller_id = [];
  json = false;
}

-- `cobra.ExactArgs`, for the commands that have it.
abbrev pub exact_args : Command → Option ℕ
exact_args job_log = some 1
exact_args job_kill = some 1
exact_args _ = none

pub data CommandError : Type 0 where
  run_failed : RunError → CommandError
  launch_failed : LaunchError → CommandError
  client_failed : ClientError → CommandError
  not_ready wrong_arguments : CommandError

-- What a command does that can be seen.
pub data Effect : Type 0 where
  serves : List SocketEvent → Effect
  manages : List LaunchEvent → Effect
  prints : Bytes → Effect
  helps : Command → Effect

abbrev pub Outcome : Type 0
Outcome = Effect × Option CommandError

-- What a command finds: the system, how the wait of a daemon ends, and the decoders and writers of the
-- libraries.
pub record Surface : Type 1 where
  pub darwin : Bool
  pub machine : Machine
  pub kernel : Kernel
  pub sockets : SocketSystem
  pub stop : Stop
  pub launchd : LaunchSystem
  pub network : Client.Network
  pub decode_jobs : Bytes → Option (List Job)
  pub decode_job : Bytes → Option Job
  pub tabulate : Bytes → Bytes
  pub show : ℤ → Bytes
  pub encode_status : Status → Bytes

abbrev pub of_launchd : Launchd.Run → Outcome
of_launchd (events, none) = (manages events, none)
of_launchd (events, some e) = (manages events, some (launch_failed e))

-- What a job command prints, if nothing fails.
abbrev pub of_client : Result ClientError Bytes → Outcome
of_client (ok text) = (prints text, none)
of_client (err e) = (prints [], some (client_failed e))

abbrev pub of_doctor : Bytes × Bool → Outcome
of_doctor (text, fails) = (prints text, if fails then some not_ready else none)

abbrev pub of_daemon {ℓ} : {P : Type ℓ} → P × List SocketEvent × Option RunError → P × Outcome
of_daemon (p, events, none) = (p, (serves events, none))
of_daemon (p, events, some e) = (p, (serves events, some (run_failed e)))

abbrev pub with_client {ℓ} :
    {A : Type ℓ}
    → Result ClientError Client.Client
    → (Client.Client → Result ClientError A)
    → Result ClientError A
with_client (err e) ask = err e
with_client (ok c) ask = ask c

-- The `RunE` of each command, or the help of a command that has none.
module _ (sys : Surface) where
  abbrev client_of : Result ClientError Client.Client
  client_of = Client.new sys.machine.host []

  -- `jobListCmd`
  unfoldable pub run_job_list : Flags → Outcome
  run_job_list flags = of_client (
      Commands.job_list sys.tabulate (
        with_client client_of
          (λ c. Client.list_jobs sys.network sys.decode_jobs c flags.caller_id flags.status)))

  -- `jobLogCmd`
  unfoldable pub run_job_log : Bytes → Outcome
  run_job_log id = of_client (
      Commands.job_log sys.show
        (with_client client_of (λ c. Client.get_job sys.network sys.decode_job c id)))

  -- `jobKillCmd`
  unfoldable pub run_job_kill : Bytes → Outcome
  run_job_kill id = of_client (
      Commands.job_kill
        (with_client client_of (λ c. Client.kill_job sys.network sys.decode_job c id)))

  -- `daemonCmd`
  unfoldable pub run_daemon : Flags → Package sys.kernel.State → Package sys.kernel.State × Outcome
  run_daemon flags p = of_daemon (
      Service.run sys.darwin sys.machine sys.kernel sys.sockets flags.cgroupv2_memory_limit sys.stop
        p)

  -- The command, on its first argument.
  unfoldable pub run_command :
      Command → Flags → Bytes → Package sys.kernel.State → Package sys.kernel.State × Outcome
  unfolding run_daemon run_job_list run_job_log run_job_kill
  run_command daemon flags arg p = run_daemon flags p
  run_command daemon_install flags arg p = (p, of_launchd (Launchd.install sys.launchd))
  run_command daemon_uninstall flags arg p = (p, of_launchd (Launchd.uninstall sys.launchd))
  run_command daemon_status flags arg p = (p, of_launchd (Launchd.status sys.launchd))
  run_command daemon_start flags arg p = (p, of_launchd (Launchd.start sys.launchd))
  run_command daemon_stop flags arg p = (p, of_launchd (Launchd.stop sys.launchd))
  run_command daemon_restart flags arg p = (p, of_launchd (Launchd.restart sys.launchd))
  run_command job_list flags arg p = (p, run_job_list flags)
  run_command job_log flags arg p = (p, run_job_log arg)
  run_command job_kill flags arg p = (p, run_job_kill arg)
  run_command doctor flags arg p =
      let linux = not sys.darwin in
      (
        p,
        of_doctor (
            Status.doctor linux sys.encode_status flags.json
              (Status.platform_status linux sys.kernel p.machine)),
      )
  run_command root flags arg p = (p, (helps root, none))
  run_command job flags arg p = (p, (helps job, none))

-- What cobra makes of the arguments: a command, its flags, and what is left.
pub record Invocation : Type 0 where
  pub command : Command
  pub flags : Flags
  pub args : List Bytes

abbrev first_of : List Bytes → Bytes
first_of [] = []
first_of (arg ∷ args) = arg

unfoldable pub accepts : Option ℕ → List Bytes → Bool
accepts none args = true
accepts (some n) args = length args == n

-- `Execute`: a wrong number of arguments is cobra's error.
unfoldable pub execute :
    (sys : Surface) → Invocation → Package sys.kernel.State → Package sys.kernel.State × Outcome
unfolding accepts run_command
execute sys inv p =
    if not (accepts (exact_args inv.command) inv.args)
    then (p, (helps inv.command, some wrong_arguments))
    else run_command sys inv.command inv.flags (first_of inv.args) p

-- How the process ends, and the error that it writes to the standard error.
pub record Exit : Type 0 where
  pub effect : Effect
  pub code : ℕ
  pub stderr : Option CommandError

abbrev pub exit_of : Outcome → Exit
exit_of (effect, none) = record { effect = effect; code = 0; stderr = none }
exit_of (effect, some e) = record { effect = effect; code = 1; stderr = some e }

unfoldable pub main :
    (sys : Surface) → Invocation → Package sys.kernel.State → Package sys.kernel.State × Exit
unfolding execute
main sys inv p = let (p', outcome) = execute sys inv p in (p', exit_of outcome)
