-- ===== src/Examples/Killing.antt =====
-- internal/cli/job.go: `temenos job kill`, connected to a daemon with a running job.
use temenos.Base.{refl, true, false, Option, none, some, [], ◌∷◌, Bytes, codes, ok}
use temenos.Base.Int.{pos}
use temenos.Client.{Client, Network, unix_socket}
use temenos.Client
use temenos.Client.Commands.{Job}
use temenos.Daemon.Jobs.{JobInfo, new_background_job}
use temenos.Daemon.Run.{Daemon}
use temenos.Daemon.Http.{Body, job}
use temenos.Daemon.Http.Router.{new_router}
use temenos.Daemon.Launchd.{LaunchSystem}
use temenos.Daemon.Startup.Service.{SocketSystem, signal}
use temenos.Cli.{Surface, default_flags}
use temenos.Client.Agreement.{replied}
use temenos.Cli.JobKill.{IsKilling, served, killing, main-IsKilling}
use temenos.Examples.Pods.{pod}
use temenos.Examples.Executions.{machine, set_up}
use temenos.Examples.Requests.{review_alice, guarded, morning}
use temenos.Examples.Serving.{first_route, decode_listing, v1}

abbrev one_job : Daemon
unfolding new_background_job
one_job = record {
  cache = none;
  manager = record {
    heap = λ a. new_background_job (codes "s") (codes "sleep") 0;
    jobs = (codes "000001", 0) ∷ [];
    seq = 1;
  };
  next = 1;
  launched = [];
}

abbrev the_id : Bytes
the_id = codes "000001"

-- A wire format that carries the command of a job.
abbrev encode_command : Body → Bytes
encode_command (job info) = info.command
encode_command _ = []

abbrev shown_job : JobInfo → Job
shown_job info = record {
  id = codes "000001";
  caller_id = [];
  command = info.command;
  status = [];
  exit_code = pos 0;
  stdout = [];
  stderr = [];
  started_at = [];
  completed_at = [];
}

abbrev decode_command : Bytes → Option Job
decode_command text = some (record {
  id = codes "000001";
  caller_id = [];
  command = text;
  status = [];
  exit_code = pos 0;
  stdout = [];
  stderr = [];
  started_at = [];
  completed_at = [];
})

-- A network with that daemon at its other end.
abbrev wired : Network
wired = record {
  is_url = λ url. true;
  send = λ method url body.
      replied encode_command
        (served review_alice guarded decode_listing v1 first_route morning 5 the_id one_job).1;
}

abbrev quiet_sockets : SocketSystem
quiet_sockets = record { mkdir_all = λ p. true; listen = λ network p. true; chmod = λ p. true }

abbrev no_launchd : LaunchSystem
no_launchd = record {
  look_path = none;
  home = none;
  socket_path = none;
  uid = codes "501";
  mkdir_all = λ p. true;
  is_there = λ p. false;
  is_removed = λ p. true;
  is_written = λ p. true;
  call = λ args. ok [];
  escape_text = λ text. some text;
}

abbrev terminal : Surface
terminal = record {
  darwin = false;
  machine = machine;
  kernel = pod;
  sockets = quiet_sockets;
  stop = signal;
  launchd = no_launchd;
  network = wired;
  decode_jobs = λ text. some [];
  decode_job = decode_command;
  tabulate = λ text. text;
  show = λ n. codes "0";
  encode_status = λ s. [];
}

abbrev local : Client
local = record {
  transport = unix_socket (codes "/h/u/.temenos/daemon.sock");
  base_url = codes "http://temenos";
}

main-IsKilling_example :
    IsKilling shown_job 5 the_id one_job.manager
      (killing terminal local default_flags the_id set_up)
      (served review_alice guarded decode_listing v1 first_route morning 5 the_id one_job).0.manager
main-IsKilling_example =
    main-IsKilling terminal local default_flags the_id set_up encode_command shown_job 5 one_job
      review_alice guarded decode_listing v1 first_route morning (unfold Client.new in refl) refl
      (unfold first_route new_router in refl) refl (λ info. refl)
