-- ===== src/Daemon/Startup/Service.antt =====
-- internal/daemon/daemon.go, internal/daemon/socket.go: the start of the daemon and its end.
use temenos.Base.{
  not, ◌&&◌, Bool, true, false, Option, none, some, List, [], ◌∷◌, ◌++◌, if◌then◌else◌, Bytes,
  Result, ok, err,
}
use temenos.Base.Int.{ℤ, is_positive}
use temenos.FilePath.{dir}
use temenos.Auth.{TokenCache}
use temenos.Sandbox.Config.{Config, load}
use temenos.Sandbox.Cgroup.{Kernel, Package, SetupError, setup_cgroup_v2}
use temenos.Sandbox.Execution.{Machine, Options, Sandbox, new, default_timeout}
use temenos.Daemon.Startup.{
  listen_addr, Network, unix, tcp, parse_listen_addr, config_or_zero, token_validator,
}

-- Why the daemon does not start, or how it ends.
pub data RunError : Type 0 where
  no_address mkdir_failed listen_failed chmod_failed : RunError
  setup_failed : SetupError → RunError
  server_failed : Bytes → RunError

-- What the start does to the socket, in order.
pub data SocketEvent : Type 0 where
  removed restricted closed : Bytes → SocketEvent
  listening : Network → Bytes → SocketEvent
  serving : SocketEvent

-- What the system answers: `os.MkdirAll`, `net.Listen` and `os.Chmod`.
pub record SocketSystem : Type 0 where
  pub mkdir_all : Bytes → Bool
  pub listen : Network → Bytes → Bool
  pub chmod : Bytes → Bool

abbrev pub is_unix : Network → Bool
is_unix unix = true
is_unix tcp = false

-- `listenHTTP`
unfoldable pub listen_http : SocketSystem → Bytes → List SocketEvent × Result RunError Bytes
unfolding parse_listen_addr
listen_http system addr =
    let network = parse_listen_addr addr in
    let stale : List SocketEvent = if is_unix network then removed addr ∷ [] else [] in
    let opened : List SocketEvent = stale ++ listening network addr ∷ [] in
    let served : List SocketEvent × Result RunError Bytes = (opened ++ serving ∷ [], ok addr) in
    if not (system.listen network addr)
    then (stale, err listen_failed)
    else if not (is_unix network)
    then served
    else if not (system.chmod addr)
    then (opened ++ closed addr ∷ [], err chmod_failed)
    else (opened ++ restricted addr ∷ serving ∷ [], ok addr)

-- What the handlers of the daemon share.
pub record Service : Type 0 where
  pub cfg : Config
  pub sandbox : Sandbox
  pub validator : Option TokenCache

abbrev pub options_of : Config → ℤ → Options
options_of cfg limit = record {
  bwrap_path = [];
  timeout = default_timeout;
  allow_unsandboxed = false;
  memory_limit_mb = limit;
  kubernetes_mode = cfg.kubernetes.enabled;
}

-- What the wait of `waitAndShutdown` ends with; `none` is a server that has ended without an error.
pub data Stop : Type 0 where
  signal : Stop
  server : Option Bytes → Stop

-- `waitAndShutdown`: whether the server is shut down, and the error.
unfoldable pub wait_and_shutdown : Stop → Bool × Option RunError
wait_and_shutdown signal = (true, none)
wait_and_shutdown (server (some e)) = (false, some (server_failed e))
wait_and_shutdown (server none) = (true, none)

module _ (darwin : Bool) (machine : Machine) (kernel : Kernel) (system : SocketSystem) where
  -- `SetupCgroupV2`, which does nothing on other systems than Linux.
  unfoldable pub platform_setup : Package kernel.State → Package kernel.State × Option SetupError
  unfolding setup_cgroup_v2
  platform_setup p = if darwin then (p, none) else setup_cgroup_v2 kernel p

  abbrev pub service_of : Config → ℤ → Service
  unfolding new token_validator
  service_of cfg limit = record {
    cfg = cfg;
    sandbox = new darwin machine (options_of cfg limit);
    validator = token_validator cfg;
  }

  -- `Run` from the loading of the configuration to the server.
  unfoldable pub serve : Bytes → ℤ → List SocketEvent × Result RunError Service
  unfolding load config_or_zero listen_http service_of
  serve addr limit =
      let cfg = config_or_zero (load machine.host []) in
      let (events, listened) = listen_http system addr in
      elim listened [ err e ↦ (events, err e) | ok _ ↦ (events, ok (service_of cfg limit)) ]

  abbrev pub after_setup :
      Bytes
      → ℤ
      → Package kernel.State × Option SetupError
      → Package kernel.State × List SocketEvent × Result RunError Service
  unfolding serve
  after_setup addr limit (p, some e) = (p, [], err (setup_failed e))
  after_setup addr limit (p, none) =
      let (events, service) = serve addr limit in (p, events, service)

  -- `Run` up to the wait for a signal.
  unfoldable pub start_daemon :
      ℤ → Package kernel.State → Package kernel.State × List SocketEvent × Result RunError Service
  unfolding listen_addr parse_listen_addr dir platform_setup after_setup serve
  start_daemon limit p = elim (listen_addr machine.host) [
    | none ↦ (p, [], err no_address)
    | some addr ↦
        if is_unix (parse_listen_addr addr) && not (system.mkdir_all (dir addr))
        then (p, [], err mkdir_failed)
        else after_setup addr limit (if is_positive limit then platform_setup p else (p, none))
  ]

  -- The end of `Run`: the wait of a daemon that serves, or the error of its start.
  abbrev pub ended : Stop → Result RunError Service → Option RunError
  unfolding wait_and_shutdown
  ended stop (err e) = some e
  ended stop (ok service) = (wait_and_shutdown stop).1

  -- `Run`
  unfoldable pub run :
      ℤ → Stop → Package kernel.State → Package kernel.State × List SocketEvent × Option RunError
  unfolding start_daemon ended
  run limit stop p =
      let (p', events, started) = start_daemon limit p in (p', events, ended stop started)
