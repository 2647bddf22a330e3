-- ===== src/Lib.antt =====
-- Temenos runs commands in a sandbox for callers that reach it over HTTP. The daemon
-- (internal/daemon) authorizes a request, turns it into mounts and an environment, starts the command
-- as a job and either replies with its output or moves it to the background, where a registry keeps
-- it. The package sandbox reads the configuration and builds what a process may see; internal/auth
-- asks a cluster whose token a request carries; client is the other end of the HTTP interface.
--
-- What stands where:
--   Base            shared types and lemmas: results, byte strings, association lists, sorting, 64-bit
--                   integers (Base/Int: `scale_64` wraps as `time.Duration(n) * unit` does)
--   FilePath        the functions of Go's path/filepath that the program calls, and their laws
--   Sandbox/Mounts  sandbox/sandbox.go: `AddAncestorMounts`
--   Sandbox/Config  sandbox/config.go: `Load` and what it calls, `FilterEnv`, `BaselineMounts`
--   Sandbox/ToolPaths, Sandbox/Environ  sandbox/paths.go, and `buildEnv` of sandbox/sandbox.go
--   Sandbox/Bwrap   sandbox/bwrap.go: the arguments of bubblewrap
--   Sandbox/Seatbelt  sandbox/policy.go: the rules and parameters of seatbelt
--   Sandbox/Cgroup  sandbox/cgroup.go, sandbox/cgroup_k8s.go: the set-up of cgroup v2 (`SetupCgroupV2`)
--   Sandbox/Status  sandbox/status.go, internal/cli/doctor.go: the diagnosis
--   Sandbox/Execution  `New` of sandbox/platform.go and sandbox/platform_darwin.go, `runCmd` of
--                   sandbox/sandbox.go, and the `Exec` of each sandbox with the cgroup of an execution
--   Auth            internal/auth: `ValidateToken`, `IsRequiredSA`, the token cache
--   Daemon/Jobs     internal/daemon/jobs.go: jobs and their registry
--   Daemon/Request, Daemon/Run, Daemon/Http  internal/daemon/handler.go: the checks of a request, the
--                   run handler, the endpoints (Daemon/Http/Router: the routes of
--                   internal/daemon/socket.go and the answer to a request)
--   Daemon/Startup  internal/daemon/daemon.go, internal/daemon/socket.go: addresses, configuration, the
--                   start of the daemon (Daemon/Startup/Service: `Run`, `listenHTTP`)
--   Daemon/Launchd  internal/daemon/launchd.go: the service of launchd
--   Client          client/client.go, and what the commands of internal/cli/job.go print
--                   (Client/Commands)
--   Cli             internal/cli, cmd/temenos/main.go: the commands, their flags and the exit code
--   Examples        concrete runs
--
-- State and concurrency. Jobs live in a heap, and the registry maps identifiers to addresses. What the
-- goroutines and handlers do to jobs are steps between worlds (Daemon/Jobs/Steps) that may follow each
-- other in any order; each write of a job's goroutine, each look at its context and each deferred call
-- is a step of its own. A call of the token cache is one step: between its look and its write no
-- other request acts, and the review and the write have one time. The select loop of the run handler runs along a schedule: each moment says what
-- the other goroutines have done by then, as an arbitrary function on the jobs, and which channel is
-- ready. Where a theorem needs it, these functions leave alone the job that only the handler knows.
--
-- Bounds and fuel. The climb to the root in `AddAncestorMounts` has the length of the source and two
-- more as its fuel, which is enough, since each parent is shorter (FilePath/Shorter,
-- Sandbox/Mounts/Ancestors). The registry's counter wraps at 64 bits; what needs fresh identifiers
-- assumes that it has not wrapped. A number in decimal has one more than itself as its fuel, which is
-- enough (Sandbox/Seatbelt/Keys). The memory limit of a cgroup is a product that wraps at 64 bits.
-- Texts are lists of bytes, times are numbers of nanoseconds.
--
-- Executions. What an execution does to the machine is a list of events, and what the machine answers
-- (processes, the cgroup2 library, the random source) is a parameter, `Machine`. The set-up of cgroups
-- runs over an unknown state of the kernel, `Kernel`; where a theorem needs it, `IsCgroupFs` says what the
-- kernel documents of cgroup v2. A package variable that a `sync.Once` guards is an option.
--
-- Not modelled. The TOML and JSON decoders, the file system, the HTTP transport and the API server are
-- parameters, and so are the choice of a route (chi) and the reading of the command line (cobra). How
-- many operands an option of bubblewrap takes is what its manual says (Sandbox/Bwrap/Operations). The
-- process tracker, which does nothing, is left out, as are log messages everywhere. The embedded
-- templates of seatbelt, which also grant writing to /tmp and to some devices, are a text.
pub mod Base
pub mod FilePath
pub mod Sandbox
pub mod Auth
pub mod Daemon
pub mod Client
pub mod Cli
pub mod Examples
