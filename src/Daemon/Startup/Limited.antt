-- ===== src/Daemon/Startup/Limited.antt =====
-- internal/daemon/daemon.go with sandbox/bwrap.go: the memory limit, from the flag to the command.
use mathlib.Core.Path.{subst}
use temenos.Base.{
  ℕ, ◌*◌, ◌<◌, ◌≡◌, refl, sym, ap, ◌∙◌, not, ◌&&◌, true, false, Option, none, some, [], Bytes, ok,
  same_ok, All, arith, Bool-cases, Option-cases, Result-cases, inl, inr,
}
use temenos.Base.Int.{ℤ, pos, is_positive}
use temenos.FilePath.{dir}
use temenos.Sandbox.Config.{load}
use temenos.Sandbox.Cgroup.{
  Kernel, Package, SetupError, Unavailable, setup_cgroup_v2, setup_init_leaf, in_k8s_pod,
  check_cgroup_available_with, cgroup_root, self_cgroup_file, cgroup_v2_reason,
}
use temenos.Sandbox.Cgroup.Ready.{confirmed-none, after_init_leaf-none}
use temenos.Daemon.Request.{ExecConfig}
use temenos.Sandbox.Execution.{
  Cmd, effective_timeout, Machine, Options, bwrap_of, bwrap_is_available, BwrapSandbox, new,
}
use temenos.Sandbox.Execution.Run.{
  exec, bwrap_exec, bwrap_cmd, limited, run_cmd, new_cgroup_exec, run_in_cgroup,
}
use temenos.Sandbox.Execution.Commands.{OnStart, IsSandboxed, exec-IsSandboxed}
use temenos.Sandbox.Execution.Limit.{IsLimited, bwrap_exec-IsLimited}
use temenos.Daemon.Startup.{listen_addr, parse_listen_addr, config_or_zero, token_validator}
use temenos.Daemon.Startup.Service.{
  SocketSystem, Service, is_unix, listen_http, options_of, service_of, platform_setup, serve,
  after_setup, start_daemon,
}

-- Once the question has been answered, the answer stays.
module _ (K : Kernel) where
  cgroup_v2_reason-status :
      (p : Package K.State)
      → (cgroup_v2_reason K p).1 ≡ none
      → (cgroup_v2_reason K p).0.status ≡ some none
  unfolding cgroup_v2_reason
  cgroup_v2_reason-status p = elim (Option-cases p.status) [
    | inl fresh ↦ rw (cgroup_v2_reason, fresh) (λ h. ap some h)
    | inr (answer, is) ↦ rw (cgroup_v2_reason, is) (λ h. is ∙ ap some h)
  ]

  setup_cgroup_v2-status :
      (p : Package K.State)
      → (setup_cgroup_v2 K p).1 ≡ none
      → (setup_cgroup_v2 K p).0.status ≡ some none
  unfolding setup_cgroup_v2
  setup_cgroup_v2-status p = elim (Bool-cases (in_k8s_pod K p.machine)) [
    | inr outside ↦ rw (setup_cgroup_v2, outside) (λ h. ground arith)
    | inl pod ↦
        rw (setup_cgroup_v2, pod)
          (λ h.
            let leaf = setup_init_leaf K p in
            let (leaf_none, is) = after_init_leaf-none K leaf h in
            let (available, machine, ready, kept) =
              confirmed-none K (cgroup_v2_reason K leaf.0) (sym (ap (λ m. m.1) is) ∙ h) in
            ap (λ m. m.0.status) is ∙ (kept ∙ cgroup_v2_reason-status leaf.0 available))
  ]

  cgroup_v2_reason-known :
      (p : Package K.State) → p.status ≡ some none → cgroup_v2_reason K p ≡ (p, none)
  unfolding cgroup_v2_reason
  cgroup_v2_reason-known p h =
      ap
        (λ o. elim o as (λ _. Package K.State × Option Unavailable) [
          | some result ↦ (p, result)
          | none ↦
              (let result = check_cgroup_available_with K p.machine cgroup_root self_cgroup_file in
                (record p { status = some result }, result))
        ])
        h

module _ (machine : Machine) (K : Kernel) (command : Bytes) (cfg : ExecConfig) where
  limited-package :
      (timeout : ℤ) (cmd : Cmd) (memory_mb : ℤ) (q : Package K.State × Option Unavailable)
      → (limited machine K timeout cmd memory_mb q).0 ≡ q.0
  unfolding run_cmd new_cgroup_exec run_in_cgroup
  limited-package timeout cmd memory_mb (p, some reason) = refl
  limited-package timeout cmd memory_mb (p, none) = refl

  bwrap_exec-package :
      (b : BwrapSandbox) (p : Package K.State)
      → p.status ≡ some none
      → (bwrap_exec machine K b command cfg p).0 ≡ p
  unfolding bwrap_exec
  bwrap_exec-package b p h = elim (Bool-cases (is_positive b.memory_limit_mb)) [
    | inr unlimited ↦ rw (bwrap_exec, unlimited) refl
    | inl wanted ↦
        rw (bwrap_exec, wanted)
          (limited-package (effective_timeout b.timeout) (bwrap_cmd machine b command cfg)
              b.memory_limit_mb (cgroup_v2_reason K p)
            ∙ ap (λ q. q.0) (cgroup_v2_reason-known K p h))
  ]

  -- One execution of the sandbox that `New` has chosen.
  new-IsLimited :
      (opts : Options) (p : Package K.State) (n : ℕ)
      → opts.allow_unsandboxed ≡ false
      → opts.memory_limit_mb ≡ pos n
      → 0 < n
      → n * 1048576 < 9223372036854775808
      → p.status ≡ some none
      → ((exec machine K false (new false machine opts) command cfg p).0 ≡ p)
        × IsLimited machine
            (pos (n * 1048576))
            ((exec machine K false (new false machine opts) command cfg p).1)
  unfolding exec new
  new-IsLimited opts p n refused is positive fits known =
      elim (Bool-cases (bwrap_is_available machine (bwrap_of opts))) [
        | inl there ↦
            rw (new, there)
              (
                bwrap_exec-package (bwrap_of opts) p known,
                bwrap_exec-IsLimited machine K (bwrap_of opts) command cfg p n is positive fits
                    (ap (λ q. q.1) (cgroup_v2_reason-known K p known)),
              )
        | inr missing ↦ rw (new, missing, refused) (refl, inl refl)
      ]

module _ (machine : Machine) (K : Kernel) (system : SocketSystem) (service : Service) where
  serve-ok :
      (addr : Bytes) (limit : ℤ)
      → (serve false machine K system addr limit).1 ≡ ok service
      → service.sandbox ≡ new false machine (options_of service.cfg limit)
  unfolding serve new token_validator
  serve-ok addr limit = elim (Result-cases ((listen_http system addr).1)) [
    | inl (_, is) ↦
        rw (serve, is)
          (λ h.
            let built : Service =
              service_of false machine K system (config_or_zero (load machine.host [])) limit in
            subst (λ s. s.sandbox ≡ new false machine (options_of s.cfg limit))
              (same_ok built service h) refl)
    | inr (e, is) ↦ rw (serve, is) (λ h. ground arith)
  ]

  after_setup-ok :
      (addr : Bytes) (limit : ℤ) (q : Package K.State × Option SetupError)
      → (after_setup false machine K system addr limit q).2 ≡ ok service
      → (q.1 ≡ none)
        × ((after_setup false machine K system addr limit q).0 ≡ q.0)
        × ((serve false machine K system addr limit).1 ≡ ok service)
  unfolding serve
  after_setup-ok addr limit (p, some e) h = ground arith
  after_setup-ok addr limit (p, none) h = (refl, refl, h)

  start_daemon-ok :
      (limit : ℤ) (p : Package K.State)
      → is_positive limit ≡ true
      → (start_daemon false machine K system limit p).2 ≡ ok service
      → ((start_daemon false machine K system limit p).0.status ≡ some none)
        × (service.sandbox ≡ new false machine (options_of service.cfg limit))
  unfolding start_daemon platform_setup
  start_daemon-ok limit p positive = elim (Option-cases (listen_addr machine.host)) [
    | inl lost ↦ rw (start_daemon, lost) (λ h. ground arith)
    | inr (addr, found) ↦
        rw (start_daemon, found, positive)
          (elim (Bool-cases
            (is_unix (parse_listen_addr addr) && not (system.mkdir_all (dir addr)))) [
              | inl bad ↦ rw bad (λ h. ground arith)
              | inr good ↦ rw good (λ h.
                  let q = setup_cgroup_v2 K p in
                  let (done, same, served) = after_setup-ok addr limit q h in
                  (
                    ap (λ r. r.status) same ∙ setup_cgroup_v2-status K p done,
                    serve-ok addr limit served,
                  ))
            ])
  ]

-- A daemon on Linux that is started with a memory limit of n MiB, which does not leave 64 bits, and serves:
-- every execution of a command starts nothing but bubblewrap, does nothing at all or places what it
-- starts into a new cgroup with the limit of n MiB, and leaves the package as it was, so that this
-- holds of the next execution too.
pub start_daemon-IsLimited :
    (machine : Machine) (K : Kernel) (system : SocketSystem) (limit : ℤ) (n : ℕ)
    (p : Package K.State) (service : Service) (command : Bytes) (cfg : ExecConfig)
    → limit ≡ pos n
    → 0 < n
    → n * 1048576 < 9223372036854775808
    → (start_daemon false machine K system limit p).2 ≡ ok service
    → let q = (start_daemon false machine K system limit p).0 in
      let run = exec machine K false service.sandbox command cfg q in
      (run.0 ≡ q)
      × IsLimited machine (pos (n * 1048576)) run.1
      × All (OnStart (IsSandboxed false machine (options_of service.cfg limit) command cfg)) run.1
start_daemon-IsLimited machine K system limit n p service command cfg is positive fits started =
    let wanted : is_positive limit ≡ true = rw is (ground arith) in
    let (known, chosen) = start_daemon-ok machine K system service limit p wanted started in
    let q = (start_daemon false machine K system limit p).0 in
    let opts = options_of service.cfg limit in
    let (same, limited_to) =
      new-IsLimited machine K command cfg opts q n refl is positive fits known in
    subst
      (λ sandbox.
        let run = exec machine K false sandbox command cfg q in
        (run.0 ≡ q)
        × IsLimited machine (pos (n * 1048576)) run.1
        × All (OnStart (IsSandboxed false machine opts command cfg)) run.1)
      (sym chosen) (same, limited_to, exec-IsSandboxed false machine opts K command cfg q refl)
