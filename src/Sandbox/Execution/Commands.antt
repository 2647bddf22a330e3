-- ===== src/Sandbox/Execution/Commands.antt =====
-- sandbox/platform.go and the `Exec` methods: which commands an execution starts.
use temenos.Base.{
  ℕ, ◌≡◌, refl, Bool, true, false, Option, none, some, List, [], ◌∷◌, ◌++◌, Bytes, codes, Result,
  ok, err, All, All-append, arith, Bool-cases, Result-cases, inl, inr,
}
use temenos.Base.Int.{ℤ, is_positive}
use temenos.Sandbox.Environ.{first_given}
use temenos.Sandbox.Bwrap.{build_args}
use temenos.Sandbox.Seatbelt.{build_policy}
use temenos.Sandbox.Cgroup.{Kernel, Package, Unavailable, cgroup_v2_reason}
use temenos.Daemon.Request.{ExecConfig}
use temenos.Sandbox.Execution.{
  seatbelt_is_available, Cmd, CgroupError, Event, started, temp_removed, bwrap_of, Machine, Options,
  BwrapSandbox, new, new_on_linux, new_on_darwin, effective_timeout, cleanup, bwrap_is_available,
}
use temenos.Sandbox.Execution.Run.{
  run_cmd_with_hook, run_cmd, seatbelt_exec, new_cgroup_exec, run_in_cgroup, in_new_group,
  bwrap_cmd, seatbelt_cmd, limited, bwrap_exec, exec,
}

-- What holds of every command that is started.
abbrev pub OnStart : (Cmd → Type 0) → Event → Type 0
OnStart P (started cmd) = P cmd
OnStart P _ = Unit

-- The commands of the two sandboxes.
abbrev pub IsBubblewrapped : Machine → Bytes → Bool → Bytes → ExecConfig → Cmd → Type 0
IsBubblewrapped machine bwrap_path kubernetes_mode command cfg cmd =
    (cmd.path ≡ bwrap_path) × (cmd.args ≡ build_args machine.host kubernetes_mode command cfg)

abbrev pub IsSeatbelted : Machine → Bytes → ExecConfig → Cmd → Type 0
IsSeatbelted machine command cfg cmd =
    (policy : Bytes) × (params : List Bytes) × (build_policy machine.quote machine.templates
        machine.host machine.user_cache_dir cfg
      ≡ ok (policy, params))
    × (cmd.path ≡ codes "/usr/bin/sandbox-exec")
    × (cmd.args
        ≡ codes "-p" ∷ policy ∷ (params ++ codes "--" ∷ codes "bash" ∷ codes "-c" ∷ command ∷ []))

abbrev pub IsSandboxed : Bool → Machine → Options → Bytes → ExecConfig → Cmd → Type 0
IsSandboxed true machine opts command cfg = IsSeatbelted machine command cfg
IsSandboxed false machine opts command cfg =
    IsBubblewrapped machine (first_given opts.bwrap_path (codes "bwrap")) opts.kubernetes_mode
      command cfg

module _ (P : Cmd → Type 0) (machine : Machine) where
  run_cmd-OnStart :
      (timeout : ℤ) (cmd : Cmd) → P cmd → All (OnStart P) ((run_cmd machine timeout cmd).0)
  unfolding run_cmd run_cmd_with_hook
  run_cmd-OnStart timeout cmd h = elim (Result-cases (machine.start cmd)) [
    | inl (pid, is) ↦ rw (run_cmd_with_hook, is) (h, tt)
    | inr (e, is) ↦ rw (run_cmd_with_hook, is) tt
  ]

  cleanup-OnStart : (path : Bytes) (fd : Option ℕ) → All (OnStart P) (cleanup machine path fd)
  cleanup-OnStart path none = (tt, (tt, tt))
  cleanup-OnStart path (some fd) = (tt, (tt, (tt, tt)))

  -- A command that is run in a group is run with the descriptor of its directory.
  pub run_in_cgroup-OnStart :
      (timeout : ℤ) (cmd : Cmd) (path : Bytes)
      → ((fd : ℕ) → machine.open_dir path ≡ ok fd → P (record cmd { cgroup_fd = some fd }))
      → All (OnStart P) ((run_in_cgroup machine timeout cmd path).0)
  unfolding run_in_cgroup
  run_in_cgroup-OnStart timeout cmd path h = elim (Result-cases (machine.open_dir path)) [
    | inr (e, is) ↦ rw (run_in_cgroup, is) (cleanup-OnStart path none)
    | inl (fd, is) ↦
        rw (run_in_cgroup, is)
          (
            tt,
            All-append (OnStart P)
                ((run_cmd machine timeout (record cmd { cgroup_fd = some fd })).0)
                (cleanup machine path (some fd))
                (run_cmd-OnStart timeout (record cmd { cgroup_fd = some fd }) (h fd is))
                (cleanup-OnStart path (some fd)),
          )
  ]

  in_new_group-OnStart :
      (timeout : ℤ) (cmd : Cmd) (made : List Event × Result CgroupError Bytes)
      → All (OnStart P) made.0
      → ((path : Bytes) (fd : ℕ)
          → made.1 ≡ ok path
          → machine.open_dir path ≡ ok fd
          → P (record cmd { cgroup_fd = some fd }))
      → All (OnStart P) ((in_new_group machine timeout cmd made).0)
  unfolding run_in_cgroup
  in_new_group-OnStart timeout cmd (events, err e) h p = h
  in_new_group-OnStart timeout cmd (events, ok path) h p =
      All-append (OnStart P) events ((run_in_cgroup machine timeout cmd path).0) h
        (run_in_cgroup-OnStart timeout cmd path (λ fd. p path fd refl))

  new_cgroup_exec-OnStart :
      (K : Kernel) (p : Package K.State) (memory_mb : ℤ)
      → All (OnStart P) ((new_cgroup_exec machine K p memory_mb).0)
  unfolding new_cgroup_exec
  new_cgroup_exec-OnStart K p memory_mb = ground arith

  -- Once it is known whether cgroups are available.
  limited-OnStart :
      (K : Kernel) (timeout : ℤ) (cmd : Cmd) (memory_mb : ℤ)
      (q : Package K.State × Option Unavailable)
      → ((fd : Option ℕ) → P (record cmd { cgroup_fd = fd }))
      → All (OnStart P) ((limited machine K timeout cmd memory_mb q).1)
  unfolding run_cmd new_cgroup_exec run_in_cgroup
  limited-OnStart K timeout cmd memory_mb (p, some reason) h =
      run_cmd-OnStart timeout cmd (h cmd.cgroup_fd)
  limited-OnStart K timeout cmd memory_mb (p, none) h =
      in_new_group-OnStart timeout cmd (new_cgroup_exec machine K p memory_mb)
        (new_cgroup_exec-OnStart K p memory_mb) (λ path fd made opened. h (some fd))

module _ (machine : Machine) (K : Kernel) (command : Bytes) (cfg : ExecConfig)
    (p : Package K.State) where
  bwrap_exec-OnStart :
      (b : BwrapSandbox)
      → All
          (OnStart (IsBubblewrapped machine b.bwrap_path b.kubernetes_mode command cfg))
          ((bwrap_exec machine K b command cfg p).1)
  unfolding bwrap_exec
  bwrap_exec-OnStart b =
      let P = IsBubblewrapped machine b.bwrap_path b.kubernetes_mode command cfg in
      let timeout = effective_timeout b.timeout in
      elim (Bool-cases (is_positive b.memory_limit_mb)) [
        | inr unlimited ↦
            rw (bwrap_exec, unlimited)
              (run_cmd-OnStart P machine timeout (bwrap_cmd machine b command cfg) (refl, refl))
        | inl wanted ↦
            rw (bwrap_exec, wanted)
              (limited-OnStart P machine K timeout (bwrap_cmd machine b command cfg)
                b.memory_limit_mb (cgroup_v2_reason K p) (λ fd. (refl, refl)))
      ]

  seatbelt_exec-OnStart :
      (timeout : ℤ)
      → All
          (OnStart (IsSeatbelted machine command cfg))
          ((seatbelt_exec machine timeout command cfg).0)
  unfolding seatbelt_exec
  seatbelt_exec-OnStart timeout = elim (Result-cases machine.mkdir_temp) [
    | inr (e, is) ↦ rw (seatbelt_exec, is) tt
    | inl (tmp_dir, is) ↦
        rw (seatbelt_exec, is)
          (elim (Result-cases (
            build_policy machine.quote machine.templates machine.host machine.user_cache_dir cfg)) [
              | inr (e, bad) ↦ rw bad (tt, (tt, tt))
              | inl ((policy, params), good) ↦ rw good (
                tt,
                All-append (OnStart (IsSeatbelted machine command cfg))
                    ((run_cmd machine (effective_timeout timeout)
                      (seatbelt_cmd machine policy params tmp_dir command cfg)).0)
                    (temp_removed tmp_dir (machine.remove_all tmp_dir) ∷ [])
                    (run_cmd-OnStart (IsSeatbelted machine command cfg) machine
                      (effective_timeout timeout)
                      (seatbelt_cmd machine policy params tmp_dir command cfg)
                      (policy, params, good, refl, refl))
                    (tt, tt),
              )
            ])
  ]

-- A sandbox that `New` returns when it may not run commands on the host starts no command but those of
-- the platform's sandbox: bubblewrap with the arguments that `buildArgs` makes on Linux, and sandbox-exec
-- with the policy of the configuration on macOS.
pub exec-IsSandboxed :
    (darwin : Bool) (machine : Machine) (opts : Options) (K : Kernel) (command : Bytes)
    (cfg : ExecConfig) (p : Package K.State)
    → opts.allow_unsandboxed ≡ false
    → All
        (OnStart (IsSandboxed darwin machine opts command cfg))
        ((exec machine K darwin (new darwin machine opts) command cfg p).1)
unfolding exec new new_on_linux new_on_darwin bwrap_exec
exec-IsSandboxed false machine opts K command cfg p h =
    elim (Bool-cases (bwrap_is_available machine (bwrap_of opts))) [
      | inl there ↦ rw (new, there) (bwrap_exec-OnStart machine K command cfg p (bwrap_of opts))
      | inr missing ↦ rw (new, missing, h) tt
    ]
exec-IsSandboxed true machine opts K command cfg p h =
    elim (Bool-cases (seatbelt_is_available machine)) [
      | inl there ↦ rw (new, there) (seatbelt_exec-OnStart machine K command cfg p opts.timeout)
      | inr missing ↦ rw (new, missing, h) tt
    ]
