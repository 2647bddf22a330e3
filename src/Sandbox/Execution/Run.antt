-- ===== src/Sandbox/Execution/Run.antt =====
-- sandbox/sandbox.go, sandbox/noop.go, sandbox/unavailable.go, sandbox/seatbelt.go, sandbox/bwrap.go,
-- sandbox/cgroup.go, sandbox/cgroup_bwrap.go: how one command is executed.
use temenos.Base.{
  ℕ, ◌+◌, ◌/◌, ◌%◌, Bool, true, false, not, Option, none, some, List, [], ◌∷◌, ◌++◌, if◌then◌else◌,
  Bytes, codes, is_empty, cut_prefix, ltb, Result, ok, err,
}
use temenos.Base.Int.{ℤ, pos, is_positive, scale_64}
use temenos.FilePath.{join_path}
use temenos.Sandbox.ToolPaths.{build_sandbox_path}
use temenos.Sandbox.Environ.{build_env, first_given}
use temenos.Sandbox.Bwrap.{build_args}
use temenos.Sandbox.Seatbelt.{build_policy}
use temenos.Sandbox.Cgroup.{
  Kernel, Package, Unavailable, cgroup_root, self_cgroup_file, discover_delegated_path_at,
  cgroup_v2_reason,
}
use temenos.Daemon.Request.{ExecConfig}
use temenos.Sandbox.Execution.{
  Cmd, CgroupError, ExecError, Outcome, Event, Machine, BwrapSandbox, Sandbox, failed, classify,
  effective_timeout, cleanup, no_sandbox, start_failed, no_temp_dir, policy_failed, no_id,
  no_delegated, not_under_root, not_initialized, manager, open_failed, cgroup_setup_failed, bwrap,
  seatbelt, noop, unavailable_on, group_made, started, process_killed, temp_made, temp_removed,
  dir_opened,
}

abbrev hex_char : ℕ → ℕ
hex_char d = if ltb d 10 then 48 + d else 87 + d

-- `hex.EncodeToString`
abbrev hex_encode : Bytes → Bytes
hex_encode [] = []
hex_encode (b ∷ bs) = hex_char (b / 16) ∷ hex_char (b % 16) ∷ hex_encode bs

-- The error of `UnavailableSandbox.Exec`; the dash stands for its bytes in UTF-8.
abbrev pub no_sandbox_on : Bytes → ExecError
no_sandbox_on platform = no_sandbox (
    codes "no sandbox available on "
    ++ platform
    ++ codes
        " — install bwrap (Linux) or check sandbox-exec (macOS), or set AllowUnsandboxed=true for local dev")

module _ (machine : Machine) where
  -- `runCmdWithHook`, with a context that the timeout ends.
  unfoldable pub run_cmd_with_hook : ℤ → Cmd → Option (ℕ → Option ExecError) → List Event × Outcome
  unfolding classify
  run_cmd_with_hook timeout cmd post_start = elim (machine.start cmd) [
    | err e ↦ ([], failed (start_failed e))
    | ok pid ↦ elim post_start [
      | none ↦ (started cmd ∷ [], classify (machine.finish timeout cmd))
      | some hook ↦ elim (hook pid) [
        | some e ↦ (started cmd ∷ process_killed pid ∷ [], failed e)
        | none ↦ (started cmd ∷ [], classify (machine.finish timeout cmd))
      ]
    ]
  ]

  unfoldable pub run_cmd : ℤ → Cmd → List Event × Outcome
  unfolding run_cmd_with_hook
  run_cmd timeout cmd = run_cmd_with_hook timeout cmd none

  abbrev pub noop_cmd : Bool → Bytes → ExecConfig → Cmd
  unfolding build_env build_sandbox_path
  noop_cmd darwin command cfg = record {
    path = codes "bash";
    args = codes "-c" ∷ command ∷ [];
    env = build_env (build_sandbox_path machine.host darwin) cfg.env [];
    dir = cfg.working_dir;
    cgroup_fd = none;
  }

  -- `NoopSandbox.Exec`
  unfoldable pub noop_exec : Bool → ℤ → Bytes → ExecConfig → List Event × Outcome
  unfolding run_cmd effective_timeout noop_cmd
  noop_exec darwin timeout command cfg =
      run_cmd (effective_timeout timeout) (noop_cmd darwin command cfg)

  abbrev pub seatbelt_cmd : Bytes → List Bytes → Bytes → Bytes → ExecConfig → Cmd
  unfolding build_env build_sandbox_path
  seatbelt_cmd policy d_params tmp_dir command cfg = record {
    path = codes "/usr/bin/sandbox-exec";
    args =
        codes "-p" ∷ policy ∷ (d_params ++ codes "--" ∷ codes "bash" ∷ codes "-c" ∷ command ∷ []);
    env = build_env (build_sandbox_path machine.host true) cfg.env tmp_dir;
    dir = first_given cfg.working_dir tmp_dir;
    cgroup_fd = none;
  }

  -- The temporary directory is made before, and its removal asked for after.
  abbrev pub in_temp_dir : Bytes → List Event × Outcome → List Event × Outcome
  in_temp_dir tmp_dir (events, outcome) = (
    temp_made tmp_dir ∷ (events ++ temp_removed tmp_dir (machine.remove_all tmp_dir) ∷ []),
    outcome,
  )

  -- `SeatbeltSandbox.Exec`
  unfoldable pub seatbelt_exec : ℤ → Bytes → ExecConfig → List Event × Outcome
  unfolding run_cmd effective_timeout build_policy seatbelt_cmd
  seatbelt_exec timeout command cfg = elim machine.mkdir_temp [
    | err e ↦ ([], failed (no_temp_dir e))
    | ok tmp_dir ↦
        in_temp_dir tmp_dir
          (elim (build_policy machine.quote machine.templates machine.host machine.user_cache_dir
            cfg) [
              | err e ↦ ([], failed (policy_failed e))
              | ok (policy, d_params) ↦
                  run_cmd (effective_timeout timeout)
                    (seatbelt_cmd policy d_params tmp_dir command cfg)
            ])
  ]

  -- `execWithCgroup` and what is behind it in `Exec`, the clean-up included.
  unfoldable pub run_in_cgroup : ℤ → Cmd → Bytes → List Event × Outcome
  unfolding run_cmd
  run_in_cgroup timeout cmd path = elim (machine.open_dir path) [
    | err e ↦ (cleanup machine path none, failed (open_failed e))
    | ok fd ↦
        let (events, outcome) = run_cmd timeout (record cmd { cgroup_fd = some fd }) in
        (dir_opened fd ∷ (events ++ cleanup machine path (some fd)), outcome)
  ]

  abbrev pub in_new_group : ℤ → Cmd → List Event × Result CgroupError Bytes → List Event × Outcome
  unfolding run_in_cgroup
  in_new_group timeout cmd (events, err e) = (events, failed (cgroup_setup_failed e))
  in_new_group timeout cmd (events, ok path) =
      let (more, outcome) = run_in_cgroup timeout cmd path in (events ++ more, outcome)

  abbrev pub bwrap_cmd : BwrapSandbox → Bytes → ExecConfig → Cmd
  unfolding build_args build_env build_sandbox_path
  bwrap_cmd b command cfg = record {
    path = b.bwrap_path;
    args = build_args machine.host b.kubernetes_mode command cfg;
    env = build_env (build_sandbox_path machine.host false) cfg.env (codes "/home/agent");
    dir = [];
    cgroup_fd = none;
  }

  module _ (kernel : Kernel) where
    -- The path of `newCgroupExec`, and the path below the root.
    unfoldable pub exec_cgroup_path : Package kernel.State → Result CgroupError (Bytes × Bytes)
    unfolding join_path cut_prefix cgroup_root discover_delegated_path_at
    exec_cgroup_path p = elim machine.random [
      | none ↦ err no_id
      | some id ↦
          let base : Option Bytes =
            if is_empty p.exec_cgroup_base
            then discover_delegated_path_at kernel p.machine self_cgroup_file cgroup_root
            else some p.exec_cgroup_base in
          elim base [
            | none ↦ err no_delegated
            | some base_path ↦
                let path = join_path (base_path ∷ (codes "temenos-exec-" ++ hex_encode id) ∷ []) in
                elim (cut_prefix cgroup_root path) [
                  | none ↦ err not_under_root
                  | some relative ↦
                      if is_empty relative then err not_under_root else ok (path, relative)
                ]
          ]
    ]

    -- `newCgroupExec`: the path of the group that is made.
    unfoldable pub new_cgroup_exec :
        Package kernel.State → ℤ → List Event × Result CgroupError Bytes
    unfolding exec_cgroup_path scale_64
    new_cgroup_exec p memory_mb =
        if not p.is_ready then ([], err not_initialized) else elim (exec_cgroup_path p) [
          | err e ↦ ([], err e)
          | ok (path, relative) ↦
              let mem_limit = scale_64 (scale_64 memory_mb 1024) 1024 in
              elim (machine.new_manager relative mem_limit (pos 0)) [
                | some e ↦ ([], err (manager e))
                | none ↦ (group_made path mem_limit (pos 0) ∷ [], ok path)
              ]
        ]

    -- The end of `BwrapSandbox.Exec`, once it is known whether cgroups are available.
    abbrev pub limited :
        ℤ
        → Cmd
        → ℤ
        → Package kernel.State × Option Unavailable
        → Package kernel.State × List Event × Outcome
    unfolding run_cmd new_cgroup_exec run_in_cgroup
    limited timeout cmd memory_mb (p, some reason) =
        let (events, outcome) = run_cmd timeout cmd in (p, events, outcome)
    limited timeout cmd memory_mb (p, none) =
        let (events, outcome) = in_new_group timeout cmd (new_cgroup_exec p memory_mb) in
        (p, events, outcome)

    -- `BwrapSandbox.Exec`
    unfoldable pub bwrap_exec :
        BwrapSandbox
        → Bytes
        → ExecConfig
        → Package kernel.State
        → Package kernel.State × List Event × Outcome
    unfolding run_cmd effective_timeout cgroup_v2_reason limited in_new_group bwrap_cmd build_args
        build_env build_sandbox_path new_cgroup_exec run_in_cgroup
    bwrap_exec b command cfg p =
        let timeout = effective_timeout b.timeout in
        if not (is_positive b.memory_limit_mb)
        then (let (events, outcome) = run_cmd timeout (bwrap_cmd b command cfg) in
            (p, events, outcome))
        else limited timeout (bwrap_cmd b command cfg) b.memory_limit_mb (cgroup_v2_reason kernel p)

    -- `Exec` of the interface `Sandbox`.
    unfoldable pub exec :
        Bool
        → Sandbox
        → Bytes
        → ExecConfig
        → Package kernel.State
        → Package kernel.State × List Event × Outcome
    unfolding bwrap_exec seatbelt_exec noop_exec
    exec darwin (bwrap b) command cfg p = bwrap_exec b command cfg p
    exec darwin (seatbelt timeout) command cfg p =
        let (events, outcome) = seatbelt_exec timeout command cfg in (p, events, outcome)
    exec darwin (noop timeout) command cfg p =
        let (events, outcome) = noop_exec darwin timeout command cfg in (p, events, outcome)
    exec darwin (unavailable_on platform) command cfg p = (p, [], failed (no_sandbox_on platform))
