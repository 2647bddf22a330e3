-- ===== src/Sandbox/Execution/Outputs.antt =====
-- sandbox/sandbox.go: the outputs of a command and its exit code.
use temenos.Base.{
  length-take_le, ℕ, ◌≤◌, ◌≡◌, refl, Bool, Option, none, some, List, Bytes, codes, ltb, take,
  length, length-append, Result, ok, err, arith, Bool-cases, Result-cases, inl, inr,
}
use temenos.Base.Int.{ℤ, pos, negsuc, is_positive}
use temenos.Sandbox.Seatbelt.{build_policy}
use temenos.Sandbox.Cgroup.{Kernel, Package, Unavailable, cgroup_v2_reason}
use temenos.Daemon.Request.{ExecConfig}
use temenos.Sandbox.Execution.{
  Cmd, Waited, Finish, ExecError, CgroupError, Outcome, Event, Machine, BwrapSandbox, Sandbox,
  bwrap, seatbelt, noop, unavailable_on, effective_timeout, truncate, exited, exit_error,
  wait_error, start_failed, no_temp_dir, policy_failed, open_failed, cgroup_setup_failed,
  context_done, wait_failed, max_output_bytes, failed, classify,
}
use temenos.Sandbox.Execution.Run.{
  run_cmd_with_hook, run_cmd, noop_exec, seatbelt_exec, seatbelt_cmd, new_cgroup_exec,
  run_in_cgroup, in_new_group, bwrap_cmd, noop_cmd, no_sandbox_on, limited, bwrap_exec, exec,
}

-- The limit with the note that is written behind it.
abbrev pub max_returned : ℕ
max_returned = 65555

length-truncate : (s : Bytes) → length (truncate s max_output_bytes) ≤ max_returned
unfolding truncate
length-truncate s = elim (Bool-cases (ltb max_output_bytes (length s))) [
  | inl long ↦
      rw (truncate, long)
        (let cut : length (take max_output_bytes s) ≤ max_output_bytes =
            length-take_le max_output_bytes s in
          rw (length-append (take max_output_bytes s) (codes "\n[output truncated]")) (omega arith))
  | inr short ↦ rw (truncate, short) (ground (arith, short))
]

-- What every outcome is like.
pub record IsBounded (o : Outcome) : Type 0 where
  pub stdout : length o.stdout ≤ max_returned
  pub stderr : length o.stderr ≤ max_returned
  pub code : (e : ExecError) → o.error ≡ some e → o.exit_code ≡ negsuc 0

failed-IsBounded : (e : ExecError) → IsBounded (failed e)
failed-IsBounded e = record { stdout = ground arith; stderr = ground arith; code = λ f h. refl }

module _ (out errors : Bytes) where
  bounded :
      (code : ℤ) (error : Option ExecError)
      → ((e : ExecError) → error ≡ some e → code ≡ negsuc 0)
      → IsBounded (record {
        stdout = truncate out max_output_bytes;
        stderr = truncate errors max_output_bytes;
        exit_code = code;
        error = error;
      })
  bounded code error h = record {
    stdout = length-truncate out;
    stderr = length-truncate errors;
    code = h;
  }

  classify-fields :
      (w : Waited) (c : Option Bytes)
      → IsBounded (classify (record { stdout = out; stderr = errors; waited = w; ctx_err = c }))
  unfolding classify
  classify-fields w (some e) = bounded (negsuc 0) (some (context_done e)) (λ x h. refl)
  classify-fields exited none = bounded (pos 0) none (λ x h. ground arith)
  classify-fields (exit_error code) none = bounded code none (λ x h. ground arith)
  classify-fields (wait_error e) none = bounded (negsuc 0) (some (wait_failed e)) (λ x h. refl)

classify-IsBounded : (f : Finish) → IsBounded (classify f)
classify-IsBounded f = classify-fields f.stdout f.stderr f.waited f.ctx_err

module _ (machine : Machine) where
  run_cmd-IsBounded : (timeout : ℤ) (cmd : Cmd) → IsBounded ((run_cmd machine timeout cmd).1)
  unfolding run_cmd run_cmd_with_hook
  run_cmd-IsBounded timeout cmd = elim (Result-cases (machine.start cmd)) [
    | inl (pid, is) ↦ rw (run_cmd_with_hook, is) (classify-IsBounded (machine.finish timeout cmd))
    | inr (e, is) ↦ rw (run_cmd_with_hook, is) (failed-IsBounded (start_failed e))
  ]

  seatbelt_exec-IsBounded :
      (timeout : ℤ) (command : Bytes) (cfg : ExecConfig)
      → IsBounded ((seatbelt_exec machine timeout command cfg).1)
  unfolding seatbelt_exec
  seatbelt_exec-IsBounded timeout command cfg = elim (Result-cases machine.mkdir_temp) [
    | inr (e, is) ↦ rw (seatbelt_exec, is) (failed-IsBounded (no_temp_dir e))
    | inl (tmp_dir, is) ↦
        rw (seatbelt_exec, is)
          (elim (Result-cases (
            build_policy machine.quote machine.templates machine.host machine.user_cache_dir cfg)) [
              | inr (e, bad) ↦ rw bad (failed-IsBounded (policy_failed e))
              | inl ((policy, params), good) ↦ rw good (
                  run_cmd-IsBounded (effective_timeout timeout)
                    (seatbelt_cmd machine policy params tmp_dir command cfg))
            ])
  ]

  run_in_cgroup-IsBounded :
      (timeout : ℤ) (cmd : Cmd) (path : Bytes)
      → IsBounded ((run_in_cgroup machine timeout cmd path).1)
  unfolding run_in_cgroup
  run_in_cgroup-IsBounded timeout cmd path = elim (Result-cases (machine.open_dir path)) [
    | inr (e, is) ↦ rw (run_in_cgroup, is) (failed-IsBounded (open_failed e))
    | inl (fd, is) ↦
        rw (run_in_cgroup, is) (run_cmd-IsBounded timeout (record cmd { cgroup_fd = some fd }))
  ]

  in_new_group-IsBounded :
      (timeout : ℤ) (cmd : Cmd) (made : List Event × Result CgroupError Bytes)
      → IsBounded ((in_new_group machine timeout cmd made).1)
  unfolding run_in_cgroup
  in_new_group-IsBounded timeout cmd (events, err e) = failed-IsBounded (cgroup_setup_failed e)
  in_new_group-IsBounded timeout cmd (events, ok path) = run_in_cgroup-IsBounded timeout cmd path

  limited-IsBounded :
      (K : Kernel) (timeout : ℤ) (cmd : Cmd) (memory_mb : ℤ)
      (q : Package K.State × Option Unavailable)
      → IsBounded ((limited machine K timeout cmd memory_mb q).2)
  unfolding run_cmd new_cgroup_exec run_in_cgroup
  limited-IsBounded K timeout cmd memory_mb (p, some reason) = run_cmd-IsBounded timeout cmd
  limited-IsBounded K timeout cmd memory_mb (p, none) =
      in_new_group-IsBounded timeout cmd (new_cgroup_exec machine K p memory_mb)

  bwrap_exec-IsBounded :
      (K : Kernel) (b : BwrapSandbox) (command : Bytes) (cfg : ExecConfig) (p : Package K.State)
      → IsBounded ((bwrap_exec machine K b command cfg p).2)
  unfolding bwrap_exec
  bwrap_exec-IsBounded K b command cfg p = elim (Bool-cases (is_positive b.memory_limit_mb)) [
    | inr unlimited ↦
        rw (bwrap_exec, unlimited)
          (run_cmd-IsBounded (effective_timeout b.timeout) (bwrap_cmd machine b command cfg))
    | inl wanted ↦
        rw (bwrap_exec, wanted)
          (limited-IsBounded K (effective_timeout b.timeout) (bwrap_cmd machine b command cfg)
            b.memory_limit_mb (cgroup_v2_reason K p))
  ]

-- Whatever sandbox executes a command, and whatever the machine answers, the two outputs that come back
-- are at most the limit of 64 KiB and the note long, and an error comes with the exit code -1.
pub exec-IsBounded :
    (darwin : Bool) (machine : Machine) (K : Kernel) (sandbox : Sandbox) (command : Bytes)
    (cfg : ExecConfig) (p : Package K.State)
    → IsBounded ((exec machine K darwin sandbox command cfg p).2)
unfolding exec noop_exec
exec-IsBounded darwin machine K (bwrap b) command cfg p =
    bwrap_exec-IsBounded machine K b command cfg p
exec-IsBounded darwin machine K (seatbelt timeout) command cfg p =
    seatbelt_exec-IsBounded machine timeout command cfg
exec-IsBounded darwin machine K (noop timeout) command cfg p =
    run_cmd-IsBounded machine (effective_timeout timeout) (noop_cmd machine darwin command cfg)
exec-IsBounded darwin machine K (unavailable_on platform) command cfg p =
    failed-IsBounded (no_sandbox_on platform)
