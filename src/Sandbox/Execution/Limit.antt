-- ===== src/Sandbox/Execution/Limit.antt =====
-- sandbox/bwrap.go, sandbox/cgroup.go, sandbox/cgroup_bwrap.go: the memory limit of a command.
use mathlib.Core.Path.{subst}
use temenos.Base.{
  ℕ, ◌*◌, ◌<◌, ◌≡◌, refl, ap, ◌∙◌, true, Option, none, some, List, [], ◌∷◌, Bytes, ◌⊎◌, ok, err,
  All, arith, Bool-cases, Option-cases, Result-cases, inl, inr,
}
use temenos.Base.Int.{ℤ, pos, is_positive, scale_64, scale_64-pos}
use temenos.Sandbox.Cgroup.{Kernel, Package, Unavailable, cgroup_v2_reason}
use temenos.Daemon.Request.{ExecConfig}
use temenos.Sandbox.Execution.{
  Cmd, CgroupError, Event, group_made, not_initialized, manager, Machine, BwrapSandbox,
  effective_timeout,
}
use temenos.Sandbox.Execution.Run.{
  exec_cgroup_path, new_cgroup_exec, run_in_cgroup, in_new_group, bwrap_cmd, limited, bwrap_exec,
}
use temenos.Sandbox.Execution.Commands.{OnStart, run_in_cgroup-OnStart}

-- A command that is placed into a group as it starts, by a descriptor of the group's directory.
abbrev pub IsPlaced : Machine → Bytes → Cmd → Type 0
IsPlaced machine path cmd = (fd : ℕ) × (machine.open_dir path ≡ ok fd) × (cmd.cgroup_fd ≡ some fd)

-- Nothing is done, or a group with the limit and no swap comes first and every command is placed into it.
abbrev pub IsLimited : Machine → ℤ → List Event → Type 0
IsLimited machine limit events =
    (events ≡ [])
    ⊎ ((path : Bytes) × (rest : List Event) × (events ≡ group_made path limit (pos 0) ∷ rest)
        × All (OnStart (IsPlaced machine path)) rest)

module _ (machine : Machine) (K : Kernel) where
  pub new_cgroup_exec-cases :
      (p : Package K.State) (memory_mb : ℤ)
      → ((e : CgroupError) × (new_cgroup_exec machine K p memory_mb ≡ ([], err e)))
        ⊎ ((path : Bytes) × (new_cgroup_exec machine K p memory_mb
              ≡ (group_made path (scale_64 (scale_64 memory_mb 1024) 1024) (pos 0) ∷ [], ok path)))
  unfolding new_cgroup_exec
  new_cgroup_exec-cases p memory_mb = elim (Bool-cases p.is_ready) [
    | inr unready ↦ rw (new_cgroup_exec, unready) (inl (not_initialized, refl))
    | inl ready ↦
        rw (new_cgroup_exec, ready)
          (elim (Result-cases (exec_cgroup_path machine K p)) [
            | inr (e, is) ↦ rw is (inl (e, refl))
            | inl ((path, relative), is) ↦
                rw is
                  (elim (Option-cases (
                    machine.new_manager relative (scale_64 (scale_64 memory_mb 1024) 1024)
                      (pos 0))) [
                        | inr (e, bad) ↦ rw bad (inl (manager e, refl))
                        | inl good ↦ rw good (inr (path, refl))
                      ])
          ])
  ]

  limited-IsLimited :
      (timeout : ℤ) (cmd : Cmd) (memory_mb : ℤ) (q : Package K.State × Option Unavailable)
      → q.1 ≡ none
      → IsLimited machine
          (scale_64 (scale_64 memory_mb 1024) 1024)
          ((limited machine K timeout cmd memory_mb q).1)
  unfolding new_cgroup_exec run_in_cgroup
  limited-IsLimited timeout cmd memory_mb (p, some reason) h = ground arith
  limited-IsLimited timeout cmd memory_mb (p, none) h = elim (new_cgroup_exec-cases p memory_mb) [
    | inl (e, is) ↦ inl (ap (λ made. (in_new_group machine timeout cmd made).0) is)
    | inr (path, is) ↦ inr (
      path,
      (run_in_cgroup machine timeout cmd path).0,
      ap (λ made. (in_new_group machine timeout cmd made).0) is,
      run_in_cgroup-OnStart (IsPlaced machine path) machine timeout cmd path
          (λ fd opened. (fd, opened, refl)),
    )
  ]

-- Where a memory limit of n MiB is set, which does not leave 64 bits, and the caller has found that
-- cgroups can be used, an execution of bubblewrap does nothing at all, or it makes a cgroup with the limit
-- of n MiB and no swap first, and every command that it starts then is placed into this cgroup as it starts.
pub bwrap_exec-IsLimited :
    (machine : Machine) (K : Kernel) (b : BwrapSandbox) (command : Bytes) (cfg : ExecConfig)
    (p : Package K.State) (n : ℕ)
    → b.memory_limit_mb ≡ pos n
    → 0 < n
    → n * 1048576 < 9223372036854775808
    → (cgroup_v2_reason K p).1 ≡ none
    → IsLimited machine (pos (n * 1048576)) ((bwrap_exec machine K b command cfg p).1)
unfolding bwrap_exec
bwrap_exec-IsLimited machine K b command cfg p n is positive fits available =
    let wanted : is_positive b.memory_limit_mb ≡ true = rw is (ground arith) in
    let kib : n * 1024 < 9223372036854775808 = omega arith in
    let mib : n * 1024 * 1024 < 9223372036854775808 = omega arith in
    let product : n * 1024 * 1024 ≡ n * 1048576 = omega arith in
    let limit : scale_64 (scale_64 b.memory_limit_mb 1024) 1024 ≡ pos (n * 1048576) =
      ap (λ m. scale_64 (scale_64 m 1024) 1024) is
      ∙ (ap (λ m. scale_64 m 1024) (scale_64-pos n 1024 kib)
          ∙ (scale_64-pos (n * 1024) 1024 mib ∙ ap pos product)) in
    let timeout = effective_timeout b.timeout in
    rw (bwrap_exec, wanted)
      (subst
        (λ l. IsLimited machine l (
          (limited machine K timeout (bwrap_cmd machine b command cfg) b.memory_limit_mb
            (cgroup_v2_reason K p)).1))
        limit
        (limited-IsLimited machine K timeout (bwrap_cmd machine b command cfg) b.memory_limit_mb
          (cgroup_v2_reason K p) available))
