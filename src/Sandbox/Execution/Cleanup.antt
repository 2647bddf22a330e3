-- ===== src/Sandbox/Execution/Cleanup.antt =====
-- sandbox/seatbelt.go, sandbox/bwrap.go, sandbox/cgroup.go: what an execution takes and gives back.
use mathlib.Core.Path.{subst}
use temenos.Base.{
  ℕ, ◌≡◌, refl, ap, ◌∙◌, Bool, true, false, Option, none, some, List, [], ◌∷◌, ◌++◌, if◌then◌else◌,
  Bytes, bytes_eq, bytes_eq_refl, ◌==◌, arith, Bool-cases, Option-cases, Result-cases, inl, inr,
  sym, append_assoc,
}
use temenos.Base.Int.{ℤ, is_positive}
use temenos.Sandbox.Seatbelt.{build_policy}
use temenos.Sandbox.Cgroup.{Kernel, Package, Unavailable, cgroup_v2_reason}
use temenos.Daemon.Request.{ExecConfig}
use temenos.Sandbox.Execution.{
  Cmd, Event, group_made, group_killed, group_deleted, temp_made, temp_removed, dir_opened,
  dir_closed, started, process_killed, Machine, BwrapSandbox, Sandbox, bwrap, seatbelt, noop,
  unavailable_on, effective_timeout, cleanup,
}
use temenos.Sandbox.Execution.Run.{
  run_cmd_with_hook, run_cmd, noop_exec, seatbelt_exec, seatbelt_cmd, new_cgroup_exec,
  run_in_cgroup, in_new_group, bwrap_cmd, noop_cmd, limited, bwrap_exec, exec,
}
use temenos.Sandbox.Execution.Limit.{new_cgroup_exec-cases}

pub data Resource : Type 0 where
  live_group doomed_group temp : Bytes → Resource
  descriptor : ℕ → Resource

unfoldable pub is_resource : Resource → Resource → Bool
unfolding bytes_eq
is_resource (live_group a) (live_group b) = bytes_eq a b
is_resource (doomed_group a) (doomed_group b) = bytes_eq a b
is_resource (temp a) (temp b) = bytes_eq a b
is_resource (descriptor a) (descriptor b) = a == b
is_resource _ _ = false

-- Without the first that is the same; nothing changes where there is none.
unfoldable pub without : Resource → List Resource → List Resource
unfolding is_resource
without r [] = []
without r (s ∷ held) = let rest = without r held in if is_resource r s then held else s ∷ rest

-- What is held after an event. Only a group whose processes were to be killed is given back by its
-- deletion, and nothing is by a call that fails.
unfoldable pub after : Event → List Resource → List Resource
unfolding without
after (group_made path limit swap) held = live_group path ∷ held
after (group_killed path e) held = doomed_group path ∷ without (live_group path) held
after (group_deleted path none) held = without (doomed_group path) held
after (group_deleted path (some e)) held = held
after (temp_made path) held = temp path ∷ held
after (temp_removed path none) held = without (temp path) held
after (temp_removed path (some e)) held = held
after (dir_opened fd) held = descriptor fd ∷ held
after (dir_closed fd) held = without (descriptor fd) held
after (started cmd) held = held
after (process_killed pid) held = held

unfoldable pub held_after : List Event → List Resource → List Resource
unfolding after
held_after [] held = held
held_after (e ∷ es) held = held_after es (after e held)

-- What the machine has refused to take back.
unfoldable pub left_of : Event → List Resource
left_of (group_deleted path (some e)) = doomed_group path ∷ []
left_of (temp_removed path (some e)) = temp path ∷ []
left_of _ = []

unfoldable pub left_by : List Event → List Resource
unfolding left_of
left_by [] = []
left_by (e ∷ es) = left_of e ++ left_by es

held_after-append :
    (es fs : List Event) (held : List Resource)
    → held_after (es ++ fs) held ≡ held_after fs (held_after es held)
unfolding held_after
held_after-append [] fs held = refl
held_after-append (e ∷ es) fs held = held_after-append es fs (after e held)

left_by-append : (es fs : List Event) → left_by (es ++ fs) ≡ left_by es ++ left_by fs
unfolding left_by
left_by-append [] fs = refl
left_by-append (e ∷ es) fs =
    ap (λ rs. left_of e ++ rs) (left_by-append es fs)
    ∙ sym (append_assoc (left_of e) (left_by es) (left_by fs))

-- What was held before is held after, behind what the machine refused to take back.
abbrev GivesBack : List Resource → List Event → List Resource → Type 0
GivesBack before events held = held_after events before ≡ left_by events ++ held

module _ (machine : Machine) where
  run_cmd-held :
      (timeout : ℤ) (cmd : Cmd) (held : List Resource)
      → held_after ((run_cmd machine timeout cmd).0) held ≡ held
  unfolding run_cmd run_cmd_with_hook held_after after
  run_cmd-held timeout cmd held = elim (Result-cases (machine.start cmd)) [
    | inl (pid, is) ↦ rw (run_cmd_with_hook, is) refl
    | inr (e, is) ↦ rw (run_cmd_with_hook, is) refl
  ]

  left_by-run_cmd : (timeout : ℤ) (cmd : Cmd) → left_by ((run_cmd machine timeout cmd).0) ≡ []
  unfolding run_cmd run_cmd_with_hook left_by left_of
  left_by-run_cmd timeout cmd = elim (Result-cases (machine.start cmd)) [
    | inl (pid, is) ↦ rw (run_cmd_with_hook, is) refl
    | inr (e, is) ↦ rw (run_cmd_with_hook, is) refl
  ]

  run_cmd-GivesBack :
      (timeout : ℤ) (cmd : Cmd) (held : List Resource)
      → GivesBack held ((run_cmd machine timeout cmd).0) held
  run_cmd-GivesBack timeout cmd held =
      run_cmd-held timeout cmd held ∙ ap (λ rs. rs ++ held) (sym (left_by-run_cmd timeout cmd))

  -- A command, with what the clean-up behind it gives back.
  run_cmd-then :
      (timeout : ℤ) (cmd : Cmd) (es : List Event) (before held : List Resource)
      → GivesBack before es held
      → GivesBack before ((run_cmd machine timeout cmd).0 ++ es) held
  run_cmd-then timeout cmd es before held h =
      held_after-append ((run_cmd machine timeout cmd).0) es before
      ∙ (ap (held_after es) (run_cmd-held timeout cmd before)
          ∙ (h
              ∙ ap (λ rs. rs ++ held)
                  (sym (
                    left_by-append ((run_cmd machine timeout cmd).0) es
                    ∙ ap (λ rs. rs ++ left_by es) (left_by-run_cmd timeout cmd)))))

  -- The clean-up of a group, with and without a descriptor.
  cleanup-GivesBack :
      (path : Bytes) (held : List Resource)
      → GivesBack (live_group path ∷ held) (cleanup machine path none) held
  unfolding held_after after without is_resource left_by left_of
  cleanup-GivesBack path held = elim (Option-cases (machine.delete_group path)) [
    | inl deleted ↦ rw (deleted, bytes_eq_refl path) refl
    | inr (e, stays) ↦ rw (stays, bytes_eq_refl path) refl
  ]

  cleanup_open-GivesBack :
      (path : Bytes) (fd : ℕ) (held : List Resource)
      → GivesBack (descriptor fd ∷ live_group path ∷ held) (cleanup machine path (some fd)) held
  unfolding held_after after without is_resource left_by left_of
  cleanup_open-GivesBack path fd held =
      let same : (fd == fd) ≡ true = ground arith in
      elim (Option-cases (machine.delete_group path)) [
        | inl deleted ↦ rw (deleted, bytes_eq_refl path, same) refl
        | inr (e, stays) ↦ rw (stays, bytes_eq_refl path, same) refl
      ]

  run_in_cgroup-GivesBack :
      (timeout : ℤ) (cmd : Cmd) (path : Bytes) (held : List Resource)
      → GivesBack (live_group path ∷ held) ((run_in_cgroup machine timeout cmd path).0) held
  unfolding run_in_cgroup held_after after left_by left_of
  run_in_cgroup-GivesBack timeout cmd path held = elim (Result-cases (machine.open_dir path)) [
    | inr (e, is) ↦ rw (run_in_cgroup, is) (cleanup-GivesBack path held)
    | inl (fd, is) ↦
        rw (run_in_cgroup, is)
          (run_cmd-then timeout (record cmd { cgroup_fd = some fd })
            (cleanup machine path (some fd)) (descriptor fd ∷ live_group path ∷ held) held
            (cleanup_open-GivesBack path fd held))
  ]

  removal-GivesBack :
      (tmp_dir : Bytes) (held : List Resource)
      → GivesBack
          (temp tmp_dir ∷ held)
          (temp_removed tmp_dir (machine.remove_all tmp_dir) ∷ [])
          held
  unfolding held_after after without is_resource left_by left_of
  removal-GivesBack tmp_dir held = elim (Option-cases (machine.remove_all tmp_dir)) [
    | inl removed ↦ rw (removed, bytes_eq_refl tmp_dir) refl
    | inr (e, stays) ↦ rw stays refl
  ]

  seatbelt_exec-GivesBack :
      (timeout : ℤ) (command : Bytes) (cfg : ExecConfig) (held : List Resource)
      → GivesBack held ((seatbelt_exec machine timeout command cfg).0) held
  unfolding seatbelt_exec held_after after left_by left_of
  seatbelt_exec-GivesBack timeout command cfg held = elim (Result-cases machine.mkdir_temp) [
    | inr (e, is) ↦ rw (seatbelt_exec, is) refl
    | inl (tmp_dir, is) ↦
        rw (seatbelt_exec, is)
          (elim (Result-cases (
            build_policy machine.quote machine.templates machine.host machine.user_cache_dir cfg)) [
              | inr (e, bad) ↦ rw bad (removal-GivesBack tmp_dir held)
              | inl ((policy, params), good) ↦ rw good (
                  run_cmd-then (effective_timeout timeout)
                    (seatbelt_cmd machine policy params tmp_dir command cfg)
                    (temp_removed tmp_dir (machine.remove_all tmp_dir) ∷ []) (temp tmp_dir ∷ held)
                    held (removal-GivesBack tmp_dir held))
            ])
  ]

  in_new_group-GivesBack :
      (K : Kernel) (p : Package K.State) (memory_mb : ℤ) (timeout : ℤ) (cmd : Cmd)
      (held : List Resource)
      → GivesBack held
          ((in_new_group machine timeout cmd (new_cgroup_exec machine K p memory_mb)).0)
          held
  unfolding run_in_cgroup held_after after left_by left_of
  in_new_group-GivesBack K p memory_mb timeout cmd held =
      elim (new_cgroup_exec-cases machine K p memory_mb) [
        | inl (e, is) ↦
            subst (λ made. GivesBack held ((in_new_group machine timeout cmd made).0) held) (sym is)
              refl
        | inr (path, is) ↦
            subst (λ made. GivesBack held ((in_new_group machine timeout cmd made).0) held) (sym is)
              (run_in_cgroup-GivesBack timeout cmd path held)
      ]

  limited-GivesBack :
      (K : Kernel) (timeout : ℤ) (cmd : Cmd) (memory_mb : ℤ)
      (q : Package K.State × Option Unavailable) (held : List Resource)
      → GivesBack held ((limited machine K timeout cmd memory_mb q).1) held
  unfolding run_cmd new_cgroup_exec run_in_cgroup
  limited-GivesBack K timeout cmd memory_mb (p, some reason) held =
      run_cmd-GivesBack timeout cmd held
  limited-GivesBack K timeout cmd memory_mb (p, none) held =
      in_new_group-GivesBack K p memory_mb timeout cmd held

  bwrap_exec-GivesBack :
      (K : Kernel) (b : BwrapSandbox) (command : Bytes) (cfg : ExecConfig) (p : Package K.State)
      (held : List Resource)
      → GivesBack held ((bwrap_exec machine K b command cfg p).1) held
  unfolding bwrap_exec
  bwrap_exec-GivesBack K b command cfg p held = elim (Bool-cases (is_positive b.memory_limit_mb)) [
    | inr unlimited ↦
        rw (bwrap_exec, unlimited)
          (run_cmd-GivesBack (effective_timeout b.timeout) (bwrap_cmd machine b command cfg) held)
    | inl wanted ↦
        rw (bwrap_exec, wanted)
          (limited-GivesBack K (effective_timeout b.timeout) (bwrap_cmd machine b command cfg)
            b.memory_limit_mb (cgroup_v2_reason K p) held)
  ]

-- Whatever sandbox executes a command, and whatever the machine answers, an execution gives back what it
-- took: the descriptor it opened, the temporary directory, and the cgroup, whose processes it has asked
-- to kill before it deletes it. What was held before is held after, and beyond it exactly the
-- directory or the cgroup whose removal the machine has refused, an error that is only logged.
pub held_after-exec :
    (darwin : Bool) (machine : Machine) (K : Kernel) (sandbox : Sandbox) (command : Bytes)
    (cfg : ExecConfig) (p : Package K.State) (held : List Resource)
    → held_after ((exec machine K darwin sandbox command cfg p).1) held
      ≡ left_by ((exec machine K darwin sandbox command cfg p).1) ++ held
unfolding exec noop_exec held_after left_by
held_after-exec darwin machine K (bwrap b) command cfg p held =
    bwrap_exec-GivesBack machine K b command cfg p held
held_after-exec darwin machine K (seatbelt timeout) command cfg p held =
    seatbelt_exec-GivesBack machine timeout command cfg held
held_after-exec darwin machine K (noop timeout) command cfg p held =
    run_cmd-GivesBack machine (effective_timeout timeout) (noop_cmd machine darwin command cfg) held
held_after-exec darwin machine K (unavailable_on platform) command cfg p held = refl
