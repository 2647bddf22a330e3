-- ===== src/Daemon/Run/Handled.antt =====
-- internal/daemon/handler.go: the run handler as a whole.
use mathlib.Core.Path.{subst}
use temenos.Base.{
  ℕ, ◌≡◌, refl, sym, ap, ◌∙◌, ◌⊎◌, inl, inr, true, false, none, some, List, ◌∷◌, ◌++◌, map, any,
  All, Bytes, codes, Result, ok, err, Bool-cases, Option-cases, Result-cases,
}
use temenos.Sandbox.Config.{Config, baseline_mounts, matches_any}
use temenos.Sandbox.Mounts.{source_of, ancestor_mount}
use temenos.Sandbox.Mounts.Added.{AreFresh}
use temenos.Sandbox.Environ.{build_env}
use temenos.Sandbox.Environ.Winner.{winner}
use temenos.Daemon.Jobs.{BackgroundJob, JobManager, modify}
use temenos.Daemon.Jobs.Registry.{IsUnregistered}
use temenos.Daemon.Request.{RunRequest, ExecConfig, working_dir_of}
use temenos.Daemon.Request.Directories.{IsAbsolute, IsSettled, mount_of, build_mounts_lem}
use temenos.Daemon.Request.Environment.{request_cannot_set_path}
use temenos.Daemon.Run.{
  Review, HandlerError, invalid, RunResponse, Daemon, Circumstances, start, check_request, poll,
  is_released, release, handle_run, cancel_job,
}
use temenos.Daemon.Run.Outcome.{
  Keeps, Outcome, Settles, poll-Settles, update-same, cancel-Outcome, Settles-Outcome,
}
use temenos.Daemon.Run.Ending.{is_final, poll_ends}
use temenos.Daemon.Run.Launching.{
  asked_for, entered, launch_of, handle_run-denied, handle_run-granted, run_auto_background-invalid,
  run_auto_background-started, release-launched, release-jobs, check_request_ok,
}

-- What the handler may start for a request: only mounts of the configuration, of the cleaned absolute
-- paths of the request, and metadata of further directories; and a process that searches the
-- sandbox's own path.
pub record IsConfined (cfg : Config) (temp_dir : Bytes) (req : RunRequest) (x : ExecConfig)
    : Type 0 where
  pub absolute : All IsAbsolute req.allowed_paths
  pub settled : All IsSettled (map mount_of req.allowed_paths)
  pub ancestors : List Bytes
  pub mounts :
      x.mount_dirs
      ≡ (baseline_mounts cfg ++ map mount_of req.allowed_paths) ++ map ancestor_mount ancestors
  pub fresh :
      AreFresh (map source_of (baseline_mounts cfg ++ map mount_of req.allowed_paths)) ancestors
  pub directory : x.working_dir ≡ working_dir_of temp_dir req.allowed_paths
  pub path :
      (search_path home : Bytes)
      → winner (codes "PATH") (build_env search_path x.env home) ≡ some search_path

check_request-IsConfined :
    (cfg : Config) (temp_dir : Bytes) (req : RunRequest) (stripped : List Bytes) (x : ExecConfig)
    → matches_any cfg.allow_env (codes "PATH") ≡ false
    → check_request cfg temp_dir req ≡ ok (stripped, x)
    → IsConfined cfg temp_dir req x
check_request-IsConfined cfg temp_dir req stripped x closed h =
    let (made, valid, env, dir) = check_request_ok cfg temp_dir req stripped x h in
    let (a, settled, added, same, fresh) =
      build_mounts_lem (baseline_mounts cfg) req.allowed_paths x.mount_dirs made in
    record {
      absolute = a;
      settled = settled;
      ancestors = added;
      mounts = same;
      fresh = fresh;
      directory = dir;
      path = λ search_path home.
          rw env (request_cannot_set_path cfg req.env search_path home valid closed);
    }

-- If no pattern of the operator lets the key PATH through, the handler either starts nothing,
-- registers nothing and replies with an error, or it has authorized the request and starts one
-- confined execution of its command, under its deadline.
pub handle_run_launches :
    (review : Review) (cfg : Config) (at : Circumstances) (req : RunRequest) (d : Daemon)
    → matches_any cfg.allow_env (codes "PATH") ≡ false
    → (((handle_run review cfg at req d).0.launched ≡ d.launched)
        × ((handle_run review cfg at req d).0.manager.jobs ≡ d.manager.jobs)
        × ((e : HandlerError) × ((handle_run review cfg at req d).1 ≡ some (err e))))
      ⊎ (((asked_for review cfg at req d).1 ≡ none)
          × ((x : ExecConfig) × IsConfined cfg at.temp_dir req x
              × ((handle_run review cfg at req d).0.launched
                  ≡ launch_of cfg req x d.next ∷ d.launched)))
handle_run_launches review cfg at req d closed =
    let before = entered review cfg at req d in
    elim (Option-cases (asked_for review cfg at req d).1) [
      | inr (e, denied) ↦
          inl (rw (handle_run-denied review cfg at req d e denied) (refl, refl, (e, refl)))
      | inl granted ↦ elim (Result-cases (check_request cfg at.temp_dir req)) [
        | inr (e, wrong) ↦ inl (
            rw
              (
                handle_run-granted review cfg at req d granted,
                run_auto_background-invalid cfg at req before e wrong,
              )
              (
                release-launched d.next (some (err (invalid e))) before,
                release-jobs d.next (some (err (invalid e))) before,
                (invalid e, refl),
              ))
        | inl ((stripped, x), right) ↦ inr (
          granted,
          (
            x,
            check_request-IsConfined cfg at.temp_dir req stripped x closed right,
            rw
                (
                  handle_run-granted review cfg at req d granted,
                  run_auto_background-started cfg at req before stripped x right,
                )
                (release-launched d.next _ _ ∙ (unfold start in refl)),
          ),
        )
      ]
    ]

-- The job is where the reply says, and it is cancelled unless it goes on in the background.
abbrev pub IsHandled : ℕ → JobManager → Result HandlerError RunResponse → Type 0
IsHandled a m r = Outcome a m r × ((is_released (some r) ≡ false) ⊎ ((m.heap a).cancelled ≡ true))

module _ (a : ℕ) (r : Result HandlerError RunResponse) (d : Daemon) where
  release-kept : is_released (some r) ≡ false → release a (some r) d ≡ d
  unfolding release
  release-kept e = rw e refl

  release-cancels :
      is_released (some r) ≡ true
      → release a (some r) d ≡ record d { manager = modify cancel_job a d.manager }
  unfolding release
  release-cancels e = rw e refl

  release-IsHandled : Outcome a d.manager r → IsHandled a (release a (some r) d).manager r
  release-IsHandled h = elim (Bool-cases (is_released (some r))) [
    | inr going ↦
        subst (λ (e : Daemon). IsHandled a e.manager r) (sym (release-kept going)) (h, inl going)
    | inl over ↦
        subst (λ (e : Daemon). IsHandled a e.manager r) (sym (release-cancels over))
          (
            cancel-Outcome a d.manager r h,
            inr (
                ap (λ (j : BackgroundJob). j.cancelled)
                  (update-same d.manager.heap a (cancel_job (d.manager.heap a)))),
          )
  ]

-- A request that is authorized and accepted gets a reply, if the timer or the end of the client
-- comes, and with it the job is where the reply says: registered under its identifier for a reply
-- "background"; done, cancelled and in no registry for a reply with output; cancelled and in no
-- registry for an error. The other goroutines do not register the job, whose address is new.
pub handle_run_replies :
    (review : Review) (cfg : Config) (at : Circumstances) (req : RunRequest) (d : Daemon)
    (accepted : List Bytes × ExecConfig)
    → (asked_for review cfg at req d).1 ≡ none
    → check_request cfg at.temp_dir req ≡ ok accepted
    → All (Keeps d.next) at.moments
    → any (λ t. is_final t.signal) at.moments ≡ true
    → IsUnregistered d.next d.manager
    → (r : Result HandlerError RunResponse) × ((handle_run review cfg at req d).1 ≡ some r)
      × IsHandled d.next (handle_run review cfg at req d).0.manager r
handle_run_replies review cfg at req d (stripped, x) granted right ks final free =
    let before = entered review cfg at req d in
    let started = start cfg at req x before in
    let (r, same) = poll_ends d.next stripped at.moments started.manager final in
    let settled : Settles d.next (poll d.next stripped at.moments started.manager) =
      poll-Settles d.next stripped at.moments started.manager ks (unfold start in free) in
    (
      r,
      rw
          (
            handle_run-granted review cfg at req d granted,
            run_auto_background-started cfg at req before stripped x right,
          )
          same,
      rw
          (
            handle_run-granted review cfg at req d granted,
            run_auto_background-started cfg at req before stripped x right,
            same,
          )
          (release-IsHandled d.next r
            (record started { manager = (poll d.next stripped at.moments started.manager).0 })
            (Settles-Outcome d.next (poll d.next stripped at.moments started.manager) r settled
              same)),
    )
