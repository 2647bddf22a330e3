-- ===== src/Daemon/Run/Launching.antt =====
-- internal/daemon/handler.go: when the run handler starts a command, and what it starts.

use temenos.Base.{
  ℕ, ◌≡◌, sym, ap, ◌∙◌, inl, inr, Option, none, some, List, Bytes, Result, ok, err, Result-cases,
  arith,
}
use temenos.Auth.{TokenCache}
use temenos.Sandbox.Config.{Config, baseline_mounts, filter_env}
use temenos.Sandbox.Mounts.{Mount}
use temenos.Daemon.Request.{
  RunRequest, RequestError, ExecConfig, build_mounts, validate_env, env_map_to_slice,
  build_exec_config, working_dir_of,
}
use temenos.Daemon.Run.{
  Review, HandlerError, invalid, Reply, Launch, Daemon, Circumstances, authorize, run_timeout,
  threshold, start, check_request, poll, run_auto_background, release, handle_run,
}

module _ (review : Review) (cfg : Config) (at : Circumstances) (req : RunRequest) (d : Daemon) where
  abbrev pub asked_for : Option TokenCache × Option HandlerError
  asked_for = authorize review at.asked at.answered cfg req.auth_token d.cache

  -- The state behind the authorization.
  abbrev pub entered : Daemon
  entered = record d { cache = asked_for.0 }

  pub handle_run-denied :
      (e : HandlerError)
      → asked_for.1 ≡ some e
      → handle_run review cfg at req d ≡ (entered, some (err e))
  unfolding handle_run
  handle_run-denied e h =
      ap
        (λ (o : Option HandlerError). elim o as (λ _. Daemon × Reply) [
          | some x ↦ (entered, some (err x))
          | none ↦ (
            release d.next (run_auto_background cfg at req entered).1
                (run_auto_background cfg at req entered).0,
            (run_auto_background cfg at req entered).1,
          )
        ])
        h

  pub handle_run-granted :
      asked_for.1 ≡ none
      → handle_run review cfg at req d ≡ (
        release d.next
            (run_auto_background cfg at req entered).1
            (run_auto_background cfg at req entered).0,
        (run_auto_background cfg at req entered).1,
      )
  unfolding handle_run
  handle_run-granted h =
      ap
        (λ (o : Option HandlerError). elim o as (λ _. Daemon × Reply) [
          | some x ↦ (entered, some (err x))
          | none ↦ (
            release d.next (run_auto_background cfg at req entered).1
                (run_auto_background cfg at req entered).0,
            (run_auto_background cfg at req entered).1,
          )
        ])
        h

module _ (cfg : Config) (at : Circumstances) (req : RunRequest) (d : Daemon) where
  pub run_auto_background-invalid :
      (e : RequestError)
      → check_request cfg at.temp_dir req ≡ err e
      → run_auto_background cfg at req d ≡ (d, some (err (invalid e)))
  unfolding run_auto_background
  run_auto_background-invalid e h =
      ap
        (λ (c : Result RequestError (List Bytes × ExecConfig)). elim c as (λ _. Daemon × Reply) [
          | err x ↦ (d, some (err (invalid x)))
          | ok (names, x) ↦ (
            record (start cfg at req x d) {
              manager = (poll d.next names at.moments (start cfg at req x d).manager).0;
            },
            (poll d.next names at.moments (start cfg at req x d).manager).1,
          )
        ])
        h

  pub run_auto_background-started :
      (stripped : List Bytes) (exec_cfg : ExecConfig)
      → check_request cfg at.temp_dir req ≡ ok (stripped, exec_cfg)
      → let started = start cfg at req exec_cfg d in
        run_auto_background cfg at req d ≡ (
          record started { manager = (poll d.next stripped at.moments started.manager).0 },
          (poll d.next stripped at.moments started.manager).1,
        )
  unfolding run_auto_background
  run_auto_background-started stripped exec_cfg h =
      ap
        (λ (c : Result RequestError (List Bytes × ExecConfig)). elim c as (λ _. Daemon × Reply) [
          | err x ↦ (d, some (err (invalid x)))
          | ok (names, x) ↦ (
            record (start cfg at req x d) {
              manager = (poll d.next names at.moments (start cfg at req x d).manager).0;
            },
            (poll d.next names at.moments (start cfg at req x d).manager).1,
          )
        ])
        h

-- The launch of a request.
abbrev pub launch_of : Config → RunRequest → ExecConfig → ℕ → Launch
launch_of cfg req exec_cfg a = record {
  address = a;
  command = req.command;
  config = exec_cfg;
  deadline = run_timeout req.timeout;
  background_after = threshold cfg;
}

-- `release` starts nothing.
pub release-launched : (a : ℕ) (r : Reply) (d : Daemon) → (release a r d).launched ≡ d.launched
unfolding release
release-launched a r d = ground arith

pub release-jobs : (a : ℕ) (r : Reply) (d : Daemon) → (release a r d).manager.jobs ≡ d.manager.jobs
unfolding release
release-jobs a r d = ground arith

ok_injective {ℓ κ} :
    {E : Type ℓ} {A : Type κ} {a b : A} → ◌≡◌ {A = Result E A} (ok a) (ok b) → a ≡ b
ok_injective h = cc

check_request-made :
    (cfg : Config) (temp_dir : Bytes) (req : RunRequest) (mounts : List Mount)
    → build_mounts (baseline_mounts cfg) req.allowed_paths ≡ ok mounts
    → validate_env req.env ≡ ok tt
    → check_request cfg temp_dir req
      ≡ ok (
        (filter_env cfg req.env).1,
        build_exec_config temp_dir
            (env_map_to_slice (filter_env cfg req.env).0)
            mounts
            req.allowed_paths,
      )
unfolding check_request
check_request-made cfg temp_dir req mounts made valid = ground arith

-- What is known of an accepted request.
pub check_request_ok :
    (cfg : Config) (temp_dir : Bytes) (req : RunRequest) (stripped : List Bytes) (x : ExecConfig)
    → check_request cfg temp_dir req ≡ ok (stripped, x)
    → (build_mounts (baseline_mounts cfg) req.allowed_paths ≡ ok x.mount_dirs)
      × (validate_env req.env ≡ ok tt)
      × (x.env ≡ env_map_to_slice (filter_env cfg req.env).0)
      × (x.working_dir ≡ working_dir_of temp_dir req.allowed_paths)
unfolding check_request
check_request_ok cfg temp_dir req stripped x h =
    elim (Result-cases (build_mounts (baseline_mounts cfg) req.allowed_paths)) [
      | inr (e, failed) ↦ ground arith
      | inl (mounts, made) ↦ elim (Result-cases (validate_env req.env)) [
        | inr (e, failed) ↦ ground arith
        | inl (u, valid) ↦
            let both =
              ok_injective (sym (check_request-made cfg temp_dir req mounts made valid) ∙ h) in
            let same : build_exec_config temp_dir (env_map_to_slice (filter_env cfg req.env).0)
                  mounts req.allowed_paths
                ≡ x =
              ap (λ (b : List Bytes × ExecConfig). b.1) both in
            (
              made ∙ ap (λ (y : ExecConfig). ok y.mount_dirs) (unfold build_exec_config in same),
              valid,
              sym (ap (λ (y : ExecConfig). y.env) (unfold build_exec_config in same)),
              sym (ap (λ (y : ExecConfig). y.working_dir) (unfold build_exec_config in same)),
            )
      ]
    ]
