-- ===== src/Daemon/Http/RunStatuses.antt =====
-- internal/daemon/handler.go: every status with which POST /run fails, and why.
use mathlib.Core.Path.{subst}
use temenos.Base.{
  ℕ, ◌≡◌, refl, sym, ap, ◌∙◌, ◌⊎◌, inl, inr, Bool, true, false, not, ◌&&◌, Option, none, some, List,
  [], ◌∷◌, Bytes, is_empty, if◌then◌else◌, ok, err, Bool-cases, Option-cases, Result-cases,
}
use temenos.Sandbox.Config.{Config, baseline_mounts}
use temenos.Auth.{TokenCache}
use temenos.Daemon.Jobs.{JobManager, AddError, add, is_done, update}
use temenos.Daemon.Request.{
  RunRequest, RequestError, ExecConfig, validation, build_mounts, validate_env,
}
use temenos.Daemon.Run.{
  Review, HandlerError, invalid, not_added, request_gone, RunResponse, Daemon, Circumstances,
  Moment, Reply, Signal, tick, timeout, request_done, added, select, poll, authorize,
  background_response, check_request, start, run_auto_background, handle_run,
}
use temenos.Daemon.Run.Authorization.{authorize_status}
use temenos.Daemon.Run.Launching.{
  asked_for, entered, launch_of, handle_run-denied, handle_run-granted, run_auto_background-invalid,
  run_auto_background-started, release-launched,
}
use temenos.Daemon.Run.Outcome.{Reply-cases, poll-stop, poll-go}
use temenos.Daemon.Http.{error_response}
use temenos.Daemon.Http.Statuses.{rejected_status}

abbrev pub status_of : HandlerError → ℕ
status_of e = (error_response e).status

added-error :
    (a : ℕ) (x : JobManager × Option AddError) (e : HandlerError)
    → (added a x).1 ≡ some (err e)
    → status_of e ≡ 500
unfolding update background_response error_response
added-error a (m, some f) e h = let same : not_added f ≡ e = cc in rw (sym same) refl
added-error a (m, none) e h = cc

no_error :
    (b : Bool) (m m' : JobManager) (resp : RunResponse) (e : HandlerError)
    → (if◌then◌else◌ {A = JobManager × Reply} b (m, some (ok resp)) (m', none)).1 ≡ some (err e)
    → ⊥
no_error true m m' resp e h = cc
no_error false m m' resp e h = cc

select-error :
    (a : ℕ) (stripped : List Bytes) (s : Signal) (now : ℕ) (m : JobManager) (e : HandlerError)
    → (select a stripped s now m).1 ≡ some (err e)
    → status_of e ≡ 500
unfolding select error_response
select-error a stripped tick now m e h = absurd (no_error (is_done (m.heap a)) _ _ _ e h)
select-error a stripped timeout now m e h = added-error a (add a now m) e h
select-error a stripped request_done now m e h =
    let same : request_gone ≡ e = cc in rw (sym same) refl

poll-error :
    (a : ℕ) (stripped : List Bytes) (ts : List Moment) (m : JobManager) (e : HandlerError)
    → (poll a stripped ts m).1 ≡ some (err e)
    → status_of e ≡ 500
poll-error a stripped [] m e h = unfold poll in cc
poll-error a stripped (t ∷ ts) m e h =
    elim (Reply-cases (select a stripped t.signal t.now (t.others m))) [
      | inr (m', r, stop) ↦ select-error a stripped t.signal t.now (t.others m) e (
          ap (λ (x : JobManager × Reply). x.1) stop
          ∙ (ap (λ (x : JobManager × Reply). x.1) (sym (poll-stop a stripped t ts m m' r stop))
              ∙ h))
      | inl (m', go) ↦
          poll-error a stripped ts m' e
            (ap (λ (x : JobManager × Reply). x.1) (sym (poll-go a stripped t ts m m' go)) ∙ h)
    ]

authorize_off :
    (review : Review) (asked answered : ℕ) (cfg : Config) (token : Bytes)
    (cache : Option TokenCache)
    → (cfg.kubernetes.enabled && not (is_empty cfg.kubernetes.require_service_account)) ≡ false
    → (authorize review asked answered cfg token cache).1 ≡ none
unfolding authorize
authorize_off review asked answered cfg token cache off = rw (authorize, off) refl

both_set : (a b : Bool) → (a && not b) ≡ true → (a ≡ true) × (b ≡ false)
both_set true false h = (refl, refl)
both_set true true h = cc
both_set false b h = cc

invalid_same :
    (f : RequestError) (e : HandlerError)
    → ◌≡◌ {A = Reply} (some (err (invalid f))) (some (err e))
    → invalid f ≡ e
invalid_same f e h = cc

error_same : (f e : HandlerError) → ◌≡◌ {A = Reply} (some (err f)) (some (err e)) → f ≡ e
error_same f e h = cc

module _ (review : Review) (cfg : Config) (at : Circumstances) (req : RunRequest) (d : Daemon) where
  -- A request without a token, or with one that does not admit it.
  abbrev pub IsRefused : HandlerError → Type 0
  IsRefused e =
      ((asked_for review cfg at req d).1 ≡ some e)
      × (((is_empty req.auth_token ≡ true) × (status_of e ≡ 401))
          ⊎ ((is_empty req.auth_token ≡ false) × (status_of e ≡ 403)))

  -- A path that is not absolute, or else a variable that is not valid.
  abbrev pub IsRejected : HandlerError → Type 0
  IsRejected e =
      (((p : Bytes) × (build_mounts (baseline_mounts cfg) req.allowed_paths ≡ err (validation p)))
        × (status_of e ≡ 400))
      ⊎ (((f : RequestError) × (validate_env req.env ≡ err f)) × (status_of e ≡ 500))

  asked_for-IsRefused :
      (e : HandlerError) → (asked_for review cfg at req d).1 ≡ some e → IsRefused e
  unfolding error_response
  asked_for-IsRefused e refused =
      let k = cfg.kubernetes in
      elim (Bool-cases (k.enabled && not (is_empty k.require_service_account))) [
        | inr off ↦
            let no =
              sym (authorize_off review at.asked at.answered cfg req.auth_token d.cache off)
              ∙ refused in
            cc
        | inl on ↦
            let (enabled, required) = both_set k.enabled (is_empty k.require_service_account) on in
            elim (authorize_status review at.asked at.answered cfg req.auth_token d.cache e enabled
              required refused) [
                | inl (missing, same) ↦ (refused, inl (missing, ap status_of same))
                | inr (given, (msg, same)) ↦ (refused, inr (given, ap status_of same))
              ]
      ]

  check_request-IsRejected :
      (f : RequestError) → check_request cfg at.temp_dir req ≡ err f → IsRejected (invalid f)
  check_request-IsRejected f wrong = elim (rejected_status cfg at.temp_dir req f wrong) [
    | inl path ↦ inl path
    | inr (bad, status) ↦ inr ((f, bad), status)
  ]

  run_auto_background-error :
      (e : HandlerError) (before : Daemon)
      → (run_auto_background cfg at req before).1 ≡ some (err e)
      → (((run_auto_background cfg at req before).0.launched ≡ before.launched) × IsRejected e)
        ⊎ (((x : ExecConfig) × ((run_auto_background cfg at req before).0.launched
                ≡ launch_of cfg req x before.next ∷ before.launched))
            × (status_of e ≡ 500))
  run_auto_background-error e before failed =
      elim (Result-cases (check_request cfg at.temp_dir req)) [
        | inr (f, wrong) ↦
            let out = run_auto_background-invalid cfg at req before f wrong in
            let same : invalid f ≡ e =
              invalid_same f e (ap (λ (r : Daemon × Reply). r.1) (sym out) ∙ failed) in
            inl (
              ap (λ (r : Daemon × Reply). r.0.launched) out,
              subst IsRejected same (check_request-IsRejected f wrong),
            )
        | inl ((stripped, x), right) ↦
            let out = run_auto_background-started cfg at req before stripped x right in
            inr (
              (x, ap (λ (r : Daemon × Reply). r.0.launched) out ∙ (unfold start in refl)),
              poll-error before.next stripped at.moments (start cfg at req x before).manager e
                  (ap (λ (r : Daemon × Reply). r.1) (sym out) ∙ failed),
            )
      ]

  -- Every error of the run handler has one of four statuses. With 401 or 403 the request is refused,
  -- which has no token or has one; with 400 it is authorized, and `buildMounts` rejects one of its
  -- paths; with 500 it is authorized, and `validateEnv` rejects it or its one execution was started. In
  -- all but the last case nothing is started.
  pub handle_run-error :
      (e : HandlerError)
      → (handle_run review cfg at req d).1 ≡ some (err e)
      → (((handle_run review cfg at req d).0.launched ≡ d.launched)
          × (IsRefused e ⊎ (((asked_for review cfg at req d).1 ≡ none) × IsRejected e)))
        ⊎ (((asked_for review cfg at req d).1 ≡ none)
            × ((x : ExecConfig) × ((handle_run review cfg at req d).0.launched
                  ≡ launch_of cfg req x d.next ∷ d.launched))
            × (status_of e ≡ 500))
  handle_run-error e failed = elim (Option-cases (asked_for review cfg at req d).1) [
    | inr (f, refused) ↦
        let out = handle_run-denied review cfg at req d f refused in
        let same : f ≡ e = error_same f e (ap (λ (r : Daemon × Reply). r.1) (sym out) ∙ failed) in
        inl (
          ap (λ (r : Daemon × Reply). r.0.launched) out,
          inl (subst IsRefused same (asked_for-IsRefused f refused)),
        )
    | inl granted ↦
        let before = entered review cfg at req d in
        let out = handle_run-granted review cfg at req d granted in
        let kept = ap (λ (r : Daemon × Reply). r.0.launched) out ∙ release-launched d.next _ _ in
        elim (run_auto_background-error e before
          (ap (λ (r : Daemon × Reply). r.1) (sym out) ∙ failed)) [
            | inl (same, rejected) ↦ inl (kept ∙ same, inr (granted, rejected))
            | inr ((x, started), status) ↦ inr (granted, (x, kept ∙ started), status)
          ]
  ]
