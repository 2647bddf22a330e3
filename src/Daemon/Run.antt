-- ===== src/Daemon/Run.antt =====
-- internal/daemon/handler.go: the run handler: authorization, the start of the job, and the loop that
-- waits for its end or moves it to the background. Times and durations are in nanoseconds.
pub mod Authorization
pub mod Outcome
pub mod Ending
pub mod Launching
pub mod Handled
pub mod Writes
use temenos.Base.{
  ℕ, suc, ◌+◌, Bool, true, false, not, ◌&&◌, ◌||◌, Option, none, some, List, [], ◌∷◌, map,
  if◌then◌else◌, Bytes, codes, is_empty, split_on, trim_space, Result, ok, err,
}
use temenos.Base.Int.{ℤ, pos, is_positive, is_zero, scale_64}
use temenos.Auth.{AuthError, TokenCache, cached_validate, is_required_sa}
use temenos.Sandbox.Config.{Config, default_auto_background_after, baseline_mounts, filter_env}
use temenos.Daemon.Jobs.{
  BackgroundJob, JobInfo, JobManager, AddError, new_background_job, snapshot, is_done, add, modify,
  update,
}
use temenos.Daemon.Request.{
  RunRequest, RequestError, ExecConfig, build_mounts, validate_env, env_map_to_slice,
  build_exec_config,
}

-- An error of the handler: a `runError` with its status, a rejected request, a full registry, or a
-- client that is gone.
pub data HandlerError : Type 0 where
  run_error : ℕ → Bytes → HandlerError
  invalid : RequestError → HandlerError
  not_added : AddError → HandlerError
  request_gone : HandlerError

pub record RunResponse : Type 0 where
  pub stdout : Bytes
  pub stderr : Bytes
  pub exit_code : ℤ
  pub stripped_env_keys : List Bytes
  pub job_id : Bytes
  pub status : Bytes

-- A review of a token at a moment, by the API server at a URL: time, token, URL.
abbrev pub Review : Type 0
Review = ℕ → Bytes → Bytes → Result AuthError Bytes

-- `validateToken`: through the cache if there is one.
unfoldable pub validate_token :
    Review → ℕ → ℕ → Bytes → Bytes → Option TokenCache → Option TokenCache × Result AuthError Bytes
unfolding cached_validate
validate_token review asked answered token url none = (none, review answered token url)
validate_token review asked answered token url (some cache) =
    let (cache', r) = cached_validate (λ t tok. review t tok url) asked answered token cache in
    (some cache', r)

-- The names in the configured list, without the white space around them.
unfoldable pub required_sas : Bytes → List Bytes
unfolding split_on trim_space
required_sas s = map trim_space (split_on b',' s)

unfoldable pub admit : Bytes → Result AuthError Bytes → Option HandlerError
unfolding required_sas is_required_sa
admit required (err e) = some (run_error 403 (codes "access denied — token validation failed"))
admit required (ok username) =
    if not (is_required_sa username (required_sas required))
    then some (run_error 403 (codes "access denied — unauthorized service account"))
    else none

-- The first part of `handleRun`: the error with which it returns, if it does.
unfoldable pub authorize :
    Review → ℕ → ℕ → Config → Bytes → Option TokenCache → Option TokenCache × Option HandlerError
unfolding validate_token admit
authorize review asked answered cfg token cache =
    let k = cfg.kubernetes in
    if k.enabled && not (is_empty k.require_service_account)
    then (if is_empty token
        then (cache, some (run_error 401 (codes "authorization required")))
        else (
          (validate_token review asked answered token k.token_review_url cache).0,
          admit k.require_service_account
              (validate_token review asked answered token k.token_review_url cache).1,
        ))
    else (cache, none)

abbrev pub second : ℕ
second = 1_000_000_000

-- Twenty minutes.
abbrev pub default_run_timeout : ℤ
default_run_timeout = pos 1_200_000_000_000

-- How long the job may run, and after how long it is moved to the background.
unfoldable pub run_timeout : ℤ → ℤ
unfolding scale_64
run_timeout timeout = if is_positive timeout then scale_64 timeout second else default_run_timeout

unfoldable pub threshold : Config → ℤ
unfolding scale_64
threshold cfg =
    scale_64
      (if is_zero cfg.auto_background_after
        then default_auto_background_after
        else cfg.auto_background_after)
      second

-- The channel that `select` takes.
pub data Signal : Type 0 where
  tick timeout request_done : Signal

-- A round of the loop: what the other goroutines have done to the jobs by then, the time, and the
-- channel that is ready.
pub record Moment : Type 0 where
  pub others : JobManager → JobManager
  pub now : ℕ
  pub signal : Signal

abbrev pub cancel_job : BackgroundJob → BackgroundJob
cancel_job j = record j { cancelled = true }

-- The reply for a job that has finished in time.
unfoldable pub finished_response : List Bytes → JobInfo → RunResponse
finished_response stripped info = record {
  stdout = info.stdout;
  stderr = info.stderr;
  exit_code = info.exit_code;
  stripped_env_keys = stripped;
  job_id = [];
  status = [];
}

unfoldable pub background_response : Bytes → RunResponse
background_response id = record {
  stdout = [];
  stderr = [];
  exit_code = pos 0;
  stripped_env_keys = [];
  job_id = id;
  status = codes "background";
}

abbrev pub Reply : Type 0
Reply = Option (Result HandlerError RunResponse)

abbrev pub added : ℕ → JobManager × Option AddError → JobManager × Reply
unfolding update background_response
added a (m, some e) = (modify cancel_job a m, some (err (not_added e)))
added a (m, none) = (m, some (ok (background_response (m.heap a).id)))

-- One round: no reply means that the loop goes on.
unfoldable pub select : ℕ → List Bytes → Signal → ℕ → JobManager → JobManager × Reply
unfolding is_done snapshot update finished_response add added
select a stripped tick now m =
    if is_done (m.heap a)
    then (
      modify (λ j. (snapshot true now j).1) a m,
      some (ok (finished_response stripped (snapshot true now (m.heap a)).0)),
    )
    else (m, none)
select a stripped timeout now m = added a (add a now m)
select a stripped request_done now m = (modify cancel_job a m, some (err request_gone))

-- The loop, along the rounds that come; it is still waiting when they are used up.
unfoldable pub poll : ℕ → List Bytes → List Moment → JobManager → JobManager × Reply
unfolding select
poll a stripped [] m = (m, none)
poll a stripped (t ∷ ts) m =
    let (m', reply) = select a stripped t.signal t.now (t.others m) in
    elim reply [ some r ↦ (m', some r) | none ↦ poll a stripped ts m' ]

-- What is started for a job: the command in the sandbox, under a deadline, and the timer of the
-- handler.
pub record Launch : Type 0 where
  pub address : ℕ
  pub command : Bytes
  pub config : ExecConfig
  pub deadline : ℤ
  pub background_after : ℤ

-- The state of the daemon: `launched` lists what was started, the latest first; `next` is an address
-- that is not in use.
pub record Daemon : Type 0 where
  pub cache : Option TokenCache
  pub manager : JobManager
  pub next : ℕ
  pub launched : List Launch

-- What a request meets: the time of its start, that of the two looks at the token cache, the
-- directory for temporary files, and the rounds of the loop.
pub record Circumstances : Type 0 where
  pub asked : ℕ
  pub answered : ℕ
  pub now : ℕ
  pub temp_dir : Bytes
  pub moments : List Moment

unfoldable pub start : Config → Circumstances → RunRequest → ExecConfig → Daemon → Daemon
unfolding update new_background_job run_timeout threshold
start cfg at req exec_cfg d = record d {
  manager = modify (λ _. new_background_job req.caller_id req.command at.now) d.next d.manager;
  next = d.next + 1;
  launched =
      record {
        address = d.next;
        command = req.command;
        config = exec_cfg;
        deadline = run_timeout req.timeout;
        background_after = threshold cfg;
      }
      ∷ d.launched;
}

-- The checks of `handleRunAutoBackground`: the stripped keys and what is to be executed.
unfoldable pub check_request :
    Config → Bytes → RunRequest → Result RequestError (List Bytes × ExecConfig)
unfolding build_mounts baseline_mounts validate_env filter_env env_map_to_slice build_exec_config
check_request cfg temp_dir req = elim (build_mounts (baseline_mounts cfg) req.allowed_paths) [
  | err e ↦ err e
  | ok mounts ↦ elim (validate_env req.env) [
    | err e ↦ err e
    | ok _ ↦ ok (
      (filter_env cfg req.env).1,
      build_exec_config temp_dir (env_map_to_slice (filter_env cfg req.env).0) mounts
          req.allowed_paths,
    )
  ]
]

-- `handleRunAutoBackground`
unfoldable pub run_auto_background : Config → Circumstances → RunRequest → Daemon → Daemon × Reply
unfolding check_request start poll
run_auto_background cfg at req d = elim (check_request cfg at.temp_dir req) [
  | err e ↦ (d, some (err (invalid e)))
  | ok (stripped, exec_cfg) ↦
      let started = start cfg at req exec_cfg d in
      let (m, reply) = poll d.next stripped at.moments started.manager in
      (record started { manager = m }, reply)
]

-- `err != nil || resp.JobID == ""`
unfoldable pub is_released : Reply → Bool
is_released none = false
is_released (some (err e)) = true
is_released (some (ok resp)) = is_empty resp.job_id

-- The `cancel` of `handleRun` is that of the job's context; without a job it reaches no job.
unfoldable pub release : ℕ → Reply → Daemon → Daemon
unfolding is_released update
release a reply d =
    if is_released reply then record d { manager = modify cancel_job a d.manager } else d

-- `handleRun`
unfoldable pub handle_run : Review → Config → Circumstances → RunRequest → Daemon → Daemon × Reply
unfolding authorize run_auto_background release
handle_run review cfg at req d =
    let (cache', denied) = authorize review at.asked at.answered cfg req.auth_token d.cache in
    let d' = record d { cache = cache' } in
    elim denied [
      | some e ↦ (d', some (err e))
      | none ↦
          let (d'', reply) = run_auto_background cfg at req d' in (release d.next reply d'', reply)
    ]
