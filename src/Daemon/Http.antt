-- ===== src/Daemon/Http.antt =====
-- internal/daemon/handler.go, internal/daemon/socket.go: the HTTP endpoints and their statuses.
pub mod Statuses
pub mod Kills
pub mod Router
pub mod Served
pub mod RunStatuses
use temenos.Base.{
  ℕ, Bool, true, false, not, ◌||◌, Option, none, some, List, [], ◌∷◌, if◌then◌else◌, Bytes, codes,
  bytes_eq, is_empty, Result, ok, err,
}
use temenos.Base.Assoc.{lookup}
use temenos.Daemon.Jobs.{
  JobStatus, running, completed, killed, status_text, JobInfo, JobManager, modify, update, get,
  kill, kill_at, list, snapshot, is_done,
}
use temenos.Daemon.Request.{RequestError, validation, invalid_name, invalid_value}
use temenos.Daemon.Run.{HandlerError, run_error, invalid, not_added, request_gone, RunResponse}

pub record HealthResponse : Type 0 where
  pub ok : Bool
  pub platform : Bytes
  pub version : Bytes

-- The body of a reply: an error message, or a value that is written as JSON.
pub data Body : Type 0 where
  health : HealthResponse → Body
  message : Bytes → Body
  failure : HandlerError → Body
  response : RunResponse → Body
  job : JobInfo → Body
  jobs : List JobInfo → Body

pub record HttpResponse : Type 0 where
  pub status : ℕ
  pub body : Body

-- `writeJSON`; if the encoder fails, the status has been written already.
abbrev pub write_json : ℕ → Body → HttpResponse
write_json status body = record { status = status; body = body }

-- `errors.Is(err, errHTTPValidation)`
unfoldable pub is_validation : HandlerError → Bool
is_validation (invalid (validation p)) = true
is_validation (invalid (invalid_name k)) = false
is_validation (invalid (invalid_value k)) = false
is_validation (run_error status msg) = false
is_validation (not_added e) = false
is_validation request_gone = false

-- `errors.As(err, &re)`
unfoldable pub as_run_error : HandlerError → Option (ℕ × Bytes)
as_run_error (run_error status msg) = some (status, msg)
as_run_error (invalid e) = none
as_run_error (not_added e) = none
as_run_error request_gone = none

unfoldable pub error_response : HandlerError → HttpResponse
unfolding as_run_error is_validation
error_response e = elim (as_run_error e) [
  | some (status, msg) ↦ write_json status (message msg)
  | none ↦ if is_validation e then write_json 400 (failure e) else write_json 500 (failure e)
]

-- `handleHTTPValidating`, on what the JSON decoder makes of the body; `handle` is the handler, with its
-- effect on the state, which replies in time or not.
unfoldable pub handle_validating {ℓ κ} :
    {Req : Type ℓ} {S : Type κ}
    → (Req → S → S × Option (Result HandlerError RunResponse))
    → Result Bytes Req
    → S
    → S × Option HttpResponse
unfolding error_response
handle_validating handle (err text) s = (s, some (record { status = 400; body = message text }))
handle_validating handle (ok req) s =
    let (s', reply) = handle req s in
    elim reply [
      | none ↦ (s', none)
      | some (err e) ↦ (s', some (error_response e))
      | some (ok resp) ↦ (s', some (write_json 200 (response resp)))
    ]

-- `normalizeJobStatus`; the empty status is `none`.
unfoldable pub normalize_job_status : Bytes → Result Bytes (Option JobStatus)
unfolding bytes_eq status_text
normalize_job_status status =
    if is_empty status || bytes_eq status (codes "all")
    then ok none
    else if bytes_eq status (status_text running)
    then ok (some running)
    else if bytes_eq status (status_text completed)
    then ok (some completed)
    else if bytes_eq status (status_text killed)
    then ok (some killed)
    else err status

-- `handleHTTPJobList`
unfoldable pub handle_job_list : Bytes → Bytes → JobManager → HttpResponse
unfolding normalize_job_status list
handle_job_list status caller_id m = elim (normalize_job_status status) [
  | err s ↦ write_json 400 (message s)
  | ok wanted ↦ write_json 200 (jobs (list wanted caller_id m))
]

abbrev pub not_found : HttpResponse
not_found = write_json 404 (message (codes "job not found"))

abbrev pub already_completed : HttpResponse
already_completed = write_json 409 (message (codes "job already completed"))

-- The reply with a job's snapshot, which marks the job as read.
unfoldable pub show_job : ℕ → ℕ → JobManager → JobManager × HttpResponse
unfolding snapshot update
show_job now a m = (
  modify (λ j. (snapshot true now j).1) a m,
  write_json 200 (job (snapshot true now (m.heap a)).0),
)

-- `handleHTTPJobGet`
unfoldable pub handle_job_get : ℕ → Bytes → JobManager → JobManager × HttpResponse
unfolding get show_job
handle_job_get now id m = elim (get id m) [ none ↦ (m, not_found) | some a ↦ show_job now a m ]

-- `handleHTTPJobKill`; between the three looks at the registry the other goroutines may act.
unfoldable pub handle_job_kill :
    ℕ
    → (JobManager → JobManager)
    → (JobManager → JobManager)
    → Bytes
    → JobManager
    → JobManager × HttpResponse
unfolding get is_done kill show_job
handle_job_kill now others others' id m = elim (get id m) [
  | none ↦ (m, not_found)
  | some a ↦
      if is_done (m.heap a)
      then (m, already_completed)
      else let (m', hit) = kill id (others m) in
        if not hit then (m', already_completed) else show_job now a (others' m')
]
