-- ===== src/Daemon/Jobs.antt =====
-- internal/daemon/jobs.go: background jobs and their registry.
-- A job is shared by the handler that starts it, the goroutine that runs it and the registry, so
-- jobs live in a heap and the registry holds addresses. A time is a number of nanoseconds; the zero
-- `time.Time` is `none`.
pub mod Ids
pub mod Registry
pub mod Steps
pub mod Traces
pub mod Views
pub mod Table
use temenos.Base.{
  ℕ, zero, suc, ◌+◌, ◌-◌, ◌*◌, ◌%◌, Bool, true, false, not, ◌&&◌, ◌||◌, Option, none, some, List,
  [], ◌∷◌, ◌++◌, ◌==◌, leb, if◌then◌else◌, Bytes, codes, bytes_eq, is_empty, length, take, Result,
  ok, err,
}
use temenos.Base.Int.{ℤ, pos}
use temenos.Base.Assoc.{lookup, insert, delete}
use temenos.Daemon.Jobs.Ids.{job_id}

abbrev pub max_background_jobs : ℕ
max_background_jobs = 100

-- Five minutes.
abbrev pub completed_job_retention : ℕ
completed_job_retention = 300_000_000_000

abbrev pub max_output_bytes : ℕ
max_output_bytes = 65_536

pub data JobStatus : Type 0 where
  running completed killed : JobStatus

abbrev pub is_running : JobStatus → Bool
is_running running = true
is_running _ = false

unfoldable pub status_text : JobStatus → Bytes
status_text running = codes "running"
status_text completed = codes "completed"
status_text killed = codes "killed"

-- `cancelled` is the state of the job's context, `done` says that the channel is closed.
pub record BackgroundJob : Type 0 where
  pub id : Bytes
  pub caller_id : Bytes
  pub command : Bytes
  pub stdout : Bytes
  pub stderr : Bytes
  pub cancelled : Bool
  pub cleaned : Bool
  pub done : Bool
  pub started_at : ℕ
  pub status : JobStatus
  pub exit_code : ℤ
  pub completed_at : Option ℕ
  pub last_accessed_at : Option ℕ

-- The times stand for their RFC 3339 texts.
pub record JobInfo : Type 0 where
  pub id : Bytes
  pub caller_id : Bytes
  pub command : Bytes
  pub status : Bytes
  pub exit_code : ℤ
  pub stdout : Bytes
  pub stderr : Bytes
  pub started_at : ℕ
  pub completed_at : Option ℕ

-- `newBackgroundJob`, up to the goroutine that it starts.
unfoldable pub new_background_job : Bytes → Bytes → ℕ → BackgroundJob
new_background_job caller_id command now = record {
  id = [];
  caller_id = caller_id;
  command = command;
  stdout = [];
  stderr = [];
  cancelled = false;
  cleaned = false;
  done = false;
  started_at = now;
  status = running;
  exit_code = pos 0;
  completed_at = none;
  last_accessed_at = none;
}

unfoldable pub finish : JobStatus → ℤ → ℕ → BackgroundJob → BackgroundJob
finish status exit_code now j = record j {
  status = status;
  exit_code = exit_code;
  completed_at = some now;
}

-- What `sbx.Exec` gives back; `error` is the text of its error.
pub record ExecResult : Type 0 where
  pub stdout : Bytes
  pub stderr : Bytes
  pub exit_code : ℤ
  pub error : Option Bytes

abbrev pub error_line : Option Bytes → Bytes
error_line none = []
error_line (some text) = text ++ codes "\n"

-- `Write` of the buffer of a job; its lock makes every write and every reading one step.
abbrev pub write_buffer : Bytes → Bytes → Bytes
write_buffer buf p = buf ++ p

unfoldable pub write_error : ExecResult → BackgroundJob → BackgroundJob
write_error r j = record j { stderr = write_buffer j.stderr (error_line r.error) }

unfoldable pub write_stdout : ExecResult → BackgroundJob → BackgroundJob
write_stdout r j = record j { stdout = write_buffer j.stdout r.stdout }

unfoldable pub write_stderr : ExecResult → BackgroundJob → BackgroundJob
write_stderr r j = record j { stderr = write_buffer j.stderr r.stderr }

-- The deferred calls, in their order: the cleanup, which cancels the context, and the channel.
unfoldable pub run_cleanup : BackgroundJob → BackgroundJob
run_cleanup j = record j { cleaned = true; cancelled = true }

unfoldable pub close_done : BackgroundJob → BackgroundJob
close_done j = record j { done = true }

-- What the goroutine of a job has done: nothing but to call `Exec`; `Exec` has returned; the error, the
-- output and the error output are written; it has looked at the context, and seen it cancelled or
-- not; it has finished the job; the deferred calls have run.
pub data Stage : Type 0 where
  executes : Stage
  returned reported printed written : ExecResult → Stage
  judged finished cleaned closed : Bool → ExecResult → Stage

abbrev pub status_of : Bool → JobStatus
status_of cancelled = if cancelled then killed else completed

-- What the goroutine does next to the job. No two of these are under one lock.
unfoldable pub act : ℕ → Stage → BackgroundJob → BackgroundJob
unfolding write_error write_stdout write_stderr finish run_cleanup close_done
act now executes j = j
act now (returned r) j = write_error r j
act now (reported r) j = write_stdout r j
act now (printed r) j = write_stderr r j
act now (written r) j = j
act now (judged c r) j = finish (status_of c) r.exit_code now j
act now (finished c r) j = run_cleanup j
act now (cleaned c r) j = close_done j
act now (closed c r) j = j

-- Where it stands then, by what `Exec` gives back and the state of the job's context.
unfoldable pub next_stage : ExecResult → Bool → Stage → Stage
next_stage result cancelled executes = returned result
next_stage result cancelled (returned r) = reported r
next_stage result cancelled (reported r) = printed r
next_stage result cancelled (printed r) = written r
next_stage result cancelled (written r) = judged cancelled r
next_stage result cancelled (judged c r) = finished c r
next_stage result cancelled (finished c r) = cleaned c r
next_stage result cancelled (cleaned c r) = closed c r
next_stage result cancelled (closed c r) = closed c r

unfoldable pub truncate : Bytes → Bytes
truncate s =
    if leb (length s) max_output_bytes
    then s
    else take max_output_bytes s ++ codes "\n...(truncated)"

abbrev pub or_now : Option ℕ → ℕ → Option ℕ
or_now none now = some now
or_now (some t) now = some t

unfoldable pub snapshot : Bool → ℕ → BackgroundJob → JobInfo × BackgroundJob
unfolding truncate status_text
snapshot with_output now j =
    let info : JobInfo = record {
      id = j.id;
      caller_id = j.caller_id;
      command = j.command;
      status = status_text j.status;
      exit_code = j.exit_code;
      stdout = [];
      stderr = [];
      started_at = j.started_at;
      completed_at = j.completed_at;
    } in
    if with_output && not (is_running j.status)
    then (
      record info { stdout = truncate j.stdout; stderr = truncate j.stderr },
      record j { last_accessed_at = or_now j.last_accessed_at now },
    )
    else (info, j)

-- `now.Sub(t) >= completedJobRetention`
abbrev pub is_retained_past : Option ℕ → ℕ → Bool
is_retained_past none now = false
is_retained_past (some t) now = leb (t + completed_job_retention) now

unfoldable pub is_expired : ℕ → BackgroundJob → Bool
is_expired now j = if is_running j.status then false else is_retained_past j.last_accessed_at now

-- `BackgroundJobManager` with the jobs that it and others point to.
pub record JobManager : Type 0 where
  pub heap : ℕ → BackgroundJob
  pub jobs : List (Bytes × ℕ)
  pub seq : ℕ

-- `NewBackgroundJobManager`, in a store where others may have jobs.
abbrev pub new_job_manager : (ℕ → BackgroundJob) → JobManager
new_job_manager heap = record { heap = heap; jobs = []; seq = 0 }

-- A write through a pointer.
unfoldable pub update {ℓ} : {A : Type ℓ} → (ℕ → A) → ℕ → A → ℕ → A
update heap a j b = if a == b then j else heap b

abbrev pub modify : (BackgroundJob → BackgroundJob) → ℕ → JobManager → JobManager
modify f a m = record m { heap = update m.heap a (f (m.heap a)) }

-- `gcLocked`: the entries that the loop leaves.
unfoldable pub collect : (ℕ → BackgroundJob) → ℕ → List (Bytes × ℕ) → List (Bytes × ℕ)
unfolding is_expired
collect heap now [] = []
collect heap now ((id, a) ∷ jobs) =
    if is_expired now (heap a) then collect heap now jobs else (id, a) ∷ collect heap now jobs

pub data AddError : Type 0 where
  too_many_jobs : AddError

-- `Add`: the registry after the call, and its error. `seq` is a `uint64`.
unfoldable pub add : ℕ → ℕ → JobManager → JobManager × Option AddError
unfolding collect update
add a now m =
    let left = collect m.heap now m.jobs in
    let seq = (m.seq + 1) % 18446744073709551616 in
    let id = job_id seq in
    if leb max_background_jobs (length left)
    then (record m { jobs = left }, some too_many_jobs)
    else (
      record {
        heap = update m.heap a (record (m.heap a) { id = id });
        jobs = insert id a left;
        seq = seq;
      },
      none,
    )

unfoldable pub get : Bytes → JobManager → Option ℕ
get id m = lookup id m.jobs

unfoldable pub remove : Bytes → JobManager → JobManager
remove id m = record m { jobs = delete id m.jobs }

abbrev pub status_passes : Option JobStatus → JobInfo → Bool
status_passes none info = true
status_passes (some s) info = bytes_eq info.status (status_text s)

abbrev pub caller_passes : Bytes → JobInfo → Bool
caller_passes caller_id info = is_empty caller_id || bytes_eq info.caller_id caller_id

list_from : Option JobStatus → Bytes → (ℕ → BackgroundJob) → List (Bytes × ℕ) → List JobInfo
list_from status caller_id heap [] = []
list_from status caller_id heap ((id, a) ∷ jobs) =
    let rest = list_from status caller_id heap jobs in
    let info = (snapshot false 0 (heap a)).0 in
    if not (status_passes status info)
    then rest
    else if not (caller_passes caller_id info)
    then rest
    else info ∷ rest

-- `List`; the empty status is `none`. A snapshot without output does not look at the clock.
unfoldable pub list : Option JobStatus → Bytes → JobManager → List JobInfo
unfolding list_from snapshot status_text bytes_eq
list status caller_id m = list_from status caller_id m.heap m.jobs

abbrev pub kill_at : Option ℕ → JobManager → JobManager × Bool
kill_at none m = (m, false)
kill_at (some a) m =
    if (m.heap a).done then (m, false) else (modify (λ j. record j { cancelled = true }) a m, true)

unfoldable pub kill : Bytes → JobManager → JobManager × Bool
unfolding update
kill id m = kill_at (lookup id m.jobs) m

-- `IsDone`
unfoldable pub is_done : BackgroundJob → Bool
is_done j = j.done
