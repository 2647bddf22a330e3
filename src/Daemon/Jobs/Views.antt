-- ===== src/Daemon/Jobs/Views.antt =====
-- What callers see of a job: snapshots, the retention that reading starts, and lists.
use temenos.Base.{
  length-take_le, ℕ, ◌+◌, ◌≤◌, ◌≡◌, inl, inr, Bool, true, false, not, ◌&&◌, if◌then◌else◌, Option,
  none, some, [], leb, if◌then◌else◌, Bytes, codes, length, take, length-append, arith, Bool-cases,
}
use temenos.Daemon.Jobs.{
  BackgroundJob, JobInfo, JobStatus, is_running, or_now, truncate, snapshot, is_expired,
  status_passes, caller_passes, completed_job_retention, max_output_bytes,
}

-- The time at which a job counts as read first, if it is read now.
abbrev pub first_read : Option ℕ → ℕ → ℕ
first_read none now = now
first_read (some t) now = t

-- A job that was not read is never collected, and a look without output changes nothing about that.
-- Once it has been read with its output, it is collected exactly if it is finished and five minutes
-- have passed since the first reading: reading it again does not give it more time.
pub snapshot-is_expired :
    (j : BackgroundJob) (t now : ℕ)
    → (is_expired now (record j { last_accessed_at = none }) ≡ false)
      × (is_expired now (snapshot false t j).1 ≡ is_expired now j)
      × (is_expired now (snapshot true t j).1 ≡ (
          not (is_running j.status)
          && leb (first_read j.last_accessed_at t + completed_job_retention) now))
unfolding is_expired snapshot
snapshot-is_expired j t now = (ground arith, ground arith, ground arith)

length-truncate : (s : Bytes) → length (truncate s) ≤ max_output_bytes + 15
unfolding truncate
length-truncate s = elim (Bool-cases (leb (length s) max_output_bytes)) [
  | inl short ↦ rw short (ground arith)
  | inr long ↦ rw long (
      omega (
        arith,
        length-append (take max_output_bytes s) (codes "\n...(truncated)"),
        length-take_le max_output_bytes s,
      ))
]

-- A snapshot without output never shows any. One with output shows none while the job runs, and
-- of a finished job at most 64 KiB and the note that it was cut. Only the second kind, of a finished
-- job, leaves a trace: the time of the first reading.
pub snapshot_output :
    (b : Bool) (t : ℕ) (j : BackgroundJob)
    → (length (snapshot b t j).0.stdout ≤ max_output_bytes + 15)
      × (length (snapshot b t j).0.stderr ≤ max_output_bytes + 15)
      × ((snapshot b t j).1 ≡ (
          if b && not (is_running j.status)
          then record j { last_accessed_at = or_now j.last_accessed_at t }
          else j))
      × ((snapshot b t j).0.stdout
          ≡ (if b && not (is_running j.status) then truncate j.stdout else []))
      × ((snapshot b t j).0.stderr
          ≡ (if b && not (is_running j.status) then truncate j.stderr else []))
unfolding snapshot
snapshot_output b t j = (
  ground (arith, length-truncate j.stdout),
  ground (arith, length-truncate j.stderr),
  ground arith,
  ground arith,
  ground arith,
)

-- The entry of a job in a list.
abbrev pub brief : BackgroundJob → JobInfo
unfolding snapshot
brief j = (snapshot false 0 j).0

abbrev pub passes : Option JobStatus → Bytes → JobInfo → Bool
passes status caller_id i = status_passes status i && caller_passes caller_id i
