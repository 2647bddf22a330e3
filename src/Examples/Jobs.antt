-- ===== src/Examples/Jobs.antt =====
-- internal/daemon/jobs.go: a registry at work.
use temenos.Base.{
  ℕ, zero, suc, ◌+◌, ◌≤◌, ◌<◌, ◌≡◌, ◌≢◌, refl, ◌⊎◌, inl, true, false, not, ◌&&◌, none, some, List,
  [], ◌∷◌, leb, if◌then◌else◌, All, Bytes, codes, bytes_eq, length, arith,
}
use temenos.Base.Int.{pos}
use temenos.Base.Assoc.{lookup}
use temenos.Daemon.Jobs.{
  JobManager, BackgroundJob, ExecResult, new_background_job, act, next_stage, executes, write_error,
  write_stdout, write_stderr, finish, add, too_many_jobs, max_background_jobs,
  completed_job_retention, max_output_bytes, is_running, or_now, truncate, snapshot, is_expired,
  modify, update,
}
use temenos.Daemon.Jobs.Ids.{job_id, job_id_injective}
use temenos.Daemon.Jobs.Table.{table, kills, perform, IsPromised, perform-IsPromised}
use temenos.Daemon.Jobs.Registry.{add-IsRegistry, IsRegistry, left, kept, add_lem}
use temenos.Daemon.Jobs.Steps.{World, Reach, here, next, starts, runs, advance, reads, IsConsistent}
use temenos.Daemon.Jobs.Traces.{
  Reach-IsConsistent, finished_is_final, SameOutcome, IsHeld, add_blocked,
}
use temenos.Daemon.Jobs.Views.{first_read, snapshot-is_expired, snapshot_output}

abbrev blank : BackgroundJob
unfolding new_background_job
blank = new_background_job [] [] 0

abbrev idle : JobManager
unfolding new_background_job
idle = record { heap = λ _. new_background_job [] [] 0; jobs = []; seq = 0 }

abbrev morning : World
morning = record { manager = idle; stages = λ _. executes; next = 0 }

idle-IsRegistry : IsRegistry idle
unfolding idle
idle-IsRegistry = record {
  is_map = tt;
  bounded = omega arith;
  numbered = tt;
  named = tt;
  in_range = omega arith;
}

morning-IsConsistent : IsConsistent morning
unfolding idle
morning-IsConsistent = record {
  registry = idle-IsRegistry;
  in_use = tt;
  sound = λ a lt. absurd (omega arith);
}

-- A job is started, and its process ends.
abbrev started : World
unfolding update
started = record {
  manager = modify (λ _. new_background_job (codes "s") (codes "ls") 5) 0 idle;
  stages = update (λ _. executes) 0 executes;
  next = 1;
}

abbrev output : ExecResult
output = record { stdout = codes "out"; stderr = []; exit_code = pos 0; error = none }

-- Its goroutine has taken so many steps.
abbrev taken : ℕ → World
taken zero = started
taken (suc n) = advance output 9 0 (taken n)

-- Up to `finish`.
abbrev ended : World
ended = taken 6

to_start : Reach morning started
unfolding started
to_start = next here (starts (codes "s") (codes "ls") 5)

to_taken : (n : ℕ) → Reach morning (taken n)
unfolding started
to_taken zero = to_start
to_taken (suc n) = next (to_taken n) (runs 0 output 9 (next_taken n))
  where
    next_taken : (k : ℕ) → 0 < (taken k).next
    next_taken zero = omega arith
    next_taken (suc k) = next_taken k

Reach-IsConsistent_example : IsConsistent ended
Reach-IsConsistent_example = Reach-IsConsistent (to_taken 6) morning-IsConsistent

-- Then its output is read.
abbrev shown : World
unfolding update snapshot
shown = record ended { manager = modify (λ j. (snapshot true 20 j).1) 0 ended.manager }

to_shown : Reach ended shown
unfolding started shown
to_shown = next here (reads 0 20 (omega arith))

finished_is_final_example : SameOutcome (ended.manager.heap 0) (shown.manager.heap 0)
unfolding new_background_job update act next_stage write_error write_stdout write_stderr finish
    started shown
finished_is_final_example =
    finished_is_final {w = ended} 0 to_shown (Reach-IsConsistent (to_taken 6) morning-IsConsistent)
      (omega arith) refl

add_lem_example :
    ((max_background_jobs ≤ length (left 7 idle))
      × (add 3 7 idle ≡ (record idle { jobs = left 7 idle }, some too_many_jobs)))
    ⊎ ((length (left 7 idle) < max_background_jobs)
        × ((add 3 7 idle).1 ≡ none)
        × (lookup (job_id 1) idle.jobs ≡ none)
        × ((id : Bytes)
            → lookup id (add 3 7 idle).0.jobs
              ≡ (if bytes_eq (job_id 1) id then some 3 else kept idle.heap 7 (lookup id idle.jobs)))
        × ((add 3 7 idle).0.heap 3 ≡ record (idle.heap 3) { id = job_id 1 })
        × ((b : ℕ) → 3 ≢ b → (add 3 7 idle).0.heap b ≡ idle.heap b))
unfolding idle
add_lem_example = add_lem 3 7 idle idle-IsRegistry (omega arith)

-- A job that is killed while it runs.
perform-IsPromised_example :
    let m = (add 3 7 idle).0 in
    IsPromised
      (table m)
      (kills (job_id 1))
      (perform (kills (job_id 1)) 0 m).1
      (table (perform (kills (job_id 1)) 0 m).0)
unfolding idle
perform-IsPromised_example =
    perform-IsPromised (kills (job_id 1)) 0 (add 3 7 idle).0
      (add-IsRegistry 3 7 idle idle-IsRegistry (omega arith) tt) tt

-- As many jobs as the registry holds, all at one address.
abbrev crowd : ℕ → List (Bytes × ℕ)
crowd zero = []
crowd (suc n) = (n ∷ [], 0) ∷ crowd n

length-crowd : (n : ℕ) → length (crowd n) ≡ n
length-crowd zero = refl
length-crowd (suc n) = omega (arith, length-crowd n)

crowd-IsHeld : (n : ℕ) → All (λ e. IsHeld (idle.heap e.1)) (crowd n)
unfolding idle new_background_job
crowd-IsHeld zero = tt
crowd-IsHeld (suc n) = (inl refl, crowd-IsHeld n)

add_blocked_example :
    add 1 7 (record idle { jobs = crowd 100 })
    ≡ (record idle { jobs = crowd 100 }, some too_many_jobs)
unfolding idle
add_blocked_example =
    add_blocked 1 7 (record idle { jobs = crowd 100 }) (omega (arith, length-crowd 100))
      (crowd-IsHeld 100)

job_id_injective_example : ◌≡◌ {A = ℕ} 7 7
job_id_injective_example = job_id_injective 7 7 (omega arith) (omega arith) refl

snapshot-is_expired_example :
    (is_expired 20 (record blank { last_accessed_at = none }) ≡ false)
    × (is_expired 20 (snapshot false 10 blank).1 ≡ is_expired 20 blank)
    × (is_expired 20 (snapshot true 10 blank).1 ≡ (
        not (is_running blank.status)
        && leb (first_read blank.last_accessed_at 10 + completed_job_retention) 20))
snapshot-is_expired_example = snapshot-is_expired blank 10 20

snapshot_output_example :
    (length (snapshot true 10 blank).0.stdout ≤ max_output_bytes + 15)
    × (length (snapshot true 10 blank).0.stderr ≤ max_output_bytes + 15)
    × ((snapshot true 10 blank).1 ≡ (
        if true && not (is_running blank.status)
        then record blank { last_accessed_at = or_now blank.last_accessed_at 10 }
        else blank))
    × ((snapshot true 10 blank).0.stdout
        ≡ (if true && not (is_running blank.status) then truncate blank.stdout else []))
    × ((snapshot true 10 blank).0.stderr
        ≡ (if true && not (is_running blank.status) then truncate blank.stderr else []))
snapshot_output_example = snapshot_output true 10 blank
