-- ===== src/Daemon/Jobs/Traces.antt =====
-- What holds of the jobs after any interleaving of the steps.
use mathlib.Core.Path.{subst}
use temenos.Base.{
  ℕ, ◌<◌, ◌≤◌, ◌≡◌, refl, ◌⊎◌, inl, inr, true, false, none, some, List, [], ◌∷◌, Bytes, length, All,
  arith, sym, ap, ◌∙◌,
}
use temenos.Daemon.Jobs.{
  BackgroundJob, JobManager, running, is_running, Stage, executes, returned, reported, printed,
  written, judged, finished, cleaned, closed, act, modify, run_cleanup, close_done, snapshot, add,
  remove, new_background_job, too_many_jobs, collect, is_expired, max_background_jobs,
}
use temenos.Daemon.Jobs.Registry.{add-heap}
use temenos.Daemon.Jobs.Steps.{
  World, Step, starts, runs, cancels, reads, adds, removes, kills, Reach, here, next, IsConsistent,
  AllSound, status_at, Step-IsConsistent, kill-cases, update_elim,
}

-- From a consistent world every interleaving of the steps, where each write of a goroutine is a step of
-- its own, leads to consistent worlds. The registry holds at most a hundred jobs, under distinct
-- identifiers which its jobs carry. The buffers of every job hold exactly what its goroutine has
-- written so far of what `Exec` gave back; from `finish` on, its exit code is the one of `Exec`, and its
-- status says whether the goroutine saw the context cancelled; before, it is running, has no time of
-- completion and counts as unread. Its channel is closed only after its cleanup, and a job that was
-- cleaned up is cancelled. The steps register only jobs that are not registered, and only while the
-- counter of the jobs does not wrap.
pub Reach-IsConsistent : {w v : World} → Reach w v → IsConsistent w → IsConsistent v
Reach-IsConsistent here c = c
Reach-IsConsistent (next r s) c = Step-IsConsistent s (Reach-IsConsistent r c)

-- The outcome of a job, as a later snapshot shows it.
pub record SameOutcome (j k : BackgroundJob) : Type 0 where
  pub status : k.status ≡ j.status
  pub exit_code : k.exit_code ≡ j.exit_code
  pub stdout : k.stdout ≡ j.stdout
  pub stderr : k.stderr ≡ j.stderr
  pub completed_at : k.completed_at ≡ j.completed_at

SameOutcome-refl : (j : BackgroundJob) → SameOutcome j j
SameOutcome-refl j = ground arith

SameOutcome-trans : (i j k : BackgroundJob) → SameOutcome i j → SameOutcome j k → SameOutcome i k
SameOutcome-trans i j k p q = ground arith

modify-SameOutcome :
    (f : BackgroundJob → BackgroundJob) (a b : ℕ) (m : JobManager)
    → (a ≡ b → SameOutcome (m.heap a) (f (m.heap a)))
    → SameOutcome (m.heap b) ((modify f a m).heap b)
modify-SameOutcome f a b m h =
    update_elim (SameOutcome (m.heap b)) m.heap a (f (m.heap a)) b
      (λ e. subst (λ c. SameOutcome (m.heap c) (f (m.heap a))) e (h e))
      (λ _. SameOutcome-refl (m.heap b))

-- A goroutine that has finished its job no longer writes to what callers see of it.
act-SameOutcome :
    (now : ℕ) (st : Stage) (j : BackgroundJob)
    → is_running (status_at st) ≡ false
    → SameOutcome j (act now st j)
unfolding act status_at run_cleanup close_done
act-SameOutcome now executes j over = cc
act-SameOutcome now (returned r) j over = cc
act-SameOutcome now (reported r) j over = cc
act-SameOutcome now (printed r) j over = cc
act-SameOutcome now (written r) j over = cc
act-SameOutcome now (judged c r) j over = cc
act-SameOutcome now (finished c r) j over = ground arith
act-SameOutcome now (cleaned c r) j over = ground arith
act-SameOutcome now (closed c r) j over = SameOutcome-refl j

Step-SameOutcome :
    {w v : World} (b : ℕ)
    → Step w v
    → AllSound w
    → b < w.next
    → is_running (w.manager.heap b).status ≡ false
    → SameOutcome (w.manager.heap b) (v.manager.heap b) × (w.next ≤ v.next)
Step-SameOutcome {w} b (starts caller_id command now) sound lt fin = (
  modify-SameOutcome (λ _. new_background_job caller_id command now) w.next b w.manager
      (λ e. absurd (omega arith)),
  omega arith,
)
Step-SameOutcome {w} b (runs a r now la) sound lt fin = (
  modify-SameOutcome (act now (w.stages a)) a b w.manager (λ e.
      act-SameOutcome now (w.stages a) (w.manager.heap a) (
        ap is_running (sym (sound a la).status)
        ∙ (ap (λ c. is_running (w.manager.heap c).status) e ∙ fin))),
  omega arith,
)
Step-SameOutcome {w} b (cancels a la) sound lt fin = (
  modify-SameOutcome (λ j. record j { cancelled = true }) a b w.manager (λ _. ground arith),
  omega arith,
)
Step-SameOutcome {w} b (reads a now la) sound lt fin = (
  modify-SameOutcome (λ j. (snapshot true now j).1) a b w.manager
      (λ _. unfold snapshot in ground arith),
  omega arith,
)
Step-SameOutcome {w} b (adds a now la free h) sound lt fin = (
  elim (add-heap a now w.manager) [
    | inl same ↦ rw same (SameOutcome-refl (w.manager.heap b))
    | inr (id, same) ↦
        rw same (modify-SameOutcome (λ j. record j { id = id }) a b w.manager (λ _. ground arith))
  ],
  omega arith,
)
Step-SameOutcome {w} b (removes id) sound lt fin =
    (unfold remove in SameOutcome-refl (w.manager.heap b), omega arith)
Step-SameOutcome {w} b (kills id) sound lt fin = (
  elim (kill-cases id w.manager) [
    | inl (same, _) ↦ rw same (SameOutcome-refl (w.manager.heap b))
    | inr (a, _, _, same) ↦
        rw same (
          modify-SameOutcome (λ j. record j { cancelled = true }) a b w.manager (λ _. ground arith))
  ],
  omega arith,
)

Reach-SameOutcome :
    {w v : World} (b : ℕ)
    → Reach w v
    → IsConsistent w
    → b < w.next
    → is_running (w.manager.heap b).status ≡ false
    → SameOutcome (w.manager.heap b) (v.manager.heap b) × (b < v.next)
Reach-SameOutcome {w} b here c lt fin = (SameOutcome-refl (w.manager.heap b), lt)
Reach-SameOutcome {w} b (next {u} {v} r s) c lt fin =
    let (same, lt') = Reach-SameOutcome b r c lt fin in
    let (same', le) =
      Step-SameOutcome b s (Reach-IsConsistent r c).sound lt' (ap is_running same.status ∙ fin) in
    (
      SameOutcome-trans (w.manager.heap b) (u.manager.heap b) (v.manager.heap b) same same',
      omega arith,
    )

-- A job that is finished in a consistent world stays as it is: no interleaving of later steps changes its status, its exit code,
-- its output or its time of completion.
pub finished_is_final :
    {w v : World} (b : ℕ)
    → Reach w v
    → IsConsistent w
    → b < w.next
    → is_running (w.manager.heap b).status ≡ false
    → SameOutcome (w.manager.heap b) (v.manager.heap b)
finished_is_final b r c lt fin = (Reach-SameOutcome b r c lt fin).0

-- The job runs, or its output was never read.
abbrev pub IsHeld : BackgroundJob → Type 0
IsHeld j = (j.status ≡ running) ⊎ (j.last_accessed_at ≡ none)

collect_held :
    (heap : ℕ → BackgroundJob) (now : ℕ) (jobs : List (Bytes × ℕ))
    → All (λ e. IsHeld (heap e.1)) jobs
    → collect heap now jobs ≡ jobs
unfolding collect is_expired
collect_held heap now [] h = refl
collect_held heap now ((id, a) ∷ jobs) (p, h) = ground (arith, collect_held heap now jobs h)

-- A registry of a hundred jobs that run or were never read refuses every other job, at any time:
-- finished jobs that nobody reads are never collected.
pub add_blocked :
    (a now : ℕ) (m : JobManager)
    → max_background_jobs ≤ length m.jobs
    → All (λ e. IsHeld (m.heap e.1)) m.jobs
    → add a now m ≡ (m, some too_many_jobs)
unfolding add
add_blocked a now m full h = rw (collect_held m.heap now m.jobs h) (ground arith)
