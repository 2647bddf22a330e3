-- ===== src/Daemon/Jobs/Steps.antt =====
-- The life of the jobs: the goroutines that run them, the handlers and the callers of the registry as
-- steps that may interleave in any way, and what holds after any number of them.
use temenos.Base.{
  ℕ, ◌+◌, ◌<◌, ◌≡◌, refl, ◌⊎◌, inl, inr, ◌≢◌, Bool, true, false, not, Option, none, some, List, [],
  ◌∷◌, ◌++◌, ◌==◌, Bytes, All, All-map, arith, sym, ap, ◌∙◌, Bool-cases, Option-cases,
}
use temenos.Base.Int.{ℤ, pos}
use temenos.Base.Assoc.{lookup}
use mathlib.Core.Path.{subst}
use temenos.Daemon.Jobs.{
  BackgroundJob, JobManager, JobStatus, ExecResult, Stage, executes, returned, reported, printed,
  written, judged, finished, cleaned, closed, status_of, act, next_stage, error_line, running,
  is_running, modify, update, write_error, write_stdout, write_stderr, finish, run_cleanup,
  close_done, snapshot, add, remove, kill, new_background_job,
}
use temenos.Daemon.Jobs.Registry.{
  IsRegistry, IsUnregistered, add-IsRegistry, add-All, add-heap, remove-IsRegistry, remove-All,
  lookup-All,
}

-- The manager, where the goroutine of each job stands, and the number of jobs that were started: the
-- addresses below it are in use.
pub record World : Type 0 where
  pub manager : JobManager
  pub stages : ℕ → Stage
  pub next : ℕ

-- The goroutine of a job does the next thing.
abbrev pub advance : ExecResult → ℕ → ℕ → World → World
advance r now a w = record w {
  manager = modify (act now (w.stages a)) a w.manager;
  stages = update w.stages a (next_stage r (w.manager.heap a).cancelled (w.stages a));
}

-- `runs` is one action of a job's goroutine, and `cancels` is any cancellation of the job's context: by the handler or by the deadline.
pub data Step (w : World) : World → Type 0 where
  starts :
      (caller_id command : Bytes) (now : ℕ)
      → Step w (record {
        manager = modify (λ _. new_background_job caller_id command now) w.next w.manager;
        stages = update w.stages w.next executes;
        next = w.next + 1;
      })
  runs : (a : ℕ) (r : ExecResult) (now : ℕ) → a < w.next → Step w (advance r now a w)
  cancels :
      (a : ℕ)
      → a < w.next
      → Step w (record w { manager = modify (λ j. record j { cancelled = true }) a w.manager })
  reads :
      (a now : ℕ)
      → a < w.next
      → Step w (record w { manager = modify (λ j. (snapshot true now j).1) a w.manager })
  adds :
      (a now : ℕ)
      → a < w.next
      → IsUnregistered a w.manager
      → w.manager.seq + 1 < 18446744073709551616
      → Step w (record w { manager = (add a now w.manager).0 })
  removes : (id : Bytes) → Step w (record w { manager = remove id w.manager })
  kills : (id : Bytes) → Step w (record w { manager = (kill id w.manager).0 })

pub data Reach (w : World) : World → Type 0 where
  here : Reach w w
  next : {u v : World} → Reach w u → Step u v → Reach w v

abbrev pub is_some {ℓ} : {A : Type ℓ} → Option A → Bool
is_some none = false
is_some (some a) = true

-- What the goroutine has written to the buffers, and what it has recorded.
unfoldable pub stdout_at : Stage → Bytes
stdout_at executes = []
stdout_at (returned r) = []
stdout_at (reported r) = []
stdout_at (printed r) = r.stdout
stdout_at (written r) = r.stdout
stdout_at (judged c r) = r.stdout
stdout_at (finished c r) = r.stdout
stdout_at (cleaned c r) = r.stdout
stdout_at (closed c r) = r.stdout

unfoldable pub stderr_at : Stage → Bytes
stderr_at executes = []
stderr_at (returned r) = []
stderr_at (reported r) = error_line r.error
stderr_at (printed r) = error_line r.error
stderr_at (written r) = error_line r.error ++ r.stderr
stderr_at (judged c r) = error_line r.error ++ r.stderr
stderr_at (finished c r) = error_line r.error ++ r.stderr
stderr_at (cleaned c r) = error_line r.error ++ r.stderr
stderr_at (closed c r) = error_line r.error ++ r.stderr

unfoldable pub status_at : Stage → JobStatus
status_at (finished c r) = status_of c
status_at (cleaned c r) = status_of c
status_at (closed c r) = status_of c
status_at _ = running

unfoldable pub exit_code_at : Stage → ℤ
exit_code_at (finished c r) = r.exit_code
exit_code_at (cleaned c r) = r.exit_code
exit_code_at (closed c r) = r.exit_code
exit_code_at _ = pos 0

-- The goroutine has seen the context cancelled.
unfoldable pub saw_cancelled : Stage → Bool
saw_cancelled (judged c r) = c
saw_cancelled (finished c r) = c
saw_cancelled (cleaned c r) = c
saw_cancelled (closed c r) = c
saw_cancelled _ = false

unfoldable pub has_cleaned : Stage → Bool
has_cleaned (cleaned c r) = true
has_cleaned (closed c r) = true
has_cleaned _ = false

unfoldable pub has_closed : Stage → Bool
has_closed (closed c r) = true
has_closed _ = false

-- What holds of every job at every moment, by where its goroutine stands.
pub record IsSound (st : Stage) (j : BackgroundJob) : Type 0 where
  pub stdout : j.stdout ≡ stdout_at st
  pub stderr : j.stderr ≡ stderr_at st
  pub status : j.status ≡ status_at st
  pub exit_code : j.exit_code ≡ exit_code_at st
  pub timed : is_some j.completed_at ≡ not (is_running j.status)
  pub unread : j.status ≡ running → j.last_accessed_at ≡ none
  pub seen : saw_cancelled st ≡ true → j.cancelled ≡ true
  pub has_cleaned : j.cleaned ≡ has_cleaned st
  pub has_closed : j.done ≡ has_closed st
  pub released : j.cleaned ≡ true → j.cancelled ≡ true

act-IsSound :
    (r : ExecResult) (now : ℕ) (st : Stage) (j : BackgroundJob)
    → IsSound st j
    → IsSound (next_stage r j.cancelled st) (act now st j)
unfolding act next_stage write_error write_stdout write_stderr finish run_cleanup close_done
    stdout_at stderr_at status_at exit_code_at saw_cancelled has_cleaned has_closed
act-IsSound r now executes j s = ground arith
act-IsSound r now (returned q) j s = ground arith
act-IsSound r now (reported q) j s = ground arith
act-IsSound r now (printed q) j s = ground arith
act-IsSound r now (written q) j s = ground arith
act-IsSound r now (judged c q) j s = ground arith
act-IsSound r now (finished c q) j s = ground arith
act-IsSound r now (cleaned c q) j s = ground arith
act-IsSound r now (closed c q) j s = s

snapshot-IsSound :
    (b : Bool) (now : ℕ) (st : Stage) (j : BackgroundJob)
    → IsSound st j
    → IsSound st (snapshot b now j).1
unfolding snapshot
snapshot-IsSound b now st j s = ground arith

abbrev pub AllSound : World → Type 0
AllSound w = (a : ℕ) → a < w.next → IsSound (w.stages a) (w.manager.heap a)

pub record IsConsistent (w : World) : Type 0 where
  pub registry : IsRegistry w.manager
  pub in_use : All (λ e. e.1 < w.next) w.manager.jobs
  pub sound : AllSound w

pub update_elim :
    (P : BackgroundJob → Type 0) (heap : ℕ → BackgroundJob) (a : ℕ) (j : BackgroundJob) (b : ℕ)
    → (a ≡ b → P j)
    → (a ≢ b → P (heap b))
    → P (update heap a j b)
unfolding update
update_elim P heap a j b hit miss = elim (Bool-cases (a == b)) [
  | inl e ↦ rw e (hit (ground arith))
  | inr e ↦ rw e (miss (ground arith))
]

-- A write to a registered job keeps its identifier, so the registry stays in order.
modify-IsRegistry :
    (f : BackgroundJob → BackgroundJob) (a : ℕ) (m : JobManager)
    → ((f (m.heap a)).id ≡ (m.heap a).id) ⊎ IsUnregistered a m
    → IsRegistry m
    → IsRegistry (modify f a m)
modify-IsRegistry f a m how r = record {
  is_map = r.is_map;
  bounded = r.bounded;
  numbered = r.numbered;
  named = keep m.jobs how r.named;
  in_range = r.in_range;
}
  where
    keep :
        (jobs : List (Bytes × ℕ))
        → ((f (m.heap a)).id ≡ (m.heap a).id) ⊎ All (λ e. e.1 ≢ a) jobs
        → All (λ e. (m.heap e.1).id ≡ e.0) jobs
        → All (λ e. (update m.heap a (f (m.heap a)) e.1).id ≡ e.0) jobs
    keep [] h k = tt
    keep ((id, b) ∷ jobs) (inl same) (q, k) = (
      update_elim (λ j. j.id ≡ id) m.heap a (f (m.heap a)) b
          (λ e. same ∙ (ap (λ c. (m.heap c).id) e ∙ q)) (λ _. q),
      keep jobs (inl same) k,
    )
    keep ((id, b) ∷ jobs) (inr (p, h)) (q, k) = (
      update_elim (λ j. j.id ≡ id) m.heap a (f (m.heap a)) b (λ e. absurd (p (sym e))) (λ _. q),
      keep jobs (inr h) k,
    )

module _ (f : BackgroundJob → BackgroundJob) (stages : ℕ → Stage) (a n : ℕ) (m : JobManager) where
  modify-AllSound :
      (IsSound (stages a) (m.heap a) → IsSound (stages a) (f (m.heap a)))
      → a < n
      → ((b : ℕ) → b < n → IsSound (stages b) (m.heap b))
      → (b : ℕ) → b < n
      → IsSound (stages b) ((modify f a m).heap b)
  modify-AllSound keep le h b lt =
      update_elim (IsSound (stages b)) m.heap a (f (m.heap a)) b
        (λ e. subst (λ c. IsSound (stages c) (f (m.heap a))) e (keep (h a le))) (λ _. h b lt)

-- One of the steps that write to one job.
modify-IsConsistent :
    (f : BackgroundJob → BackgroundJob) (a : ℕ) (w : World)
    → ((f (w.manager.heap a)).id ≡ (w.manager.heap a).id)
    → (IsSound (w.stages a) (w.manager.heap a) → IsSound (w.stages a) (f (w.manager.heap a)))
    → a < w.next
    → IsConsistent w
    → IsConsistent (record w { manager = modify f a w.manager })
modify-IsConsistent f a w same keep lt c = record {
  registry = modify-IsRegistry f a w.manager (inl same) c.registry;
  in_use = c.in_use;
  sound = modify-AllSound f w.stages a w.next w.manager keep lt c.sound;
}

-- Both updates at one address: what holds there holds everywhere.
update-IsSound :
    (stages : ℕ → Stage) (heap : ℕ → BackgroundJob) (a : ℕ) (st : Stage) (j : BackgroundJob) (b : ℕ)
    → IsSound st j
    → (a ≢ b → IsSound (stages b) (heap b))
    → IsSound (update stages a st b) (update heap a j b)
unfolding update
update-IsSound stages heap a st j b hit miss = elim (Bool-cases (a == b)) [
  | inl e ↦ rw e hit
  | inr e ↦ rw e (miss (ground arith))
]

act-id : (now : ℕ) (st : Stage) (j : BackgroundJob) → (act now st j).id ≡ j.id
unfolding act write_error write_stdout write_stderr finish run_cleanup close_done
act-id now executes j = refl
act-id now (returned r) j = refl
act-id now (reported r) j = refl
act-id now (printed r) j = refl
act-id now (written r) j = refl
act-id now (judged c r) j = refl
act-id now (finished c r) j = refl
act-id now (cleaned c r) j = refl
act-id now (closed c r) j = refl

runs-IsConsistent :
    (r : ExecResult) (now a : ℕ) (w : World)
    → a < w.next
    → IsConsistent w
    → IsConsistent (advance r now a w)
runs-IsConsistent r now a w lt c = record {
  registry =
      modify-IsRegistry (act now (w.stages a)) a w.manager
        (inl (act-id now (w.stages a) (w.manager.heap a))) c.registry;
  in_use = c.in_use;
  sound = λ b le.
      update-IsSound w.stages w.manager.heap a
        (next_stage r (w.manager.heap a).cancelled (w.stages a))
        (act now (w.stages a) (w.manager.heap a)) b
        (act-IsSound r now (w.stages a) (w.manager.heap a) (c.sound a lt)) (λ _. c.sound b le);
}

new-IsSound :
    (caller_id command : Bytes) (now : ℕ)
    → IsSound executes (new_background_job caller_id command now)
unfolding new_background_job stdout_at stderr_at status_at exit_code_at saw_cancelled has_cleaned
    has_closed
new-IsSound caller_id command now = ground arith

starts-IsConsistent :
    (caller_id command : Bytes) (now : ℕ) (w : World)
    → IsConsistent w
    → IsConsistent (record {
      manager = modify (λ _. new_background_job caller_id command now) w.next w.manager;
      stages = update w.stages w.next executes;
      next = w.next + 1;
    })
starts-IsConsistent caller_id command now w c = record {
  registry =
      modify-IsRegistry (λ _. new_background_job caller_id command now) w.next w.manager
        (inr (
          All-map (λ (e : Bytes × ℕ). e.1 < w.next) (λ e. e.1 ≢ w.next) (λ e h. omega arith)
            w.manager.jobs c.in_use))
        c.registry;
  in_use =
      All-map (λ (e : Bytes × ℕ). e.1 < w.next) (λ e. e.1 < w.next + 1) (λ e h. omega arith)
        w.manager.jobs c.in_use;
  sound = λ b lt.
      update-IsSound w.stages w.manager.heap w.next executes
        (new_background_job caller_id command now) b (new-IsSound caller_id command now)
        (λ ne. c.sound b (omega arith));
}

IsSound-id :
    (id : Bytes) (st : Stage) (j : BackgroundJob) → IsSound st j → IsSound st (record j { id = id })
IsSound-id id st j s = ground arith

snapshot-id : (b : Bool) (now : ℕ) (j : BackgroundJob) → (snapshot b now j).1.id ≡ j.id
unfolding snapshot
snapshot-id b now j = ground arith

-- What `Kill` does to the registry's state, by what it finds.
pub kill-cases :
    (id : Bytes) (m : JobManager)
    → ((kill id m ≡ (m, false))
        × ((lookup id m.jobs ≡ none)
            ⊎ ((a : ℕ) × (lookup id m.jobs ≡ some a) × ((m.heap a).done ≡ true))))
      ⊎ ((a : ℕ) × (lookup id m.jobs ≡ some a)
          × ((m.heap a).done ≡ false)
          × (kill id m ≡ (modify (λ j. record j { cancelled = true }) a m, true)))
unfolding kill
kill-cases id m = elim (Option-cases (lookup id m.jobs)) [
  | inl absent ↦ inl (rw absent, inl absent)
  | inr (a, found) ↦ elim (Bool-cases (m.heap a).done) [
    | inl over ↦ inl (rw found (rw over), inr (a, found, over))
    | inr busy ↦ inr (a, found, busy, rw found (rw busy))
  ]
]

kills-IsConsistent :
    (id : Bytes) (w : World)
    → IsConsistent w
    → IsConsistent (record w { manager = (kill id w.manager).0 })
kills-IsConsistent id w c = elim (kill-cases id w.manager) [
  | inl (same, _) ↦ rw same c
  | inr (a, found, busy, same) ↦
      let (j, lt) = lookup-All (λ e. e.1 < w.next) id a w.manager.jobs found c.in_use in
      rw same
        (modify-IsConsistent (λ j. record j { cancelled = true }) a w refl (λ s. ground arith) lt c)
]

adds-IsConsistent :
    (a now : ℕ) (w : World)
    → a < w.next
    → IsUnregistered a w.manager
    → w.manager.seq + 1 < 18446744073709551616
    → IsConsistent w
    → IsConsistent (record w { manager = (add a now w.manager).0 })
adds-IsConsistent a now w lt free h c = record {
  registry = add-IsRegistry a now w.manager c.registry h free;
  in_use = add-All (λ e. e.1 < w.next) a now w.manager (λ id. lt) c.in_use;
  sound = elim (add-heap a now w.manager) [
    | inl same ↦ λ b le. rw same (c.sound b le)
    | inr (id, same) ↦ λ b le. rw same (
        modify-AllSound (λ j. record j { id = id }) w.stages a w.next w.manager
          (IsSound-id id (w.stages a) (w.manager.heap a)) lt c.sound b le)
  ];
}

-- Every step keeps all of it.
pub Step-IsConsistent : {w v : World} → Step w v → IsConsistent w → IsConsistent v
Step-IsConsistent {w} (starts caller_id command now) c =
    starts-IsConsistent caller_id command now w c
Step-IsConsistent {w} (runs a r now lt) c = runs-IsConsistent r now a w lt c
Step-IsConsistent {w} (cancels a lt) c =
    modify-IsConsistent (λ j. record j { cancelled = true }) a w refl (λ s. ground arith) lt c
Step-IsConsistent {w} (reads a now lt) c =
    modify-IsConsistent (λ j. (snapshot true now j).1) a w (snapshot-id true now (w.manager.heap a))
      (snapshot-IsSound true now (w.stages a) (w.manager.heap a)) lt c
Step-IsConsistent {w} (adds a now lt free h) c = adds-IsConsistent a now w lt free h c
Step-IsConsistent {w} (removes id) c = record {
  registry = remove-IsRegistry id w.manager c.registry;
  in_use = remove-All (λ e. e.1 < w.next) id w.manager c.in_use;
  sound = unfold remove in c.sound;
}
Step-IsConsistent {w} (kills id) c = kills-IsConsistent id w c
