-- ===== src/Daemon/Run/Outcome.antt =====
-- internal/daemon/handler.go: what has become of the job when the run handler returns.
use mathlib.Core.Path.{subst}
use temenos.Base.{
  if◌then◌else◌, ℕ, ◌+◌, ◌%◌, ◌≡◌, refl, sym, ap, ◌∙◌, ◌≢◌, ◌⊎◌, inl, inr, true, false, none, some,
  List, [], ◌∷◌, leb, length, All, Bytes, codes, bytes_eq_refl, is_empty, Result, ok, err,
  Bool-cases, arith,
}
use temenos.Base.Assoc.{lookup, insert, lookup-insert}
use temenos.Daemon.Jobs.{
  BackgroundJob, JobInfo, JobManager, too_many_jobs, max_background_jobs, add, modify, update,
  snapshot, truncate, is_done, is_running,
}
use temenos.Daemon.Jobs.Ids.{job_id, is_empty-job_id}
use temenos.Daemon.Jobs.Registry.{IsUnregistered, All-collect, left}
use temenos.Daemon.Run.{
  HandlerError, not_added, request_gone, RunResponse, Signal, tick, timeout, request_done, Moment,
  Reply, cancel_job, select, poll, finished_response, background_response, added,
}

-- The other goroutines do not register this job, which only its handler knows.
abbrev pub Keeps : ℕ → Moment → Type 0
Keeps a t = (m : JobManager) → IsUnregistered a m → IsUnregistered a (t.others m)

-- What a reply shows of an output: none before the job is finished.
abbrev pub output_of : BackgroundJob → Bytes → Bytes
output_of j s = if is_running j.status then [] else truncate s

-- The job is where the reply says that it is.
abbrev pub Outcome : ℕ → JobManager → Result HandlerError RunResponse → Type 0
Outcome a m (err e) = ((m.heap a).cancelled ≡ true) × IsUnregistered a m
Outcome a m (ok resp) =
    ((resp.job_id ≡ [])
      × IsUnregistered a m
      × ((m.heap a).done ≡ true)
      × (resp.exit_code ≡ (m.heap a).exit_code)
      × (resp.stdout ≡ output_of (m.heap a) (m.heap a).stdout)
      × (resp.stderr ≡ output_of (m.heap a) (m.heap a).stderr))
    ⊎ ((is_empty resp.job_id ≡ false)
        × (resp.status ≡ codes "background")
        × ((m.heap a).id ≡ resp.job_id)
        × (lookup resp.job_id m.jobs ≡ some a))

pub update-same : (heap : ℕ → BackgroundJob) (a : ℕ) (j : BackgroundJob) → update heap a j a ≡ j
unfolding update
update-same heap a j = ground arith

-- The reply of the round fits, and without one the job is still unregistered.
abbrev pub Settles : ℕ → JobManager × Reply → Type 0
Settles a (m, none) = IsUnregistered a m
Settles a (m, some r) = Outcome a m r

-- The fields of a snapshot with output, and what it leaves of the job.
snapshot-fields :
    (now : ℕ) (j : BackgroundJob)
    → ((snapshot true now j).1.done ≡ j.done)
      × ((snapshot true now j).0.exit_code ≡ (snapshot true now j).1.exit_code)
      × ((snapshot true now j).0.stdout
          ≡ output_of (snapshot true now j).1 (snapshot true now j).1.stdout)
      × ((snapshot true now j).0.stderr
          ≡ output_of (snapshot true now j).1 (snapshot true now j).1.stderr)
unfolding snapshot
snapshot-fields now j = (ground arith, ground arith, ground arith, ground arith)

-- The reply from a reading of a job.
abbrev Reads : List Bytes → JobInfo → BackgroundJob → Type 0
Reads stripped info j =
    (j.done ≡ true)
    × (info.exit_code ≡ j.exit_code)
    × (info.stdout ≡ output_of j j.stdout)
    × (info.stderr ≡ output_of j j.stderr)

read-Settles :
    (a : ℕ) (stripped : List Bytes) (info : JobInfo) (j : BackgroundJob) (m : JobManager)
    → IsUnregistered a m
    → Reads stripped info j
    → Settles a (modify (λ _. j) a m, some (ok (finished_response stripped info)))
unfolding finished_response
read-Settles a stripped info j m h r =
    let (over, code, out, errs) = subst (Reads stripped info) (sym (update-same m.heap a j)) r in
    inl (refl, h, over, code, out, errs)

module _ (a now : ℕ) (m : JobManager) where
  add-full :
      leb max_background_jobs (length (left now m)) ≡ true
      → add a now m ≡ (record m { jobs = left now m }, some too_many_jobs)
  unfolding add
  add-full h = rw h refl

  abbrev new_id : Bytes
  new_id = job_id ((m.seq + 1) % 18446744073709551616)

  add-room :
      leb max_background_jobs (length (left now m)) ≡ false
      → add a now m ≡ (
        record {
          heap = update m.heap a (record (m.heap a) { id = new_id });
          jobs = insert new_id a (left now m);
          seq = (m.seq + 1) % 18446744073709551616;
        },
        none,
      )
  unfolding add
  add-room h = rw h refl

cancel-Settles :
    (a : ℕ) (e : HandlerError) (m : JobManager)
    → IsUnregistered a m
    → Settles a (modify cancel_job a m, some (err e))
cancel-Settles a e m h =
    (ap (λ (j : BackgroundJob). j.cancelled) (update-same m.heap a (cancel_job (m.heap a))), h)

registered-Settles :
    (a : ℕ) (m : JobManager) (id : Bytes)
    → (m.heap a).id ≡ id
    → is_empty id ≡ false
    → lookup id m.jobs ≡ some a
    → Settles a (m, some (ok (background_response (m.heap a).id)))
unfolding background_response
registered-Settles a m id name ne found =
    inr (ap is_empty name ∙ ne, refl, refl, ap (λ x. lookup x m.jobs) name ∙ found)

insert-hit : (id : Bytes) (a : ℕ) (jobs : List (Bytes × ℕ)) → lookup id (insert id a jobs) ≡ some a
insert-hit id a jobs = ground (arith, lookup-insert id id a jobs, bytes_eq_refl id)

added-Settles :
    (a now : ℕ) (m : JobManager) → IsUnregistered a m → Settles a (added a (add a now m))
unfolding added
added-Settles a now m h = elim (Bool-cases (leb max_background_jobs (length (left now m)))) [
  | inl full ↦
      subst (λ r. Settles a (added a r)) (sym (add-full a now m full))
        (cancel-Settles a (not_added too_many_jobs) (record m { jobs = left now m })
          (All-collect m.heap now (λ e. e.1 ≢ a) m.jobs h))
  | inr room ↦
      subst (λ r. Settles a (added a r)) (sym (add-room a now m room))
        (registered-Settles a
          (record {
            heap = update m.heap a (record (m.heap a) { id = new_id a now m });
            jobs = insert (new_id a now m) a (left now m);
            seq = (m.seq + 1) % 18446744073709551616;
          })
          (new_id a now m)
          (ap (λ (j : BackgroundJob). j.id)
            (update-same m.heap a (record (m.heap a) { id = new_id a now m })))
          (is_empty-job_id ((m.seq + 1) % 18446744073709551616))
          (insert-hit (new_id a now m) a (left now m)))
]

module _ (a : ℕ) (stripped : List Bytes) (now : ℕ) (m : JobManager) where
  select-over :
      is_done (m.heap a) ≡ true
      → select a stripped tick now m ≡ (
        modify (λ _. (snapshot true now (m.heap a)).1) a m,
        some (ok (finished_response stripped (snapshot true now (m.heap a)).0)),
      )
  unfolding select
  select-over h = rw h refl

  select-busy : is_done (m.heap a) ≡ false → select a stripped tick now m ≡ (m, none)
  unfolding select
  select-busy h = rw h refl

select-Settles :
    (a : ℕ) (stripped : List Bytes) (s : Signal) (now : ℕ) (m : JobManager)
    → IsUnregistered a m
    → Settles a (select a stripped s now m)
select-Settles a stripped tick now m h = elim (Bool-cases (is_done (m.heap a))) [
  | inl over ↦
      let (same, code, out, errs) = snapshot-fields now (m.heap a) in
      subst (Settles a) (sym (select-over a stripped now m over)) (
        read-Settles a stripped (snapshot true now (m.heap a)).0 (snapshot true now (m.heap a)).1 m
          h (same ∙ (unfold is_done in over), code, out, errs))
  | inr busy ↦ subst (Settles a) (sym (select-busy a stripped now m busy)) h
]
select-Settles a stripped timeout now m h = unfold select in added-Settles a now m h
select-Settles a stripped request_done now m h = unfold select in cancel-Settles a request_gone m h

module _ (a : ℕ) (stripped : List Bytes) (t : Moment) (ts : List Moment) (m : JobManager) where
  pub poll-stop :
      (m' : JobManager) (r : Result HandlerError RunResponse)
      → select a stripped t.signal t.now (t.others m) ≡ (m', some r)
      → poll a stripped (t ∷ ts) m ≡ (m', some r)
  unfolding poll
  poll-stop m' r h =
      ap
        (λ (x : JobManager × Reply). elim x.1 as (λ _. JobManager × Reply) [
          | some q ↦ (x.0, some q)
          | none ↦ poll a stripped ts x.0
        ])
        h

  pub poll-go :
      (m' : JobManager)
      → select a stripped t.signal t.now (t.others m) ≡ (m', none)
      → poll a stripped (t ∷ ts) m ≡ poll a stripped ts m'
  unfolding poll
  poll-go m' h =
      ap
        (λ (x : JobManager × Reply). elim x.1 as (λ _. JobManager × Reply) [
          | some q ↦ (x.0, some q)
          | none ↦ poll a stripped ts x.0
        ])
        h

-- What a round gives, as an equation.
pub Reply-cases :
    (x : JobManager × Reply)
    → ((m : JobManager) × (x ≡ (m, none)))
      ⊎ ((m : JobManager) × (r : Result HandlerError RunResponse) × (x ≡ (m, some r)))
Reply-cases (m, none) = inl (m, refl)
Reply-cases (m, some r) = inr (m, r, refl)

pub poll-Settles :
    (a : ℕ) (stripped : List Bytes) (ts : List Moment) (m : JobManager)
    → All (Keeps a) ts
    → IsUnregistered a m
    → Settles a (poll a stripped ts m)
poll-Settles a stripped [] m ks h = unfold poll in h
poll-Settles a stripped (t ∷ ts) m (k, ks) h =
    let round = select-Settles a stripped t.signal t.now (t.others m) (k m h) in
    elim (Reply-cases (select a stripped t.signal t.now (t.others m))) [
      | inl (m', go) ↦
          subst (Settles a) (sym (poll-go a stripped t ts m m' go))
            (poll-Settles a stripped ts m' ks (subst (Settles a) go round))
      | inr (m', r, stop) ↦
          subst (Settles a) (sym (poll-stop a stripped t ts m m' r stop))
            (subst (Settles a) stop round)
    ]

-- A cancellation moves no job.
pub cancel-Outcome :
    (a : ℕ) (m : JobManager) (r : Result HandlerError RunResponse)
    → Outcome a m r
    → Outcome a (modify cancel_job a m) r
cancel-Outcome a m (err e) (cancelled, free) =
    (ap (λ (j : BackgroundJob). j.cancelled) (update-same m.heap a (cancel_job (m.heap a))), free)
cancel-Outcome a m (ok resp) (inl (here, free, over, code, out, errs)) =
    let now = update-same m.heap a (cancel_job (m.heap a)) in
    inl (
      here,
      free,
      ap (λ (j : BackgroundJob). j.done) now ∙ over,
      code ∙ sym (ap (λ (j : BackgroundJob). j.exit_code) now),
      subst (λ (j : BackgroundJob). resp.stdout ≡ output_of j j.stdout) (sym now) out,
      subst (λ (j : BackgroundJob). resp.stderr ≡ output_of j j.stderr) (sym now) errs,
    )
cancel-Outcome a m (ok resp) (inr (ne, status, name, found)) =
    (let now = update-same m.heap a (cancel_job (m.heap a)) in
      inr (ne, status, ap (λ (j : BackgroundJob). j.id) now ∙ name, found))

pub Settles-Outcome :
    (a : ℕ) (x : JobManager × Reply) (r : Result HandlerError RunResponse)
    → Settles a x
    → x.1 ≡ some r
    → Outcome a x.0 r
Settles-Outcome a (m, none) r h e = cc
Settles-Outcome a (m, some q) r h e = let same : q ≡ r = cc in subst (λ z. Outcome a m z) same h
