-- ===== src/Daemon/Http/Kills.antt =====
-- internal/daemon/handler.go: DELETE /jobs/{id}.
use mathlib.Core.Path.{subst}
use temenos.Base.{
  ℕ, ◌≡◌, refl, sym, ap, ◌∙◌, ◌⊎◌, inl, inr, Bool, true, false, not, Option, none, some,
  if◌then◌else◌, Bytes, Bool-cases, Option-cases, arith,
}
use temenos.Base.Assoc.{lookup}
use temenos.Daemon.Jobs.{BackgroundJob, JobManager, modify, kill, snapshot, is_done}
use temenos.Daemon.Jobs.Steps.{kill-cases}
use temenos.Daemon.Run.{cancel_job}
use temenos.Daemon.Run.Outcome.{update-same}
use temenos.Daemon.Http.{HttpResponse, handle_job_kill, not_found, already_completed, show_job, job}

module _ (now : ℕ) (f g : JobManager → JobManager) (id : Bytes) (m : JobManager) where
  unknown_job : lookup id m.jobs ≡ none → handle_job_kill now f g id m ≡ (m, not_found)
  unfolding handle_job_kill
  unknown_job h = rw (handle_job_kill, h) refl

  done_job :
      (a : ℕ)
      → lookup id m.jobs ≡ some a
      → (m.heap a).done ≡ true
      → handle_job_kill now f g id m ≡ (m, already_completed)
  unfolding handle_job_kill
  done_job a h over = rw (handle_job_kill, h, over) refl

  -- The rest of the handler, by what `Kill` returns.
  abbrev after_kill : ℕ → JobManager × Bool → JobManager × HttpResponse
  after_kill a (m', hit) = if not hit then (m', already_completed) else show_job now a (g m')

  live_job :
      (a : ℕ)
      → lookup id m.jobs ≡ some a
      → (m.heap a).done ≡ false
      → handle_job_kill now f g id m ≡ after_kill a (kill id (f m))
  unfolding handle_job_kill is_done
  live_job a h busy =
      ap
        (λ (o : Option ℕ). elim o as (λ _. JobManager × HttpResponse) [
          | none ↦ (m, not_found)
          | some b ↦
              if (m.heap b).done then (m, already_completed) else after_kill b (kill id (f m))
        ])
        h
      ∙ ap (λ (over : Bool). if over then (m, already_completed) else after_kill a (kill id (f m)))
          busy

-- The job at an address is shown: it counts as read, and the reply is its snapshot with its output.
abbrev pub IsShown : ℕ → ℕ → JobManager → JobManager × HttpResponse → Type 0
IsShown now a m (m', reply) =
    (m' ≡ modify (λ j. (snapshot true now j).1) a m)
    × (reply.status ≡ 200)
    × (reply.body ≡ job (snapshot true now (m.heap a)).0)

show_job-IsShown : (now a : ℕ) (m : JobManager) → IsShown now a m (show_job now a m)
unfolding show_job
show_job-IsShown now a m = (refl, refl, refl)

-- What a kill does, as its state and reply, where others act twice on the way.
abbrev pub Killed :
    ℕ
    → (JobManager → JobManager)
    → (JobManager → JobManager)
    → Bytes
    → JobManager
    → JobManager × HttpResponse
    → Type 0
Killed now f g id m x =
    ((lookup id m.jobs ≡ none) × (x ≡ (m, not_found)))
    ⊎ ((a : ℕ) × (lookup id m.jobs ≡ some a)
        × ((((m.heap a).done ≡ true) × (x ≡ (m, already_completed)))
            ⊎ (((m.heap a).done ≡ false)
                × ((((lookup id (f m).jobs ≡ none)
                        ⊎ ((b : ℕ) × (lookup id (f m).jobs ≡ some b)
                            × (((f m).heap b).done ≡ true)))
                      × (x ≡ (f m, already_completed)))
                    ⊎ ((b : ℕ) × (lookup id (f m).jobs ≡ some b)
                        × (((f m).heap b).done ≡ false)
                        × IsShown now a (g (modify cancel_job b (f m))) x)))))

-- `DELETE /jobs/{id}` on every branch, where the other goroutines act in any way between its looks at the
-- registry. An unknown job is not found and a done one is in conflict, and nothing changes. For any
-- other the handler kills what the identifier names by then: if it names nothing, or a job that is
-- done by then, that is a conflict too, and the handler changes nothing; otherwise that job is cancelled,
-- and the reply, with the status 200, is the snapshot of the job that was found first, which counts
-- as read.
pub handle_job_kill_lem :
    (now : ℕ) (f g : JobManager → JobManager) (id : Bytes) (m : JobManager)
    → Killed now f g id m (handle_job_kill now f g id m)
handle_job_kill_lem now f g id m = elim (Option-cases (lookup id m.jobs)) [
  | inl absent ↦ inl (absent, unknown_job now f g id m absent)
  | inr (a, found) ↦ elim (Bool-cases (m.heap a).done) [
    | inl over ↦ inr (a, found, inl (over, done_job now f g id m a found over))
    | inr busy ↦
        let live = live_job now f g id m a found busy in
        inr (
          a,
          found,
          inr (
            busy,
            elim (kill-cases id (f m)) [
              | inl (same, why) ↦ inl (why, live ∙ ap (after_kill now f g id m a) same)
              | inr (b, named, running, same) ↦ inr (
                b,
                named,
                running,
                subst (IsShown now a (g (modify cancel_job b (f m))))
                    (sym (live ∙ ap (after_kill now f g id m a) same))
                    (show_job-IsShown now a (g (modify cancel_job b (f m)))),
              )
            ],
          ),
        )
  ]
]

snapshot_cancel :
    (now : ℕ) (j : BackgroundJob)
    → ((snapshot true now (cancel_job j)).0 ≡ (snapshot true now j).0)
      × ((snapshot true now (cancel_job j)).1.cancelled ≡ true)
unfolding snapshot
snapshot_cancel now j = (ground arith, ground arith)

-- A kill on which no one else acts.
abbrev pub KilledAlone : ℕ → Bytes → JobManager → JobManager × HttpResponse → Type 0
KilledAlone now id m x =
    ((lookup id m.jobs ≡ none) × (x ≡ (m, not_found)))
    ⊎ ((a : ℕ) × (lookup id m.jobs ≡ some a)
        × ((((m.heap a).done ≡ true) × (x ≡ (m, already_completed)))
            ⊎ (((m.heap a).done ≡ false)
                × (x.1.status ≡ 200)
                × (x.1.body ≡ job (snapshot true now (m.heap a)).0)
                × ((x.0.heap a).cancelled ≡ true)
                × (x.0.jobs ≡ m.jobs))))

cancelled_shown :
    (now a : ℕ) (m : JobManager) (x : JobManager × HttpResponse)
    → IsShown now a (modify cancel_job a m) x
    → (x.1.status ≡ 200)
      × (x.1.body ≡ job (snapshot true now (m.heap a)).0)
      × ((x.0.heap a).cancelled ≡ true)
      × (x.0.jobs ≡ m.jobs)
cancelled_shown now a m x (state, fine, body) =
    let at : (modify cancel_job a m).heap a ≡ cancel_job (m.heap a) =
      update-same m.heap a (cancel_job (m.heap a)) in
    let (shown, cancelled) = snapshot_cancel now (m.heap a) in
    (
      fine,
      body ∙ (ap (λ j. job (snapshot true now j).0) at ∙ ap job shown),
      ap (λ (n : JobManager). (n.heap a).cancelled) state
          ∙ (ap (λ (j : BackgroundJob). j.cancelled)
                (update-same (modify cancel_job a m).heap a
                  (snapshot true now ((modify cancel_job a m).heap a)).1)
              ∙ (ap (λ j. (snapshot true now j).1.cancelled) at ∙ cancelled)),
      ap (λ (n : JobManager). n.jobs) state,
    )

pub handle_job_kill_alone :
    (now : ℕ) (id : Bytes) (m : JobManager)
    → KilledAlone now id m (handle_job_kill now (λ x. x) (λ x. x) id m)
handle_job_kill_alone now id m = elim (handle_job_kill_lem now (λ x. x) (λ x. x) id m) [
  | inl unknown ↦ inl unknown
  | inr (a, found, inl over) ↦ inr (a, found, inl over)
  | inr (a, found, inr (busy, inl (inl absent, _))) ↦ cc
  | inr (a, found, inr (busy, inl (inr (b, named, over), _))) ↦
      let same : b ≡ a = cc in
      absurd (clash (sym (ap (λ (c : ℕ). (m.heap c).done) same) ∙ over) busy)
  | inr (a, found, inr (busy, inr (b, named, _, shown))) ↦
      let same : b ≡ a = cc in
      let reply = handle_job_kill now (λ x. x) (λ x. x) id m in
      let (fine, body, cancelled, kept) =
        cancelled_shown now a m reply
          (subst (λ c. IsShown now a (modify cancel_job c m) reply) same shown) in
      inr (a, found, inr (busy, fine, body, cancelled, kept))
]
  where
    clash : {x : Bool} → x ≡ true → x ≡ false → ⊥
    clash e f = cc
