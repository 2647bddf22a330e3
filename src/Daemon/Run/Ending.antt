-- ===== src/Daemon/Run/Ending.antt =====
-- internal/daemon/handler.go: that the loop of the run handler ends.

use temenos.Base.{
  ℕ, ◌≡◌, ap, ◌∙◌, ◌≢◌, inl, inr, Bool, true, false, Option, none, some, List, [], ◌∷◌, any, Bytes,
  Result, Bool-cases, arith,
}
use temenos.Daemon.Jobs.{JobManager, AddError, add}
use temenos.Daemon.Run.{
  HandlerError, RunResponse, Signal, tick, timeout, request_done, Moment, Reply, select, poll,
  added,
}
use temenos.Daemon.Run.Outcome.{Reply-cases, poll-stop, poll-go}

-- A signal on which the handler returns whatever the job does.
abbrev pub is_final : Signal → Bool
is_final tick = false
is_final timeout = true
is_final request_done = true

added-some : (a : ℕ) (x : JobManager × Option AddError) → (added a x).1 ≢ none
unfolding added
added-some a (m, some e) h = cc
added-some a (m, none) h = cc

select-final :
    (a : ℕ) (stripped : List Bytes) (s : Signal) (now : ℕ) (m m' : JobManager)
    → is_final s ≡ true
    → select a stripped s now m ≢ (m', none)
unfolding select
select-final a stripped tick now m m' f e = cc
select-final a stripped timeout now m m' f e =
    added-some a (add a now m) (ap (λ (x : JobManager × Reply). x.1) e)
select-final a stripped request_done now m m' f e = cc

-- The loop of the handler ends: a schedule with the timer's signal or the client's end in it gives a
-- reply, whatever the job and the other goroutines do.
pub poll_ends :
    (a : ℕ) (stripped : List Bytes) (ts : List Moment) (m : JobManager)
    → any (λ t. is_final t.signal) ts ≡ true
    → (r : Result HandlerError RunResponse) × ((poll a stripped ts m).1 ≡ some r)
poll_ends a stripped [] m h = cc
poll_ends a stripped (t ∷ ts) m h =
    elim (Reply-cases (select a stripped t.signal t.now (t.others m))) [
      | inr (m', r, stop) ↦
          (r, ap (λ (x : JobManager × Reply). x.1) (poll-stop a stripped t ts m m' r stop))
      | inl (m', go) ↦ elim (Bool-cases (is_final t.signal)) [
        | inl f ↦ absurd (select-final a stripped t.signal t.now (t.others m) m' f go)
        | inr wait ↦
            let (r, same) = poll_ends a stripped ts m' (ground arith) in
            (r, ap (λ (x : JobManager × Reply). x.1) (poll-go a stripped t ts m m' go) ∙ same)
      ]
    ]
