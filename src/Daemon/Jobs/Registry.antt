-- ===== src/Daemon/Jobs/Registry.antt =====
-- The registry of jobs: its identifiers stay distinct and its size bounded, and what each operation
-- does to the entries.
use temenos.Base.{
  ℕ, ◌+◌, ◌%◌, ◌<◌, ◌≤◌, ◌==◌, ◌≡◌, refl, ◌⊎◌, inl, inr, ◌≢◌, true, false, Option, none, some, List,
  [], ◌∷◌, leb, if◌then◌else◌, Bytes, bytes_eq, bytes_eq_iff, length, All, arith, sym, ◌∙◌,
  Bool-cases,
}
use mathlib.Core.Path.{subst}
use temenos.Base.Assoc.{lookup, insert, delete, lookup-insert, lookup-delete, length-delete}
use temenos.Daemon.Jobs.{
  BackgroundJob, JobManager, collect, is_expired, add, remove, update, too_many_jobs,
  max_background_jobs,
}
use temenos.Daemon.Jobs.Ids.{job_id, job_id_injective}

abbrev pub Entries : Type 0
Entries = List (Bytes × ℕ)

-- No key occurs twice, as in any Go map.
abbrev pub IsMap : Entries → Type 0
IsMap [] = Unit
IsMap ((id, a) ∷ jobs) = (lookup id jobs ≡ none) × IsMap jobs

-- What the garbage collection leaves of an entry.
abbrev pub kept : (ℕ → BackgroundJob) → ℕ → Option ℕ → Option ℕ
kept heap now none = none
kept heap now (some a) = if is_expired now (heap a) then none else some a

module _ (heap : ℕ → BackgroundJob) (now : ℕ) where
  pub length-collect : (jobs : Entries) → length (collect heap now jobs) ≤ length jobs
  unfolding collect
  length-collect [] = omega arith
  length-collect ((id, a) ∷ jobs) = ground (arith, length-collect jobs)

  pub All-collect :
      (P : Bytes × ℕ → Type 0) (jobs : Entries) → All P jobs → All P (collect heap now jobs)
  unfolding collect
  All-collect P [] h = tt
  All-collect P ((id, a) ∷ jobs) (p, h) = elim (Bool-cases (is_expired now (heap a))) [
    | inl e ↦ rw e (All-collect P jobs h)
    | inr e ↦ rw e (p, All-collect P jobs h)
  ]

  lookup-collect_absent :
      (id : Bytes) (jobs : Entries)
      → lookup id jobs ≡ none
      → lookup id (collect heap now jobs) ≡ none
  unfolding lookup collect
  lookup-collect_absent id [] h = refl
  lookup-collect_absent id ((j, a) ∷ jobs) h = ground (arith, lookup-collect_absent id jobs)

  pub IsMap-collect : (jobs : Entries) → IsMap jobs → IsMap (collect heap now jobs)
  unfolding collect
  IsMap-collect [] h = tt
  IsMap-collect ((id, a) ∷ jobs) (p, h) = elim (Bool-cases (is_expired now (heap a))) [
    | inl e ↦ rw e (IsMap-collect jobs h)
    | inr e ↦ rw e (lookup-collect_absent id jobs p, IsMap-collect jobs h)
  ]

  -- `gcLocked` takes away the entries of the expired jobs and no other.
  pub lookup-collect :
      (id : Bytes) (jobs : Entries)
      → IsMap jobs
      → lookup id (collect heap now jobs) ≡ kept heap now (lookup id jobs)
  unfolding lookup collect
  lookup-collect id [] h = refl
  lookup-collect id ((j, a) ∷ jobs) (p, h) =
      ground (arith, lookup-collect id jobs h, bytes_eq_iff j id, lookup-collect_absent j jobs p)

IsMap-delete : (k : Bytes) (jobs : Entries) → IsMap jobs → IsMap (delete k jobs)
unfolding delete lookup
IsMap-delete k [] h = tt
IsMap-delete k ((j, a) ∷ jobs) (p, h) =
    ground (arith, IsMap-delete k jobs h, lookup-delete k j jobs)

All-delete :
    (P : Bytes × ℕ → Type 0) (k : Bytes) (jobs : Entries) → All P jobs → All P (delete k jobs)
unfolding delete
All-delete P k [] h = tt
All-delete P k ((j, a) ∷ jobs) (p, h) = ground (arith, All-delete P k jobs h)

-- The number of an entry: its identifier was made from it, and it is not beyond the counter.
abbrev IsNumbered : ℕ → Bytes × ℕ → Type 0
IsNumbered seq e = (k : ℕ) × (k ≤ seq) × (e.0 ≡ job_id k)

pub record IsRegistry (m : JobManager) : Type 0 where
  pub is_map : IsMap m.jobs
  pub bounded : length m.jobs ≤ max_background_jobs
  pub numbered : All (IsNumbered m.seq) m.jobs
  pub named : All (λ e. (m.heap e.1).id ≡ e.0) m.jobs
  pub in_range : m.seq < 18446744073709551616

abbrev pub IsUnregistered : ℕ → JobManager → Type 0
IsUnregistered a m = All (λ e. e.1 ≢ a) m.jobs

lookup_unnumbered :
    (seq : ℕ) (jobs : Entries)
    → seq + 1 < 18446744073709551616
    → All (IsNumbered seq) jobs
    → lookup (job_id (seq + 1)) jobs ≡ none
unfolding lookup
lookup_unnumbered seq [] h k = refl
lookup_unnumbered seq ((id, a) ∷ jobs) h ((k, le, e), ks) =
    elim (Bool-cases (bytes_eq id (job_id (seq + 1)))) [
      | inl same ↦ absurd (
          omega (
            arith,
            job_id_injective k (seq + 1) (omega arith) h
                (sym e ∙ (bytes_eq_iff id (job_id (seq + 1))).0 same),
          ))
      | inr other ↦ rw other (lookup_unnumbered seq jobs h ks)
    ]

pub next_seq :
    (seq : ℕ) → seq + 1 < 18446744073709551616 → (seq + 1) % 18446744073709551616 ≡ seq + 1
next_seq seq h = omega arith

-- The jobs left after a collection, if `Add` is called now.
abbrev pub left : ℕ → JobManager → Entries
left now m = collect m.heap now m.jobs

-- On a registry in order whose counter does not wrap, `Add` collects the expired jobs first. If a
-- hundred are left it reports an error and registers nothing; otherwise the job is registered
-- under the next number, which no job in the registry had, and every other identifier finds what
-- it found, unless that job has expired. Of the jobs themselves it changes only the added one's
-- identifier.
pub add_lem :
    (a now : ℕ) (m : JobManager)
    → IsRegistry m
    → m.seq + 1 < 18446744073709551616
    → ((max_background_jobs ≤ length (left now m))
        × (add a now m ≡ (record m { jobs = left now m }, some too_many_jobs)))
      ⊎ ((length (left now m) < max_background_jobs)
          × ((add a now m).1 ≡ none)
          × (lookup (job_id (m.seq + 1)) m.jobs ≡ none)
          × ((id : Bytes)
              → lookup id (add a now m).0.jobs ≡ (
                  if bytes_eq (job_id (m.seq + 1)) id
                  then some a
                  else kept m.heap now (lookup id m.jobs)))
          × ((add a now m).0.heap a ≡ record (m.heap a) { id = job_id (m.seq + 1) })
          × ((b : ℕ) → a ≢ b → (add a now m).0.heap b ≡ m.heap b))
unfolding add update
add_lem a now m r h = elim (Bool-cases (leb max_background_jobs (length (left now m)))) [
  | inl full ↦ inl (ground arith, rw full)
  | inr room ↦ inr (
    ground arith,
    rw room,
    lookup_unnumbered m.seq m.jobs h r.numbered,
    λ id.
        rw (room, next_seq m.seq h)
          (rw (
            lookup-insert (job_id (m.seq + 1)) id a (left now m),
            lookup-collect m.heap now id m.jobs r.is_map,
          )),
    rw (room, next_seq m.seq h) (let same : (a == a) ≡ true = ground arith in rw same refl),
    λ b ne. rw room (let other : (a == b) ≡ false = ground arith in rw other refl),
  )
]

All-IsNumbered_mono :
    (seq : ℕ) (jobs : Entries) → All (IsNumbered seq) jobs → All (IsNumbered (seq + 1)) jobs
All-IsNumbered_mono seq [] h = tt
All-IsNumbered_mono seq (e ∷ jobs) ((k, le, same), h) =
    ((k, omega arith, same), All-IsNumbered_mono seq jobs h)

All-named_update :
    (heap : ℕ → BackgroundJob) (a : ℕ) (j : BackgroundJob) (jobs : Entries)
    → All (λ e. e.1 ≢ a) jobs
    → All (λ e. (heap e.1).id ≡ e.0) jobs
    → All (λ e. (update heap a j e.1).id ≡ e.0) jobs
unfolding update
All-named_update heap a j [] h k = tt
All-named_update heap a j ((id, b) ∷ jobs) (p, h) (q, k) =
    (ground arith, All-named_update heap a j jobs h k)

lookup_deleted : (k : Bytes) (jobs : Entries) → lookup k (delete k jobs) ≡ none
lookup_deleted k jobs = ground (arith, lookup-delete k k jobs, bytes_eq_iff k k)

-- `Add` of a job that is not registered yet keeps the registry in order: distinct identifiers, each
-- made from a number up to the counter and carried by its job, and at most a hundred of them.
pub add-IsRegistry :
    (a now : ℕ) (m : JobManager)
    → IsRegistry m
    → m.seq + 1 < 18446744073709551616
    → IsUnregistered a m
    → IsRegistry (add a now m).0
unfolding add insert
add-IsRegistry a now m r h free =
    elim (Bool-cases (leb max_background_jobs (length (left now m)))) [
      | inl full ↦ rw full (record {
        is_map = IsMap-collect m.heap now m.jobs r.is_map;
        bounded = omega (arith, length-collect m.heap now m.jobs, r.bounded);
        numbered = All-collect m.heap now (IsNumbered m.seq) m.jobs r.numbered;
        named = All-collect m.heap now (λ e. (m.heap e.1).id ≡ e.0) m.jobs r.named;
        in_range = r.in_range;
      })
      | inr room ↦
          rw (room, next_seq m.seq h)
            (record {
              is_map = (
                lookup_deleted (job_id (m.seq + 1)) (left now m),
                IsMap-delete (job_id (m.seq + 1)) (left now m)
                    (IsMap-collect m.heap now m.jobs r.is_map),
              );
              bounded = ground (arith, length-delete (job_id (m.seq + 1)) (left now m));
              numbered = (
                (m.seq + 1, omega arith, refl),
                All-delete (IsNumbered (m.seq + 1)) (job_id (m.seq + 1)) (left now m) (
                    All-collect m.heap now (IsNumbered (m.seq + 1)) m.jobs
                      (All-IsNumbered_mono m.seq m.jobs r.numbered)),
              );
              named = (
                unfold update in ground arith,
                All-named_update m.heap a _ (delete (job_id (m.seq + 1)) (left now m))
                    (All-delete (λ e. e.1 ≢ a) (job_id (m.seq + 1)) (left now m)
                      (All-collect m.heap now (λ e. e.1 ≢ a) m.jobs free))
                    (All-delete (λ e. (m.heap e.1).id ≡ e.0) (job_id (m.seq + 1)) (left now m)
                      (All-collect m.heap now (λ e. (m.heap e.1).id ≡ e.0) m.jobs r.named)),
              );
              in_range = h;
            })
    ]

-- What holds of the entries and of the new one holds of the entries after `Add`.
pub add-All :
    (P : Bytes × ℕ → Type 0) (a now : ℕ) (m : JobManager)
    → ((id : Bytes) → P (id, a))
    → All P m.jobs
    → All P (add a now m).0.jobs
unfolding add insert
add-All P a now m p h = elim (Bool-cases (leb max_background_jobs (length (left now m)))) [
  | inl full ↦ rw full (All-collect m.heap now P m.jobs h)
  | inr room ↦ rw room (
    p (job_id ((m.seq + 1) % 18446744073709551616)),
    All-delete P (job_id ((m.seq + 1) % 18446744073709551616)) (left now m)
        (All-collect m.heap now P m.jobs h),
  )
]

-- `Add` writes at most the identifier of the job.
pub add-heap :
    (a now : ℕ) (m : JobManager)
    → ((add a now m).0.heap ≡ m.heap)
      ⊎ ((id : Bytes) × ((add a now m).0.heap ≡ update m.heap a (record (m.heap a) { id = id })))
unfolding add
add-heap a now m = elim (Bool-cases (leb max_background_jobs (length (left now m)))) [
  | inl full ↦ inl (rw full)
  | inr room ↦ inr (job_id ((m.seq + 1) % 18446744073709551616), rw room)
]

-- `Remove` keeps the registry in order.
pub remove-IsRegistry : (id : Bytes) (m : JobManager) → IsRegistry m → IsRegistry (remove id m)
unfolding remove
remove-IsRegistry id m r = record {
  is_map = IsMap-delete id m.jobs r.is_map;
  bounded = omega (arith, length-delete id m.jobs, r.bounded);
  numbered = All-delete (IsNumbered m.seq) id m.jobs r.numbered;
  named = All-delete (λ e. (m.heap e.1).id ≡ e.0) id m.jobs r.named;
  in_range = r.in_range;
}

pub remove-All :
    (P : Bytes × ℕ → Type 0) (id : Bytes) (m : JobManager) → All P m.jobs → All P (remove id m).jobs
unfolding remove
remove-All P id m h = All-delete P id m.jobs h

pub lookup-All :
    (P : Bytes × ℕ → Type 0) (id : Bytes) (a : ℕ) (jobs : Entries)
    → lookup id jobs ≡ some a
    → All P jobs
    → (j : Bytes) × P (j, a)
unfolding lookup
lookup-All P id a [] e h = cc
lookup-All P id a ((j, b) ∷ jobs) e (p, h) = elim (Bool-cases (bytes_eq j id)) [
  | inl hit ↦ (j, subst (λ c. P (j, c)) (ground arith) p)
  | inr miss ↦ lookup-All P id a jobs (rw (miss, lookup) at e) h
]
