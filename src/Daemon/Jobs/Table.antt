-- ===== src/Daemon/Jobs/Table.antt =====
-- internal/daemon/jobs.go: the registry as the table that its callers see, which forgets the addresses,
-- the counter and the order of the entries.
use mathlib.Core.Path.{subst}
use temenos.Base.{
  ℕ, ◌+◌, ◌<◌, ◌≡◌, ◌≢◌, refl, sym, ap, ◌∙◌, Bool, true, false, inl, inr, Option, none, some, [],
  ◌∷◌, if◌then◌else◌, Bytes, bytes_eq, bytes_eq_iff, All, length, leb, arith, Bool-cases,
}
use temenos.Base.Assoc.{lookup, lookup-delete}
use temenos.Daemon.Jobs.{
  BackgroundJob, JobManager, is_expired, add, remove, kill, update, AddError, max_background_jobs,
}
use temenos.Daemon.Jobs.Ids.{job_id}
use temenos.Daemon.Jobs.Registry.{
  Entries, IsRegistry, IsUnregistered, kept, left, add_lem, lookup-All, lookup-collect, next_seq,
}
use temenos.Daemon.Jobs.Steps.{update_elim, kill-cases}

abbrev pub Table : Type 0
Table = Bytes → Option BackgroundJob

abbrev see : (ℕ → BackgroundJob) → Option ℕ → Option BackgroundJob
see heap none = none
see heap (some a) = some (heap a)

unfoldable pub table : JobManager → Table
table m id = see m.heap (lookup id m.jobs)

-- A call, with the job itself where the code has a pointer.
pub data Call : Type 0 where
  adds : BackgroundJob → ℕ → Call
  removes kills : Bytes → Call

abbrev unexpired : ℕ → Option BackgroundJob → Option BackgroundJob
unexpired now none = none
unexpired now (some j) = if is_expired now j then none else some j

-- What a call promises, by whether it has succeeded: the table before and after.
abbrev pub IsPromised : Table → Call → Bool → Table → Type 0
IsPromised before (adds j now) false after = (id : Bytes) → after id ≡ unexpired now (before id)
IsPromised before (adds j now) true after =
    (new : Bytes) × (before new ≡ none)
    × ((id : Bytes)
        → after id
          ≡ (if bytes_eq new id then some (record j { id = new }) else unexpired now (before id)))
IsPromised before (removes gone) _ after =
    (id : Bytes) → after id ≡ (if bytes_eq gone id then none else before id)
IsPromised before (kills target) false after =
    ((j : BackgroundJob) → before target ≡ some j → j.done ≡ true)
    × ((id : Bytes) → after id ≡ before id)
IsPromised before (kills target) true after =
    (j : BackgroundJob) × (before target ≡ some j)
    × (j.done ≡ false)
    × ((id : Bytes)
        → after id
          ≡ (if bytes_eq target id then some (record j { cancelled = true }) else before id))

abbrev succeeded : Option AddError → Bool
succeeded none = true
succeeded (some e) = false

see-kept :
    (heap : ℕ → BackgroundJob) (now : ℕ) (o : Option ℕ)
    → see heap (kept heap now o) ≡ unexpired now (see heap o)
see-kept heap now none = refl
see-kept heap now (some a) = elim (Bool-cases (is_expired now (heap a))) [
  | inl old ↦ rw old refl
  | inr new ↦ rw new refl
]

update_at : (heap : ℕ → BackgroundJob) (a : ℕ) (j : BackgroundJob) → update heap a j a ≡ j
update_at heap a j =
    update_elim (λ k. k ≡ j) heap a j a (λ _. refl) (λ differs. absurd (differs refl))

-- A write to another address is not seen.
see-update :
    (heap : ℕ → BackgroundJob) (a : ℕ) (j : BackgroundJob) (o : Option ℕ)
    → ((b : ℕ) → o ≡ some b → a ≢ b)
    → see (update heap a j) o ≡ see heap o
see-update heap a j none h = refl
see-update heap a j (some b) h =
    update_elim (λ k. some k ≡ some (heap b)) heap a j b (λ same. absurd (h b refl same))
      (λ differs. refl)

some_same : (a b : ℕ) → some a ≡ some b → a ≡ b
some_same a b h = cc

lookup-named :
    (heap : ℕ → BackgroundJob) (id : Bytes) (a : ℕ) (jobs : Entries)
    → All (λ e. (heap e.1).id ≡ e.0) jobs
    → lookup id jobs ≡ some a
    → (heap a).id ≡ id
unfolding lookup
lookup-named heap id a [] h = λ found. ground arith
lookup-named heap id a ((j, b) ∷ jobs) (named, h) = elim (Bool-cases (bytes_eq j id)) [
  | inl hit ↦ rw hit (λ found.
      ap (λ b. (heap b).id) (sym (some_same b a found)) ∙ (named ∙ (bytes_eq_iff j id).0 hit))
  | inr miss ↦ rw miss (lookup-named heap id a jobs h)
]

-- The table after a removal.
remove-IsPromised :
    (gone : Bytes) (m : JobManager)
    → (r : Bool) → IsPromised (table m) (removes gone) r (table (remove gone m))
unfolding table remove
remove-IsPromised gone m r id =
    ap (see m.heap) (lookup-delete gone id m.jobs)
    ∙ elim (Bool-cases (bytes_eq gone id)) [ inl hit ↦ rw hit refl | inr miss ↦ rw miss refl ]

-- The identifiers of the registered jobs are their keys, so two keys never share a job.
abbrev is_over : Option BackgroundJob → Bool
is_over none = true
is_over (some j) = j.done

kill-IsPromised :
    (target : Bytes) (m : JobManager)
    → IsRegistry m
    → IsPromised (table m) (kills target) (kill target m).1 (table (kill target m).0)
unfolding table
kill-IsPromised target m r = elim (kill-cases target m) [
  | inl (same, inl absent) ↦
      rw same ((λ j found. ground (arith, sym (ap (see m.heap) absent) ∙ found)), λ id. refl)
  | inl (same, inr (a, found, over)) ↦
      rw same ((λ j seen. ap is_over (sym seen ∙ ap (see m.heap) found) ∙ over), λ id. refl)
  | inr (a, found, busy, same) ↦ rw same (
      let j : BackgroundJob = record (m.heap a) { cancelled = true } in
      (
        m.heap a,
        ap (see m.heap) found,
        busy,
        λ id. elim (Bool-cases (bytes_eq target id)) [
          | inl hit ↦ rw hit (
              let here : lookup id m.jobs ≡ some a =
                ap (λ k. lookup k m.jobs) (sym ((bytes_eq_iff target id).0 hit)) ∙ found in
              ap (see (update m.heap a j)) here ∙ ap some (update_at m.heap a j))
          | inr miss ↦ rw miss (
              see-update m.heap a j (lookup id m.jobs) (λ b there aliased.
                let mine : (m.heap a).id ≡ target =
                  lookup-named m.heap target a m.jobs r.named found in
                let its : (m.heap b).id ≡ id = lookup-named m.heap id b m.jobs r.named there in
                let same_id : target ≡ id = sym mine ∙ (ap (λ c. (m.heap c).id) aliased ∙ its) in
                ground (arith, (bytes_eq_iff target id).1 same_id, miss)))
        ],
      ))
]

add-heap_room :
    (a now : ℕ) (m : JobManager)
    → m.seq + 1 < 18446744073709551616
    → length (left now m) < max_background_jobs
    → (add a now m).0.heap ≡ update m.heap a (record (m.heap a) { id = job_id (m.seq + 1) })
unfolding add
add-heap_room a now m fits room =
    elim (Bool-cases (leb max_background_jobs (length (left now m)))) [
      | inl full ↦ ground arith
      | inr free ↦ rw (free, next_seq m.seq fits) refl
    ]

kept-some :
    (heap : ℕ → BackgroundJob) (now : ℕ) (o : Option ℕ) (b : ℕ)
    → kept heap now o ≡ some b
    → o ≡ some b
kept-some heap now none b h = h
kept-some heap now (some c) b h = ground (arith, h)

kept-unregistered :
    (a now : ℕ) (m : JobManager)
    → IsUnregistered a m
    → (id : Bytes) (b : ℕ) → kept m.heap now (lookup id m.jobs) ≡ some b
    → a ≢ b
kept-unregistered a now m free id b h same =
    let found = kept-some m.heap now (lookup id m.jobs) b h in
    let (j, differs) = lookup-All (λ e. e.1 ≢ a) id b m.jobs found free in differs (sym same)

add-IsPromised :
    (a now : ℕ) (m : JobManager)
    → IsRegistry m
    → m.seq + 1 < 18446744073709551616
    → IsUnregistered a m
    → IsPromised (table m) (adds (m.heap a) now) (succeeded (add a now m).1) (table (add a now m).0)
unfolding table
add-IsPromised a now m r fits free = elim (add_lem a now m r fits) [
  | inl (full, same) ↦ rw same (λ id.
      ap (see m.heap) (lookup-collect m.heap now id m.jobs r.is_map)
      ∙ see-kept m.heap now (lookup id m.jobs))
  | inr (room, done, new, found, _, _) ↦
      let new_id : Bytes = job_id (m.seq + 1) in
      let j : BackgroundJob = record (m.heap a) { id = new_id } in
      rw done (
        new_id,
        ap (see m.heap) new,
        λ id.
            ap (λ heap. see heap (lookup id (add a now m).0.jobs)) (add-heap_room a now m fits room)
            ∙ (ap (see (update m.heap a j)) (found id) ∙ elim (Bool-cases (bytes_eq new_id id)) [
              | inl hit ↦ rw hit (ap some (update_at m.heap a j))
              | inr miss ↦ rw miss (
                  see-update m.heap a j (kept m.heap now (lookup id m.jobs))
                    (kept-unregistered a now m free id)
                  ∙ see-kept m.heap now (lookup id m.jobs))
            ]),
      )
]

-- `perform` is a call on the registry, of a job at an address where it adds one.
abbrev pub perform : Call → ℕ → JobManager → JobManager × Bool
unfolding add remove kill
perform (adds j now) a m = ((add a now m).0, succeeded (add a now m).1)
perform (removes id) a m = (remove id m, true)
perform (kills id) a m = kill id m

abbrev pub IsCallOf : Call → ℕ → JobManager → Type 0
IsCallOf (adds j now) a m = (m.heap a ≡ j) × (m.seq + 1 < 18446744073709551616) × IsUnregistered a m
IsCallOf (removes id) a m = Unit
IsCallOf (kills id) a m = Unit

-- The registry refines a table from identifiers to jobs. On a registry in order, whose counter does not
-- wrap and to which an added job is new: `Add` drops exactly the jobs that are expired, and then
-- registers the job under an identifier that was free or, if it fails, nothing; `Remove` drops exactly the
-- job of its identifier; `Kill` cancels exactly the job of its identifier, and fails exactly if there is
-- none or it is done.
pub perform-IsPromised :
    (c : Call) (a : ℕ) (m : JobManager)
    → IsRegistry m
    → IsCallOf c a m
    → IsPromised (table m) c (perform c a m).1 (table (perform c a m).0)
unfolding perform add remove kill
perform-IsPromised (adds j now) a m r (is, fits, free) =
    subst
      (λ k.
        IsPromised (table m) (adds k now) (perform (adds j now) a m).1
          (table (perform (adds j now) a m).0))
      is (add-IsPromised a now m r fits free)
perform-IsPromised (removes id) a m r h = remove-IsPromised id m true
perform-IsPromised (kills id) a m r h = kill-IsPromised id m r
