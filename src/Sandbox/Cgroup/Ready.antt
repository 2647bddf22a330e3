-- ===== src/Sandbox/Cgroup/Ready.antt =====
-- sandbox/cgroup_k8s.go and sandbox/status.go together: the diagnosis after a set-up that succeeds.
use mathlib.Core.Path.{subst}
use temenos.Base.{
  ◌≡◌, refl, sym, ap, ◌∙◌, Bool, true, Option, none, some, List, [], ◌∷◌, ◌++◌, Bytes, codes,
  contains, cut_prefix, All, All-append_left, arith, Bool-cases, Option-cases, inl, inr, ok,
}
use temenos.FilePath.{slash, print, join_path}
use temenos.FilePath.Absolute.{IsPlain}
use temenos.Sandbox.Cgroup.{
  Kernel, Package, SetupError, Unavailable, cgroup_root, self_cgroup_file, has_controller,
  check_cgroup_available_with, run_init_leaf_at, setup_init_leaf, cgroup_v2_reason, in_k8s_pod,
  after_init_leaf, confirmed, setup_cgroup_v2,
}
use temenos.Sandbox.Cgroup.Paths.{trim_suffix-slash, has_suffix-append}
use temenos.Sandbox.Cgroup.Setup.{
  IsCgroupFs, below, init, print-below, below-append, join_path-below, discover-home, settled,
  init-IsPlain, controllers-IsPlain,
}
use temenos.Sandbox.Status.{
  proc1_path, init_leaf_check, memory_check, check_k8s_pod, check_cgroup_v2_mounted,
  check_init_leaf, subtree_control_of, delegation_check, check_memory_delegated, new_status, all_ok,
  current_status,
}

print-append_below : (d : List Bytes) (q : Bytes) → print true (d ++ q ∷ []) ≡ below d ++ slash ∷ q
print-append_below [] q = print-below q [] ∙ below-append [] q
print-append_below (p ∷ d) q = print-below p (d ++ q ∷ []) ∙ below-append (p ∷ d) q

module _ (K : Kernel) (fs : IsCgroupFs K) (t : K.State) (d : List Bytes) where
  path_of :
      fs.home t ≡ d ++ init ∷ []
      → proc1_path (K.read t (codes "/proc/1/cgroup")) ≡ ok (below d ++ slash ∷ init)
  unfolding proc1_path cut_prefix
  path_of h =
      rw (fs.first t, proc1_path, fs.solid t)
        (ap ok (ap (print true) h ∙ print-append_below d init))

  init_leaf-ok :
      fs.home t ≡ d ++ init ∷ []
      → (check_k8s_pod K t).is_ok ≡ true
      → (check_init_leaf K t).is_ok ≡ true
  unfolding check_init_leaf init_leaf_check
  init_leaf-ok h k = rw (k, path_of h, has_suffix-append (below d) (slash ∷ init)) refl

  memory-ok :
      (text : Bytes)
      → fs.home t ≡ d ++ init ∷ []
      → (check_k8s_pod K t).is_ok ≡ true
      → K.read t (join_path ((cgroup_root ++ below (fs.home t)) ∷ codes "cgroup.controllers" ∷ []))
        ≡ some text
      → contains (codes "memory") text ≡ true
      → (check_memory_delegated K t).is_ok ≡ true
  unfolding check_memory_delegated delegation_check memory_check subtree_control_of
  memory-ok text h k read_ok has =
      let at : K.read t (cgroup_root ++ below (d ++ init ∷ []) ++ codes "/cgroup.controllers")
          ≡ some text =
        ap (λ ps. K.read t (cgroup_root ++ below ps ++ codes "/cgroup.controllers")) (sym h)
        ∙ (sym (
              ap (K.read t) (
                join_path-below (fs.home t) (codes "cgroup.controllers") (fs.plain t)
                  controllers-IsPlain))
            ∙ read_ok) in
      let parent : K.read t (cgroup_root ++ below d ++ codes "/cgroup.subtree_control")
          ≡ some text =
        fs.delegated t d init text
          (All-append_left IsPlain d (init ∷ []) (subst (All IsPlain) h (fs.plain t))) init-IsPlain
          at in
      rw
        (
          k,
          path_of h,
          delegation_check,
          subtree_control_of,
          trim_suffix-slash (codes "init") (below d) init-IsPlain.1,
          parent,
          has,
        )
        refl

  -- The conditions that `checkCgroupAvailable` leaves.
  available-memory :
      check_cgroup_available_with K t cgroup_root self_cgroup_file ≡ none
      → (K.is_there t (codes "/sys/fs/cgroup/cgroup.controllers") ≡ true)
        × (has_controller K t (cgroup_root ++ below (fs.home t)) (codes "memory") ≡ true)
  unfolding check_cgroup_available_with cgroup_root join_path
  available-memory =
      let mounted : Bool = K.is_there t (codes "/sys/fs/cgroup/cgroup.controllers") in
      let has : Bool = has_controller K t (cgroup_root ++ below (fs.home t)) (codes "memory") in
      elim (Bool-cases mounted) [
        | inr m ↦ rw (check_cgroup_available_with, m) (λ h. ground arith)
        | inl m ↦
            rw (check_cgroup_available_with, m, discover-home K fs t)
              (elim (Bool-cases has) [
                | inr n ↦ rw n (λ h. ground arith)
                | inl n ↦ rw n (λ h. (refl, refl))
              ])
      ]

  has_controller-text :
      (path : Bytes)
      → has_controller K t path (codes "memory") ≡ true
      → (text : Bytes) × (K.read t (join_path (path ∷ codes "cgroup.controllers" ∷ [])) ≡ some text)
        × (contains (codes "memory") text ≡ true)
  unfolding has_controller
  has_controller-text path =
      elim (Option-cases (K.read t (join_path (path ∷ codes "cgroup.controllers" ∷ [])))) [
        | inl gone ↦ rw (has_controller, gone) (λ h. ground arith)
        | inr (text, found) ↦ rw (has_controller, found) (λ h. (text, refl, h))
      ]

  in_k8s_pod-stays :
      (s : K.State)
      → in_k8s_pod K s ≡ true
      → K.is_there t (codes "/sys/fs/cgroup/cgroup.controllers") ≡ true
      → in_k8s_pod K t ≡ true
  unfolding in_k8s_pod cgroup_root join_path
  in_k8s_pod-stays s h there = ground (arith, h, there)

  status-ready :
      fs.home t ≡ d ++ init ∷ []
      → in_k8s_pod K t ≡ true
      → check_cgroup_available_with K t cgroup_root self_cgroup_file ≡ none
      → (current_status K t).is_ready ≡ true
  unfolding current_status new_status all_ok check_k8s_pod check_cgroup_v2_mounted
  status-ready h pod available =
      let k : (check_k8s_pod K t).is_ok ≡ true = rw pod refl in
      let (there, has) = available-memory available in
      let (text, found, memory) = has_controller-text (cgroup_root ++ below (fs.home t)) has in
      let mounted : (check_cgroup_v2_mounted K t).is_ok ≡ true = rw there refl in
      rw (memory-ok text h k found memory, init_leaf-ok h k, mounted, k) refl

module _ (K : Kernel) where
  pub confirmed-none :
      (m : Package K.State × Option Unavailable)
      → (confirmed K m).1 ≡ none
      → (m.1 ≡ none)
        × ((confirmed K m).0.machine ≡ m.0.machine)
        × ((confirmed K m).0.is_ready ≡ true)
        × ((confirmed K m).0.status ≡ m.0.status)
  confirmed-none (p, none) h = (refl, refl, refl, refl)
  confirmed-none (p, some reason) h = ground arith

  pub after_init_leaf-none :
      (m : Package K.State × Option SetupError)
      → (after_init_leaf K m).1 ≡ none
      → (m.1 ≡ none) × (after_init_leaf K m ≡ confirmed K (cgroup_v2_reason K m.0))
  unfolding after_init_leaf cgroup_v2_reason
  after_init_leaf-none (p, none) h = (refl, refl)
  after_init_leaf-none (p, some e) h = ground arith

  setup_init_leaf-first :
      (p : Package K.State)
      → p.init_leaf ≡ none
      → let run = run_init_leaf_at K cgroup_root self_cgroup_file p.machine in
        ((setup_init_leaf K p).1 ≡ run.1)
        × ((setup_init_leaf K p).0.machine ≡ run.0)
        × ((setup_init_leaf K p).0.status ≡ p.status)
  unfolding setup_init_leaf
  setup_init_leaf-first p h = rw h (refl, refl, refl)

  cgroup_v2_reason-first :
      (p : Package K.State)
      → p.status ≡ none
      → ((cgroup_v2_reason K p).1
          ≡ check_cgroup_available_with K p.machine cgroup_root self_cgroup_file)
        × ((cgroup_v2_reason K p).0.machine ≡ p.machine)
  unfolding cgroup_v2_reason
  cgroup_v2_reason-first p h = rw h (refl, refl)

-- On a machine with the cgroup v2 file system, when `SetupCgroupV2` is called for the first time and
-- returns no error, executions may make their cgroups and every check of the diagnosis that follows
-- is passed: it reports ready.
pub setup_cgroup_v2-ready :
    (K : Kernel) (fs : IsCgroupFs K) (p : Package K.State)
    → p.init_leaf ≡ none
    → p.status ≡ none
    → (setup_cgroup_v2 K p).1 ≡ none
    → ((setup_cgroup_v2 K p).0.is_ready ≡ true)
      × ((current_status K ((setup_cgroup_v2 K p).0.machine)).is_ready ≡ true)
unfolding setup_cgroup_v2
setup_cgroup_v2-ready K fs p no_leaf no_status = elim (Bool-cases (in_k8s_pod K p.machine)) [
  | inr outside ↦ rw (setup_cgroup_v2, outside) (λ h. ground arith)
  | inl pod ↦
      rw (setup_cgroup_v2, pod)
        (λ h.
          let leaf = setup_init_leaf K p in
          let (leaf_none, is) = after_init_leaf-none K leaf h in
          let (run_error, run_state, same_status) = setup_init_leaf-first K p no_leaf in
          let (reason, same) = cgroup_v2_reason-first K leaf.0 (same_status ∙ no_status) in
          let (available, machine, ready, kept) =
            confirmed-none K (cgroup_v2_reason K leaf.0) (sym (ap (λ m. m.1) is) ∙ h) in
          let (d, at) = settled K fs p.machine (sym run_error ∙ leaf_none) in
          let t : K.State = leaf.0.machine in
          let checked : check_cgroup_available_with K t cgroup_root self_cgroup_file ≡ none =
            sym reason ∙ available in
          let (there, memory) = available-memory K fs t d checked in
          let final : (after_init_leaf K leaf).0.machine ≡ t =
            ap (λ m. m.0.machine) is ∙ (machine ∙ same) in
          (
            ap (λ m. m.0.is_ready) is ∙ ready,
            ap (λ u. (current_status K u).is_ready) final
                ∙ status-ready K fs t d (ap fs.home run_state ∙ at)
                    (in_k8s_pod-stays K fs t d p.machine pod there) checked,
          ))
]
