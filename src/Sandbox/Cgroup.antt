-- ===== src/Sandbox/Cgroup.antt =====
-- sandbox/cgroup.go, sandbox/cgroup_k8s.go, sandbox/cgroup_bwrap.go: the set-up of cgroup v2, and the
-- cgroup of one execution.
pub mod Paths
pub mod Setup
pub mod Ready
use temenos.Base.{
  ℕ, zero, suc, Bool, true, false, not, ◌&&◌, ◌||◌, Option, none, some, List, [], ◌∷◌, ◌++◌,
  if◌then◌else◌, Bytes, codes, bytes_eq, is_empty, has_prefix, cut_prefix, has_suffix, trim_suffix,
  contains, Result, ok, err,
}
use temenos.FilePath.{join_path}

pub data Errno : Type 0 where
  already_exists busy other : Errno

-- The system calls, over an unknown state of the machine. `scan` gives the first line of a file as
-- `bufio.Scanner` reads it, `read` a whole file, `is_writable` is access(2), and `pid` the number of
-- this process as a text.
pub record Kernel : Type 1 where
  pub State : Type 0
  pub is_there : State → Bytes → Bool
  pub scan : State → Bytes → Option Bytes
  pub read : State → Bytes → Option Bytes
  pub is_writable : State → Bytes → Bool
  pub mkdir : State → Bytes → State × Option Errno
  pub write : State → Bytes → Bytes → State × Option Errno
  pub getenv : Bytes → Bytes
  pub pid : Bytes

-- The sentinel errors, the reasons why cgroups cannot be used.
pub data Unavailable : Type 0 where
  cgroup_not_mounted no_delegated_path memory_controller_off not_writable : Unavailable

pub data SetupError : Type 0 where
  not_in_pod not_mounted cannot_discover busy_after_retry : SetupError
  mkdir_failed migrate_failed enable_failed : Errno → SetupError
  unavailable : Unavailable → SetupError

unfoldable pub cgroup_root : Bytes
cgroup_root = codes "/sys/fs/cgroup"

abbrev pub self_cgroup_file : Bytes
self_cgroup_file = codes "/proc/self/cgroup"

-- From the line on.
unfoldable pub delegated_path : Bytes → Option Bytes → Option Bytes
unfolding cut_prefix join_path
delegated_path root none = none
delegated_path root (some line) = elim (cut_prefix (codes "0::") line) [
  | none ↦ none
  | some path ↦ if is_empty path then none else some (join_path (root ∷ path ∷ []))
]

-- The package's variables, with those that a `sync.Once` guards: `none` before it has run.
pub record Package (S : Type 0) : Type 0 where
  pub machine : S
  pub exec_cgroup_base : Bytes
  pub init_leaf : Option (Option SetupError)
  pub status : Option (Option Unavailable)
  pub is_ready : Bool

module _ (kernel : Kernel) where
  unfoldable pub discover_delegated_path_at : kernel.State → Bytes → Bytes → Option Bytes
  unfolding delegated_path
  discover_delegated_path_at s proc_file root = delegated_path root (kernel.scan s proc_file)

  unfoldable pub has_controller : kernel.State → Bytes → Bytes → Bool
  unfolding join_path contains
  has_controller s path controller =
      elim (kernel.read s (join_path (path ∷ codes "cgroup.controllers" ∷ []))) [
        | none ↦ false
        | some text ↦ contains controller text
      ]

  -- `checkCgroupAvailableWith`: what is in the way, if anything is.
  unfoldable pub check_cgroup_available_with : kernel.State → Bytes → Bytes → Option Unavailable
  unfolding join_path discover_delegated_path_at has_controller
  check_cgroup_available_with s root proc_file =
      if not (kernel.is_there s (join_path (root ∷ codes "cgroup.controllers" ∷ [])))
      then some cgroup_not_mounted
      else elim (discover_delegated_path_at s proc_file root) [
        | none ↦ some no_delegated_path
        | some delegated ↦
            if not (has_controller s delegated (codes "memory"))
            then some memory_controller_off
            else if not (kernel.is_writable s delegated)
            then some not_writable
            else none
      ]

  -- `enableMemoryController`, as many attempts as the number says.
  unfoldable pub enable_attempts : ℕ → Bytes → kernel.State → kernel.State × Option SetupError
  enable_attempts zero file s = (s, some busy_after_retry)
  enable_attempts (suc n) file s =
      let (s', failed) = kernel.write s file (codes "+memory") in
      elim failed [
        | none ↦ (s', none)
        | some busy ↦ enable_attempts n file s'
        | some already_exists ↦ (s', some (enable_failed already_exists))
        | some other ↦ (s', some (enable_failed other))
      ]

  unfoldable pub enable_memory_controller : Bytes → kernel.State → kernel.State × Option SetupError
  unfolding join_path enable_attempts
  enable_memory_controller path s =
      enable_attempts 2 (join_path (path ∷ codes "cgroup.subtree_control" ∷ [])) s

  -- `os.Mkdir` that is content with a directory that is there.
  unfoldable pub made_dir : Bytes → kernel.State → kernel.State × Option SetupError
  made_dir d s =
      let (s', failed) = kernel.mkdir s d in
      elim failed [
        | none ↦ (s', none)
        | some already_exists ↦ (s', none)
        | some busy ↦ (s', some (mkdir_failed busy))
        | some other ↦ (s', some (mkdir_failed other))
      ]

  -- The error of a write of the process number, wrapped.
  abbrev pub wrote_pid : kernel.State × Option Errno → kernel.State × Option SetupError
  wrote_pid (s, none) = (s, none)
  wrote_pid (s, some e) = (s, some (migrate_failed e))

  unfoldable pub migrated : Bytes → kernel.State → kernel.State × Option SetupError
  unfolding join_path
  migrated init_dir s =
      wrote_pid (kernel.write s (join_path (init_dir ∷ codes "cgroup.procs" ∷ [])) kernel.pid)

  -- A step, if the one in front of it has not failed.
  abbrev pub and_then :
      kernel.State × Option SetupError
      → (kernel.State → kernel.State × Option SetupError)
      → kernel.State × Option SetupError
  and_then (s, some e) f = (s, some e)
  and_then (s, none) f = f s

  -- The migration of `runInitLeafAt`: the directory, this process, the controller.
  unfoldable pub migrate : Bytes → kernel.State → kernel.State × Option SetupError
  unfolding join_path made_dir migrated enable_memory_controller
  migrate self_cgroup s =
      let init_dir = join_path (self_cgroup ∷ codes "init" ∷ []) in
      and_then (and_then (made_dir init_dir s) (migrated init_dir))
        (enable_memory_controller self_cgroup)

  -- The state, the error, and `execCgroupBase` where it is set.
  abbrev pub with_base :
      Bytes → kernel.State × Option SetupError → kernel.State × Option SetupError × Option Bytes
  with_base base (s, none) = (s, none, some base)
  with_base base (s, some e) = (s, some e, none)

  unfoldable pub run_init_leaf_at :
      Bytes → Bytes → kernel.State → kernel.State × Option SetupError × Option Bytes
  unfolding join_path discover_delegated_path_at has_suffix trim_suffix bytes_eq migrate
  run_init_leaf_at root proc_file s =
      if not (kernel.is_there s (join_path (root ∷ codes "cgroup.controllers" ∷ [])))
      then (s, some not_mounted, none)
      else elim (discover_delegated_path_at s proc_file root) [
        | none ↦ (s, some cannot_discover, none)
        | some self_cgroup ↦
            if has_suffix (codes "/init") self_cgroup
              || bytes_eq self_cgroup (root ++ codes "/init")
            then (s, none, some (trim_suffix (codes "/init") self_cgroup))
            else with_base self_cgroup (migrate self_cgroup s)
      ]

  abbrev pub new_base : Option Bytes → Bytes → Bytes
  new_base none old = old
  new_base (some base) old = base

  -- `setupInitLeaf`
  unfoldable pub setup_init_leaf : Package kernel.State → Package kernel.State × Option SetupError
  unfolding run_init_leaf_at cgroup_root
  setup_init_leaf p = elim p.init_leaf [
    | some result ↦ (p, result)
    | none ↦
        let (s, failed, base) = run_init_leaf_at cgroup_root self_cgroup_file p.machine in
        (
          record p {
            machine = s;
            exec_cgroup_base = new_base base p.exec_cgroup_base;
            init_leaf = some failed;
          },
          failed,
        )
  ]

  -- `cgroupV2Reason`, which `cgroupAvailable` negates.
  unfoldable pub cgroup_v2_reason : Package kernel.State → Package kernel.State × Option Unavailable
  unfolding check_cgroup_available_with cgroup_root
  cgroup_v2_reason p = elim p.status [
    | some result ↦ (p, result)
    | none ↦
        let result = check_cgroup_available_with p.machine cgroup_root self_cgroup_file in
        (record p { status = some result }, result)
  ]

  unfoldable pub in_k8s_pod : kernel.State → Bool
  unfolding join_path cgroup_root
  in_k8s_pod s =
      if not (kernel.is_there s (join_path (cgroup_root ∷ codes "cgroup.controllers" ∷ [])))
      then false
      else not (is_empty (kernel.getenv (codes "KUBERNETES_SERVICE_HOST")))

  abbrev pub confirmed :
      Package kernel.State × Option Unavailable → Package kernel.State × Option SetupError
  confirmed (p, some reason) = (p, some (unavailable reason))
  confirmed (p, none) = (record p { is_ready = true }, none)

  abbrev pub after_init_leaf :
      Package kernel.State × Option SetupError → Package kernel.State × Option SetupError
  unfolding cgroup_v2_reason
  after_init_leaf (p, some e) = (p, some e)
  after_init_leaf (p, none) = confirmed (cgroup_v2_reason p)

  -- `SetupCgroupV2`
  unfoldable pub setup_cgroup_v2 : Package kernel.State → Package kernel.State × Option SetupError
  unfolding in_k8s_pod setup_init_leaf after_init_leaf cgroup_v2_reason
  setup_cgroup_v2 p =
      if not (in_k8s_pod p.machine)
      then (p, some not_in_pod)
      else after_init_leaf (setup_init_leaf p)
