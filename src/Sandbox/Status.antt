-- ===== src/Sandbox/Status.antt =====
-- sandbox/status.go, sandbox/cgroup_stub.go, internal/cli/doctor.go: the diagnosis of the sandbox. The
-- marks and the arrow in its text stand for their bytes in UTF-8, and the texts of system errors are
-- left out.
use temenos.Base.{
  ◌≡◌, refl, Bool, true, false, not, ◌||◌, Option, none, some, List, [], ◌∷◌, ◌++◌, if◌then◌else◌,
  Bytes, codes, bytes_eq, is_empty, cut_prefix, has_suffix, trim_suffix, contains, trim_space,
  Result, ok, err,
}
use temenos.Sandbox.Cgroup.{Kernel, cgroup_root, in_k8s_pod}

pub record Check : Type 0 where
  pub name : Bytes
  pub is_ok : Bool
  pub detail : Bytes
  pub remediation : Bytes

pub record Status : Type 0 where
  pub is_ready : Bool
  pub checks : List Check

-- The loop that computes `Ready`.
unfoldable pub all_ok : Bool → List Check → Bool
all_ok ready [] = ready
all_ok ready (c ∷ cs) = all_ok (if not c.is_ok then false else ready) cs

-- `NewStatus`
unfoldable pub new_status : List Check → Status
unfolding all_ok
new_status checks = record { is_ready = all_ok true checks; checks = checks }

abbrev passed : Bytes → Bytes → Check
passed name detail = record { name = name; is_ok = true; detail = detail; remediation = [] }

abbrev failed : Bytes → Bytes → Bytes → Check
failed name detail remediation = record {
  name = name;
  is_ok = false;
  detail = detail;
  remediation = remediation;
}

abbrev init_leaf_remediation : Bytes
init_leaf_remediation =
    codes "init-leaf migration requires a cgroup v2 environment; check daemon startup logs"

abbrev memory_del_remediation : Bytes
memory_del_remediation =
    codes
      "memory controller not delegated to pod cgroup; set runtimeClassName: cgroup-writable on the pod (or equivalent containerd cgroup_writable config)"

abbrev not_in_pod_detail : Bytes
not_in_pod_detail = codes "not running in a Kubernetes pod (KUBERNETES_SERVICE_HOST not set)"

-- `readProc1CgroupPath` from the file's content on; the error is its text, without the text of the
-- system's error.
unfoldable pub proc1_path : Option Bytes → Result Bytes Bytes
unfolding trim_space cut_prefix
proc1_path none = err (codes "cannot read /proc/1/cgroup")
proc1_path (some text) = elim (cut_prefix (codes "0::") (trim_space text)) [
  | none ↦ err (codes "unexpected /proc/1/cgroup format: " ++ trim_space text)
  | some path ↦ ok path
]

unfoldable pub init_leaf_check : Result Bytes Bytes → Check
unfolding has_suffix bytes_eq
init_leaf_check (err text) = failed (codes "init_leaf") text init_leaf_remediation
init_leaf_check (ok path) =
    if has_suffix (codes "/init") path || bytes_eq path (codes "/init")
    then passed (codes "init_leaf") (codes "PID 1 cgroup: " ++ path)
    else failed (codes "init_leaf")
        (codes "PID 1 cgroup: " ++ (path ++ codes " (does not end in /init)")) init_leaf_remediation

unfoldable pub memory_check : Bytes → Option Bytes → Check
unfolding contains
memory_check file none =
    failed (codes "memory_delegated") (codes "cannot read " ++ file) memory_del_remediation
memory_check file (some text) =
    if contains (codes "memory") text
    then passed (codes "memory_delegated") (codes "memory in cgroup.subtree_control at " ++ file)
    else failed (codes "memory_delegated")
        (codes "memory not in cgroup.subtree_control at " ++ file) memory_del_remediation

module _ (kernel : Kernel) where
  unfoldable pub check_k8s_pod : kernel.State → Check
  unfolding in_k8s_pod
  check_k8s_pod s =
      if in_k8s_pod kernel s
      then passed (codes "k8s_pod") (codes "KUBERNETES_SERVICE_HOST set")
      else failed (codes "k8s_pod") []
          (codes "temenos requires running inside a Kubernetes pod with cgroup v2")

  unfoldable pub check_cgroup_v2_mounted : kernel.State → Check
  unfolding cgroup_root
  check_cgroup_v2_mounted s =
      if kernel.is_there s (codes "/sys/fs/cgroup/cgroup.controllers")
      then passed (codes "cgroup_v2") cgroup_root
      else failed (codes "cgroup_v2") [] (
          codes "mount cgroup v2 (systemd.unified_cgroup_hierarchy=1 or kernel cmdline equivalent)")

  unfoldable pub check_init_leaf : kernel.State → Check
  unfolding check_k8s_pod proc1_path init_leaf_check
  check_init_leaf s =
      if not (check_k8s_pod s).is_ok
      then failed (codes "init_leaf") not_in_pod_detail init_leaf_remediation
      else init_leaf_check (proc1_path (kernel.read s (codes "/proc/1/cgroup")))

  unfoldable pub subtree_control_of : Bytes → Bytes
  unfolding cgroup_root trim_suffix
  subtree_control_of path =
      cgroup_root ++ (trim_suffix (codes "/init") path ++ codes "/cgroup.subtree_control")

  unfoldable pub delegation_check : kernel.State → Result Bytes Bytes → Check
  unfolding memory_check subtree_control_of
  delegation_check s (err text) = failed (codes "memory_delegated") text memory_del_remediation
  delegation_check s (ok path) =
      memory_check (subtree_control_of path) (kernel.read s (subtree_control_of path))

  unfoldable pub check_memory_delegated : kernel.State → Check
  unfolding check_k8s_pod proc1_path delegation_check
  check_memory_delegated s =
      if not (check_k8s_pod s).is_ok
      then failed (codes "memory_delegated") not_in_pod_detail memory_del_remediation
      else delegation_check s (proc1_path (kernel.read s (codes "/proc/1/cgroup")))

  -- `CurrentStatus`, which repeats the loop of `NewStatus`.
  unfoldable pub current_status : kernel.State → Status
  unfolding check_k8s_pod check_cgroup_v2_mounted check_init_leaf check_memory_delegated new_status
  current_status s = new_status (
      check_k8s_pod s
      ∷ check_cgroup_v2_mounted s
      ∷ check_init_leaf s
      ∷ check_memory_delegated s
      ∷ [])

unfoldable pub check_lines : List Check → Bytes
check_lines [] = []
check_lines (c ∷ cs) =
    let rest = check_lines cs in
    if c.is_ok
    then codes "✓ " ++ (c.name ++ (codes ": " ++ (c.detail ++ (codes "\n" ++ rest))))
    else codes "✗ "
      ++ (c.name
          ++ (codes ": "
              ++ (c.detail
                  ++ (codes "\n"
                      ++ (if not (is_empty c.remediation)
                          then codes "  → " ++ (c.remediation ++ (codes "\n" ++ rest))
                          else rest)))))

-- `String`
unfoldable pub status_string : Status → Bytes
unfolding check_lines
status_string s =
    check_lines s.checks ++ (if s.is_ready then codes "ready: yes" else codes "ready: no")

-- `CurrentStatus`, `String`, `cgroupAvailable` and `inK8sPod` of cgroup_stub.go, which stand on other
-- systems than Linux.
unfoldable pub stub_status : Status
stub_status = record {
  is_ready = false;
  checks =
      record {
        name = codes "platform";
        is_ok = false;
        detail = codes "non-Linux";
        remediation = codes "temenos cgroup v2 sandbox requires Linux";
      }
      ∷ [];
}

unfoldable pub stub_string : Status → Bytes
stub_string s = codes "temenos doctor: not available on this platform"

-- `CurrentStatus` and `String` of the system.
unfoldable pub platform_status : Bool → (kernel : Kernel) → kernel.State → Status
unfolding current_status stub_status
platform_status linux kernel s = if linux then current_status kernel s else stub_status

unfoldable pub platform_string : Bool → Status → Bytes
unfolding status_string stub_string
platform_string linux s = if linux then status_string s else stub_string s

-- The `doctor` command: what it writes, and whether it fails. `encode` is the JSON encoder.
unfoldable pub doctor : Bool → (Status → Bytes) → Bool → Status → Bytes × Bool
unfolding platform_string
doctor linux encode as_json s =
    (if as_json then encode s else platform_string linux s ++ codes "\n", not s.is_ready)

-- Off Linux the doctor always fails.
doctor-stub_status :
    (encode : Status → Bytes) (as_json : Bool) (kernel : Kernel) (s : kernel.State)
    → (doctor false encode as_json (platform_status false kernel s)).1 ≡ true
unfolding doctor platform_status stub_status
doctor-stub_status encode as_json kernel s = refl
