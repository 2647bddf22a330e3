-- ===== src/Examples/Pods.antt =====
-- sandbox: a pod that is set up for the first time, and the policy of seatbelt.
use temenos.Base.{
  ◌≡◌, refl, sym, ap, ◌∙◌, Bool, true, false, Option, none, some, List, [], ◌∷◌, ◌++◌, All, Bytes,
  codes, bytes_eq, bytes_eq_iff, cut_prefix, trim_suffix, trim_space, split_on, join, Bool-cases,
  inl, inr, arith, if◌then◌else◌,
}
use temenos.FilePath.{print, resolve, is_abs}
use temenos.FilePath.Clean.{NoSlash}
use temenos.FilePath.Shorter.{parts_of}
use temenos.FilePath.Absolute.{IsPlain, parts_of-IsPlain, parts_of-print}
use temenos.Sandbox.Config.{Host, absent}
use temenos.Daemon.Request.{ExecConfig}
use temenos.Sandbox.Cgroup.{Kernel, Package, Errno, other, cgroup_root, setup_cgroup_v2}
use temenos.Sandbox.Cgroup.Paths.{trim_suffix-slash}
use temenos.Sandbox.Cgroup.Setup.{IsCgroupFs, below, print-below}
use temenos.Sandbox.Cgroup.Ready.{setup_cgroup_v2-ready}
use temenos.Sandbox.Status.{current_status}
use temenos.Sandbox.Seatbelt.{
  Rule, allow_read_write, allow_metadata, allow_metadata_of, writable_root, metadata_root,
  darwin_user_cache_dir, Param, policy_rules,
}
use temenos.Sandbox.Seatbelt.Policy.{IsPolicyOf, policy_rules-IsPolicyOf}

-- The cgroup of the process 1, before and after it has moved.
abbrev home : Bool → List Bytes
home moved = if moved then codes "pod" ∷ codes "init" ∷ [] else codes "pod" ∷ []

abbrev leaf_procs : Bytes
leaf_procs = codes "/sys/fs/cgroup/pod/init/cgroup.procs"

abbrev write_pid : Bool → Bytes → Bool × Option Errno
unfolding bytes_eq
write_pid moved file = if bytes_eq file leaf_procs then (true, none) else (moved, some other)

unfoldable pub pod : Kernel
unfolding bytes_eq print
pod = record {
  State = Bool;
  is_there = λ moved path. true;
  scan = λ moved path. some (codes "0::" ++ print true (home moved));
  read = λ moved path.
      if bytes_eq path (codes "/proc/1/cgroup")
      then some (codes "0::" ++ print true (home moved) ++ codes "\n")
      else some (codes "cpu memory");
  is_writable = λ moved path. true;
  mkdir = λ moved dir. (moved, none);
  write =
      λ moved file text. if bytes_eq text (codes "1") then write_pid moved file else (moved, none);
  getenv = λ name. codes "10.0.0.1";
  pid = codes "1";
}

home-IsPlain : (moved : Bool) → All IsPlain (home moved)
unfolding parts_of is_abs resolve split_on
home-IsPlain true = parts_of-IsPlain (codes "/pod/init") refl
home-IsPlain false = parts_of-IsPlain (codes "/pod") refl

-- The components of the directory that a `cgroup.procs` is in.
abbrev directory : Bytes → List Bytes
unfolding cut_prefix trim_suffix parts_of
directory file = elim (cut_prefix (codes "/sys/fs/cgroup") file) [
  | none ↦ []
  | some path ↦ parts_of (trim_suffix (codes "/cgroup.procs") path)
]

parts_of-below : (d : List Bytes) → All IsPlain d → parts_of (below d) ≡ d
unfolding parts_of resolve split_on
parts_of-below [] h = refl
parts_of-below (p ∷ ps) h = ap parts_of (sym (print-below p ps)) ∙ parts_of-print (p ∷ ps) h

procs : NoSlash (codes "cgroup.procs")
unfolding parts_of is_abs resolve split_on
procs = (parts_of-IsPlain (codes "/cgroup.procs") refl).0.1

directory-below :
    (d : List Bytes)
    → All IsPlain d
    → directory (cgroup_root ++ below d ++ codes "/cgroup.procs") ≡ d
unfolding cgroup_root cut_prefix trim_suffix parts_of directory
directory-below d h =
    ap parts_of (trim_suffix-slash (codes "cgroup.procs") (below d) procs) ∙ parts_of-below d h

write_pid-home :
    (moved : Bool) (d : List Bytes)
    → All IsPlain d
    → (write_pid moved (cgroup_root ++ below d ++ codes "/cgroup.procs")).1 ≡ none
    → home ((write_pid moved (cgroup_root ++ below d ++ codes "/cgroup.procs")).0) ≡ d
unfolding bytes_eq cut_prefix trim_suffix parts_of directory resolve split_on
write_pid-home moved d h =
    let file : Bytes = cgroup_root ++ below d ++ codes "/cgroup.procs" in
    elim (Bool-cases (bytes_eq file leaf_procs)) [
      | inl same ↦
          rw same
            (λ k. ap directory (sym ((bytes_eq_iff file leaf_procs).0 same)) ∙ directory-below d h)
      | inr other_file ↦ rw other_file (λ k. ground arith)
    ]

home-solid :
    (moved : Bool)
    → trim_space (codes "0::" ++ print true (home moved) ++ codes "\n")
      ≡ codes "0::" ++ print true (home moved)
unfolding trim_space print join
home-solid true = refl
home-solid false = refl

pod-IsCgroupFs : IsCgroupFs pod
unfolding bytes_eq print pod cgroup_root write_pid
pod-IsCgroupFs = record {
  home = home;
  plain = home-IsPlain;
  self = λ s. refl;
  first = λ s. refl;
  solid = home-solid;
  move = write_pid-home;
  stay_write = λ s file. refl;
  delegated = λ s d q text h k read_ok. read_ok;
}

unfoldable pub fresh : Package pod.State
unfolding pod
fresh = record {
  machine = false;
  exec_cgroup_base = [];
  init_leaf = none;
  status = none;
  is_ready = false;
}

setup_cgroup_v2-ready_example :
    ((setup_cgroup_v2 pod fresh).0.is_ready ≡ true)
    × ((current_status pod ((setup_cgroup_v2 pod fresh).0.machine)).is_ready ≡ true)
unfolding setup_cgroup_v2 fresh
setup_cgroup_v2-ready_example = setup_cgroup_v2-ready pod pod-IsCgroupFs fresh refl refl refl

abbrev pub bare_mac : Host
bare_mac = record {
  getenv = λ name. [];
  user_home_dir = some (codes "/h/u");
  current_user_home = some (codes "/h/u");
  stat = λ path. absent;
  decode_toml = λ text. none;
}

-- A writable directory, and one that may only be looked at.
abbrev pub work : ExecConfig
work = record {
  env = [];
  working_dir = codes "/h/u/w";
  mount_dirs =
      record {
        source = codes "/h/u/w";
        target = codes "/h/u/w";
        read_only = false;
        metadata_only = false;
      }
      ∷ record {
        source = codes "/h/u";
        target = codes "/h/u";
        read_only = false;
        metadata_only = true;
      }
      ∷ [];
}

abbrev policy : List Rule × List Param
policy = (
  allow_read_write (writable_root 0)
      ∷ allow_metadata (metadata_root 0)
      ∷ allow_metadata_of (codes "/opt")
      ∷ [],
  (writable_root 0, codes "/h/u/w")
      ∷ (metadata_root 0, codes "/h/u")
      ∷ (darwin_user_cache_dir, codes "/h/u/Library/Caches")
      ∷ [],
)

policy_rules-IsPolicyOf_example : IsPolicyOf work policy
unfolding policy_rules
policy_rules-IsPolicyOf_example =
    policy_rules-IsPolicyOf bare_mac (some (codes "/h/u/Library/Caches")) work policy refl
