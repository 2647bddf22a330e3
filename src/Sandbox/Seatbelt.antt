-- ===== src/Sandbox/Seatbelt.antt =====
-- sandbox/policy.go: the policy of seatbelt and the parameters of sandbox-exec.
pub mod Keys
pub mod Params
pub mod Grants
pub mod Policy
use temenos.Base.{
  ℕ, zero, suc, ◌+◌, ◌/◌, ◌%◌, Bool, true, false, not, Option, none, some, List, [], ◌∷◌, ◌++◌, map,
  if◌then◌else◌, Bytes, codes, bytes_eq, elem, ltb, Result, ok, err,
}
use temenos.Sandbox.Config.{Host}
use temenos.Sandbox.Mounts.{Mount}
use temenos.Sandbox.ToolPaths.{ToolDir, all_tool_dirs, seatbelt_metadata_dirs}
use temenos.Daemon.Request.{ExecConfig}

-- The keys of the parameters, with the index that `%d` prints.
pub data Key : Type 0 where
  metadata_root readable_root writable_root : ℕ → Key
  darwin_user_cache_dir : Key

-- The rules that the code writes behind the embedded templates.
pub data Rule : Type 0 where
  allow_metadata allow_read allow_read_write : Key → Rule
  allow_metadata_of allow_map_executable : Bytes → Rule

pub data PolicyError : Type 0 where
  cannot_remap : Bytes → Bytes → PolicyError
  no_user_cache_dir : PolicyError

abbrev pub Param : Type 0
Param = Key × Bytes

-- The rules, the parameters and the next index of READABLE_ROOT.
abbrev pub Rules : Type 0
Rules = List Rule × List Param × ℕ

abbrev pub with_rule : Rule → Key → Bytes → Result PolicyError Rules → Result PolicyError Rules
with_rule rule key path (err e) = err e
with_rule rule key path (ok (rules, params, next)) = ok (rule ∷ rules, (key, path) ∷ params, next)

-- The loop of `buildPolicy` over the mounts, from the indices `readableIdx`, `writableIdx` and
-- `metadataIdx` on: what it appends.
unfoldable pub mount_rules : ℕ → ℕ → ℕ → List Mount → Result PolicyError Rules
unfolding bytes_eq
mount_rules r w m [] = ok ([], [], r)
mount_rules r w m (d ∷ ds) =
    let after_metadata = mount_rules r w (suc m) ds in
    let after_readable = mount_rules (suc r) w m ds in
    let after_writable = mount_rules r (suc w) m ds in
    if d.metadata_only
    then with_rule (allow_metadata (metadata_root m)) (metadata_root m) d.source after_metadata
    else if not (bytes_eq d.source d.target)
    then err (cannot_remap d.source d.target)
    else if d.read_only
    then with_rule (allow_read (readable_root r)) (readable_root r) d.source after_readable
    else with_rule (allow_read_write (writable_root w)) (writable_root w) d.source after_writable

-- The rules and the parameters that a loop has appended, the next index, and the set `seen`.
pub record ToolRules : Type 0 where
  pub rules : List Rule
  pub params : List Param
  pub next : ℕ
  pub seen : List Bytes

abbrev pub read_rule : Bytes → ToolRules → ToolRules
read_rule rd s = record s {
  rules = s.rules ++ allow_read (readable_root s.next) ∷ [];
  params = s.params ++ (readable_root s.next, rd) ∷ [];
  next = suc s.next;
  seen = s.seen ++ rd ∷ [];
}

abbrev pub exec_rule : Bytes → ToolRules → ToolRules
exec_rule ed s = record s {
  rules = s.rules ++ allow_map_executable ed ∷ [];
  seen = s.seen ++ (codes "exec:" ++ ed) ∷ [];
}

unfoldable pub read_dir_rules : List Bytes → ToolRules → ToolRules
unfolding elem
read_dir_rules [] s = s
read_dir_rules (rd ∷ rds) s = read_dir_rules rds (if elem rd s.seen then s else read_rule rd s)

unfoldable pub exec_dir_rules : List Bytes → ToolRules → ToolRules
unfolding elem
exec_dir_rules [] s = s
exec_dir_rules (ed ∷ eds) s =
    exec_dir_rules eds (if elem (codes "exec:" ++ ed) s.seen then s else exec_rule ed s)

-- `appendToolDirRules`
unfoldable pub append_tool_dir_rules : List ToolDir → ToolRules → ToolRules
unfolding read_dir_rules exec_dir_rules
append_tool_dir_rules [] s = s
append_tool_dir_rules (td ∷ tds) s =
    append_tool_dir_rules tds (exec_dir_rules td.exec_dirs (read_dir_rules td.read_dirs s))

-- `buildPolicy` before it is written as text, on macOS. The cache directory is what
-- `os.UserCacheDir` returns.
unfoldable pub policy_rules :
    Host → Option Bytes → ExecConfig → Result PolicyError (List Rule × List Param)
unfolding mount_rules append_tool_dir_rules seatbelt_metadata_dirs all_tool_dirs
policy_rules host cache_dir cfg = elim (mount_rules 0 0 0 cfg.mount_dirs) [
  | err e ↦ err e
  | ok (rules, params, next) ↦
      let tools =
        append_tool_dir_rules (all_tool_dirs host true)
          (record { rules = rules; params = params; next = next; seen = [] }) in
      elim cache_dir [
        | none ↦ err no_user_cache_dir
        | some dir ↦ ok (
          tools.rules ++ map allow_metadata_of (seatbelt_metadata_dirs true),
          tools.params ++ (darwin_user_cache_dir, dir) ∷ [],
        )
      ]
]

-- `%d`, with as much fuel as the number has digits at least.
unfoldable pub decimal_from : ℕ → ℕ → Bytes → Bytes
decimal_from zero n after = after
decimal_from (suc fuel) n after =
    let more = decimal_from fuel (n / 10) ((48 + n % 10) ∷ after) in
    if ltb n 10 then (48 + n) ∷ after else more

unfoldable pub key_text : Key → Bytes
unfolding decimal_from
key_text (metadata_root n) = codes "METADATA_ROOT_" ++ decimal_from (suc n) n []
key_text (readable_root n) = codes "READABLE_ROOT_" ++ decimal_from (suc n) n []
key_text (writable_root n) = codes "WRITABLE_ROOT_" ++ decimal_from (suc n) n []
key_text darwin_user_cache_dir = codes "DARWIN_USER_CACHE_DIR"

-- `quote` is the verb `%q`.
unfoldable pub rule_text : (Bytes → Bytes) → Rule → Bytes
unfolding key_text
rule_text quote (allow_metadata k) =
    codes "\n(allow file-read-metadata (literal (param " ++ (quote (key_text k) ++ codes ")))")
rule_text quote (allow_read k) =
    codes "\n(allow file-read* (subpath (param " ++ (quote (key_text k) ++ codes ")))")
rule_text quote (allow_read_write k) =
    codes "\n(allow file-read* file-write* (subpath (param " ++ (quote (key_text k) ++ codes ")))")
rule_text quote (allow_metadata_of d) =
    codes "\n(allow file-read-metadata (literal " ++ (quote d ++ codes "))")
rule_text quote (allow_map_executable d) =
    codes "\n(allow file-map-executable (subpath " ++ (quote d ++ codes "))")

abbrev rules_text : (Bytes → Bytes) → List Rule → Bytes
unfolding rule_text
rules_text quote [] = []
rules_text quote (r ∷ rs) = rule_text quote r ++ rules_text quote rs

abbrev pub params_text : List Param → List Bytes
unfolding key_text
params_text [] = []
params_text ((k, path) ∷ ps) = codes "-D" ∷ (key_text k ++ codes "=" ++ path) ∷ params_text ps

-- `buildPolicy`; `templates` is the text of the embedded files, with the line breaks between them.
unfoldable pub build_policy :
    (Bytes → Bytes)
    → Bytes
    → Host
    → Option Bytes
    → ExecConfig
    → Result PolicyError (Bytes × List Bytes)
unfolding policy_rules rule_text
build_policy quote templates host cache_dir cfg = elim (policy_rules host cache_dir cfg) [
  | err e ↦ err e
  | ok (rules, params) ↦ ok (templates ++ rules_text quote rules, params_text params)
]
