-- ===== src/Sandbox/Seatbelt/Policy.antt =====
-- sandbox/policy.go: all the rules behind the templates, with those of the tool directories.
use mathlib.Core.Path.{subst}
use temenos.Base.{
  ℕ, suc, ◌≡◌, refl, sym, ap, ◌∙◌, true, Option, none, some, List, [], ◌∷◌, ◌++◌, map, Bytes, codes,
  elem, ok, All, same_ok, All-append, append_assoc, append-nil, arith, Bool-cases, Result-cases,
  inl, inr,
}
use temenos.Sandbox.Config.{Host}
use temenos.Sandbox.ToolPaths.{ToolDir, all_tool_dirs, seatbelt_metadata_dirs}
use temenos.Daemon.Request.{ExecConfig}
use temenos.Sandbox.Seatbelt.{
  readable_root, darwin_user_cache_dir, Rule, allow_read, allow_read_write, allow_metadata_of,
  allow_map_executable, Param, Rules, ToolRules, mount_rules, read_rule, exec_rule, read_dir_rules,
  exec_dir_rules, append_tool_dir_rules, policy_rules,
}
use temenos.Sandbox.Seatbelt.Keys.{is_key_refl}
use temenos.Sandbox.Seatbelt.Params.{
  IsBelow, AreFound, AreFound-append, readable_root-IsKeyFresh, All-fresh, IsBelow-append, Access,
  darwin_user_cache_dir-IsKeyFresh, grant, asked,
}
use temenos.Sandbox.Seatbelt.Grants.{mount_rules-IsGranted}

abbrev pub IsNoWrite : Rule → Type 0
IsNoWrite (allow_read_write _) = ⊥
IsNoWrite _ = Unit

-- What the loops over the tool directories keep, behind the rules and parameters of the mounts.
record IsExtended (rules : List Rule) (params : List Param) (w m : ℕ) (s : ToolRules) : Type 0 where
  extra : List Rule
  more : List Param
  rules_split : s.rules ≡ rules ++ extra
  params_split : s.params ≡ params ++ more
  no_write : All IsNoWrite extra
  found : AreFound s.params s.params
  below : All (IsBelow s.next w m) s.params

module _ (rules : List Rule) (params : List Param) (w m : ℕ) where
  read_rule-IsExtended :
      (rd : Bytes) (s : ToolRules)
      → IsExtended rules params w m s
      → IsExtended rules params w m (read_rule rd s)
  read_rule-IsExtended rd s h = record {
    extra = h.extra ++ allow_read (readable_root s.next) ∷ [];
    more = h.more ++ (readable_root s.next, rd) ∷ [];
    rules_split =
        ap (λ rs. rs ++ allow_read (readable_root s.next) ∷ []) h.rules_split
        ∙ append_assoc rules h.extra (allow_read (readable_root s.next) ∷ []);
    params_split =
        ap (λ ps. ps ++ (readable_root s.next, rd) ∷ []) h.params_split
        ∙ append_assoc params h.more ((readable_root s.next, rd) ∷ []);
    no_write =
        All-append IsNoWrite h.extra (allow_read (readable_root s.next) ∷ []) h.no_write (tt, tt);
    found =
        AreFound-append s.params (readable_root s.next) rd h.found
          (All-fresh (readable_root s.next) s.next w m s.params
            (readable_root-IsKeyFresh s.next w m) h.below)
          (is_key_refl (readable_root s.next));
    below =
        IsBelow-append s.next w m (suc s.next) w m s.params (readable_root s.next) rd (ground arith)
          (ground arith) (ground arith) h.below (ground arith);
  }

  exec_rule-IsExtended :
      (ed : Bytes) (s : ToolRules)
      → IsExtended rules params w m s
      → IsExtended rules params w m (exec_rule ed s)
  exec_rule-IsExtended ed s h = record {
    extra = h.extra ++ allow_map_executable ed ∷ [];
    more = h.more;
    rules_split =
        ap (λ rs. rs ++ allow_map_executable ed ∷ []) h.rules_split
        ∙ append_assoc rules h.extra (allow_map_executable ed ∷ []);
    params_split = h.params_split;
    no_write = All-append IsNoWrite h.extra (allow_map_executable ed ∷ []) h.no_write (tt, tt);
    found = h.found;
    below = h.below;
  }

  read_dir_rules-IsExtended :
      (rds : List Bytes) (s : ToolRules)
      → IsExtended rules params w m s
      → IsExtended rules params w m (read_dir_rules rds s)
  unfolding read_dir_rules
  read_dir_rules-IsExtended [] s h = h
  read_dir_rules-IsExtended (rd ∷ rds) s h = elim (Bool-cases (elem rd s.seen)) [
    | inl old ↦ rw old (read_dir_rules-IsExtended rds s h)
    | inr new ↦
        rw new (read_dir_rules-IsExtended rds (read_rule rd s) (read_rule-IsExtended rd s h))
  ]

  exec_dir_rules-IsExtended :
      (eds : List Bytes) (s : ToolRules)
      → IsExtended rules params w m s
      → IsExtended rules params w m (exec_dir_rules eds s)
  unfolding exec_dir_rules
  exec_dir_rules-IsExtended [] s h = h
  exec_dir_rules-IsExtended (ed ∷ eds) s h = elim (Bool-cases (elem (codes "exec:" ++ ed) s.seen)) [
    | inl old ↦ rw old (exec_dir_rules-IsExtended eds s h)
    | inr new ↦
        rw new (exec_dir_rules-IsExtended eds (exec_rule ed s) (exec_rule-IsExtended ed s h))
  ]

  append_tool_dir_rules-IsExtended :
      (tds : List ToolDir) (s : ToolRules)
      → IsExtended rules params w m s
      → IsExtended rules params w m (append_tool_dir_rules tds s)
  unfolding append_tool_dir_rules
  append_tool_dir_rules-IsExtended [] s h = h
  append_tool_dir_rules-IsExtended (td ∷ tds) s h =
      append_tool_dir_rules-IsExtended tds
        (exec_dir_rules td.exec_dirs (read_dir_rules td.read_dirs s))
        (exec_dir_rules-IsExtended td.exec_dirs (read_dir_rules td.read_dirs s)
          (read_dir_rules-IsExtended td.read_dirs s h))

map_append :
    (f : Rule → Access × Option Bytes) (xs ys : List Rule) → map f (xs ++ ys) ≡ map f xs ++ map f ys
map_append f [] ys = refl
map_append f (x ∷ xs) ys = ap (λ zs. f x ∷ zs) (map_append f xs ys)

literals-IsNoWrite : (ds : List Bytes) → All IsNoWrite (map allow_metadata_of ds)
literals-IsNoWrite [] = tt
literals-IsNoWrite (d ∷ ds) = (tt, literals-IsNoWrite ds)

-- What the policy and its parameters say together.
abbrev pub IsPolicyOf : ExecConfig → List Rule × List Param → Type 0
IsPolicyOf cfg (rules, params) =
    (extra : List Rule) × (map (grant params) rules
      ≡ map asked cfg.mount_dirs ++ map (grant params) extra)
    × All IsNoWrite extra
    × AreFound params params

module _ (host : Host) (dir : Bytes) (cfg : ExecConfig) (out : Rules) where
  tool_rules : ToolRules
  tool_rules =
      append_tool_dir_rules (all_tool_dirs host true)
        (record { rules = out.0; params = out.1; next = out.2; seen = [] })

  mounts-IsPolicyOf :
      mount_rules 0 0 0 cfg.mount_dirs ≡ ok out
      → IsPolicyOf cfg (
        tool_rules.rules ++ map allow_metadata_of (seatbelt_metadata_dirs true),
        tool_rules.params ++ (darwin_user_cache_dir, dir) ∷ [],
      )
  unfolding tool_rules
  mounts-IsPolicyOf h =
      let (granted, found, (w, m, below)) =
        mount_rules-IsGranted cfg.mount_dirs 0 0 0 [] out tt tt h in
      let ext =
        append_tool_dir_rules-IsExtended out.0 out.1 w m (all_tool_dirs host true)
          (record { rules = out.0; params = out.1; next = out.2; seen = [] })
          (record {
            extra = [];
            more = [];
            rules_split = sym (append-nil out.0);
            params_split = sym (append-nil out.1);
            no_write = tt;
            found = found;
            below = below;
          }) in
      let literals = map allow_metadata_of (seatbelt_metadata_dirs true) in
      let params : List Param = tool_rules.params ++ (darwin_user_cache_dir, dir) ∷ [] in
      let params_is : params ≡ out.1 ++ (ext.more ++ (darwin_user_cache_dir, dir) ∷ []) =
        ap (λ ps. ps ++ (darwin_user_cache_dir, dir) ∷ []) ext.params_split
        ∙ append_assoc out.1 ext.more ((darwin_user_cache_dir, dir) ∷ []) in
      let rules_is : tool_rules.rules ++ literals ≡ out.0 ++ (ext.extra ++ literals) =
        ap (λ rs. rs ++ literals) ext.rules_split ∙ append_assoc out.0 ext.extra literals in
      let asks : map (grant params) out.0 ≡ map asked cfg.mount_dirs =
        ap (λ ps. map (grant ps) out.0) params_is
        ∙ granted (ext.more ++ (darwin_user_cache_dir, dir) ∷ []) in
      (
        ext.extra ++ literals,
        ap (map (grant params)) rules_is
            ∙ (map_append (grant params) out.0 (ext.extra ++ literals)
                ∙ ap (λ gs. gs ++ map (grant params) (ext.extra ++ literals)) asks),
        All-append IsNoWrite ext.extra literals ext.no_write
            (literals-IsNoWrite (seatbelt_metadata_dirs true)),
        AreFound-append tool_rules.params darwin_user_cache_dir dir ext.found
            (All-fresh darwin_user_cache_dir tool_rules.next w m tool_rules.params
              (darwin_user_cache_dir-IsKeyFresh tool_rules.next w m) ext.below)
            (is_key_refl darwin_user_cache_dir),
      )

-- The rules that are appended to the embedded templates, read with the parameters that the texts of
-- their keys name, grant every mount exactly what it asks for, in order: metadata, reading, or reading
-- and writing, on its source. None of the appended rules behind these, for the tool directories, grants
-- writing, and no parameter hides another one. What the templates themselves grant is not
-- said.
pub policy_rules-IsPolicyOf :
    (host : Host) (cache_dir : Option Bytes) (cfg : ExecConfig) (out : List Rule × List Param)
    → policy_rules host cache_dir cfg ≡ ok out
    → IsPolicyOf cfg out
unfolding policy_rules tool_rules
policy_rules-IsPolicyOf host none cfg out = elim (Result-cases (mount_rules 0 0 0 cfg.mount_dirs)) [
  | inl (rules, is) ↦ rw (policy_rules, is) (λ h. ground arith)
  | inr (e, is) ↦ rw (policy_rules, is) (λ h. ground arith)
]
policy_rules-IsPolicyOf host (some dir) cfg out =
    elim (Result-cases (mount_rules 0 0 0 cfg.mount_dirs)) [
      | inl (rules, is) ↦
          rw (policy_rules, is)
            (λ h.
              subst (IsPolicyOf cfg)
                (same_ok
                  (
                    (tool_rules host dir cfg rules).rules
                        ++ map allow_metadata_of (seatbelt_metadata_dirs true),
                    (tool_rules host dir cfg rules).params ++ (darwin_user_cache_dir, dir) ∷ [],
                  )
                  out h)
                (mounts-IsPolicyOf host dir cfg rules is))
      | inr (e, is) ↦ rw (policy_rules, is) (λ h. ground arith)
    ]
