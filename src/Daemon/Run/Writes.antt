-- ===== src/Daemon/Run/Writes.antt =====
-- internal/daemon/handler.go, sandbox/bwrap.go: what a request lets its command write to.
use mathlib.Core.Path.{subst}
use mathlib.Core.List.Memᴰ
use temenos.Base.{
  ◌≡◌, refl, sym, ap, ◌∙◌, inl, inr, ◌⊎◌, ℕ, Bool, true, false, Option, some, List, [], ◌++◌, map,
  Bytes, codes, bytes_eq_iff, Memᴰ, ok,
}
use temenos.FilePath.{clean}
use temenos.Sandbox.Config.{Config, Host, baseline_mount, baseline_mounts}
use temenos.Sandbox.Mounts.{Mount, ancestor_mount}
use temenos.Sandbox.ToolPaths.{is_present}
use temenos.Sandbox.Bwrap.{build_args}
use temenos.Sandbox.Bwrap.Reading.{Operation, Parsed, read_args}
use temenos.Sandbox.Bwrap.Operations.{IsBubblewrap, read_write_bind}
use temenos.Sandbox.Bwrap.Roundtrip.{read_args-build_args}
use temenos.Sandbox.Bwrap.Writable.{Memᴰ-map, operations-IsWrite}
use temenos.Daemon.Request.{AllowedPath, RunRequest, ExecConfig, build_mounts}
use temenos.Daemon.Request.Directories.{mount_of, build_mounts_lem}
use temenos.Daemon.Run.{check_request}
use temenos.Daemon.Run.Launching.{check_request_ok}

-- The operator lets every command write there, or the request asks to.
abbrev pub IsWritable : Config → RunRequest → Bytes → Type 0
IsWritable cfg req d =
    Memᴰ d cfg.allow_write
    ⊎ ((p : AllowedPath) × Memᴰ p req.allowed_paths
        × (p.read_only ≡ false)
        × (p.metadata_only ≡ false)
        × (d ≡ clean p.path))

-- A mount that is written to is one of the operator's or of the request, onto itself.
abbrev IsAsked : Config → RunRequest → Mount → Type 0
IsAsked cfg req m = (m.target ≡ m.source) × IsWritable cfg req m.source

baseline_mounts-IsAsked :
    (cfg : Config) (req : RunRequest) (m : Mount)
    → Memᴰ m (baseline_mounts cfg)
    → m.read_only ≡ false
    → IsAsked cfg req m
unfolding baseline_mounts
baseline_mounts-IsAsked cfg req m given writes =
    elim (Memᴰ.append_cases (map (baseline_mount true) cfg.allow_read) given) [
      | inl reads ↦
          let (p, known, same) = Memᴰ-map (baseline_mount true) m cfg.allow_read reads in
          let no = sym writes ∙ ap (λ (x : Mount). x.read_only) same in cc
      | inr asks ↦
          let (p, known, same) = Memᴰ-map (baseline_mount false) m cfg.allow_write asks in
          subst (IsAsked cfg req) (sym same) (refl, inl known)
    ]

mount_of-IsAsked :
    (cfg : Config) (req : RunRequest) (m : Mount)
    → Memᴰ m (map mount_of req.allowed_paths)
    → m.read_only ≡ false
    → m.metadata_only ≡ false
    → IsAsked cfg req m
mount_of-IsAsked cfg req m given writes grants =
    let (p, known, same) = Memᴰ-map mount_of m req.allowed_paths given in
    let w = sym (ap (λ (x : Mount). x.read_only) same) ∙ writes in
    let g = sym (ap (λ (x : Mount). x.metadata_only) same) ∙ grants in
    subst (IsAsked cfg req) (sym same) (refl, inr (p, known, w, g, refl))

build_mounts-IsAsked :
    (cfg : Config) (req : RunRequest) (out : List Mount) (m : Mount)
    → build_mounts (baseline_mounts cfg) req.allowed_paths ≡ ok out
    → Memᴰ m out
    → m.read_only ≡ false
    → m.metadata_only ≡ false
    → IsAsked cfg req m
build_mounts-IsAsked cfg req out m made given writes grants =
    let (a, settled, added, same, fresh) =
      build_mounts_lem (baseline_mounts cfg) req.allowed_paths out made in
    elim (Memᴰ.append_cases (baseline_mounts cfg ++ map mount_of req.allowed_paths)
      (subst (λ l. Memᴰ m l) same given)) [
        | inr ancestor ↦
            let (d, known, e) = Memᴰ-map ancestor_mount m added ancestor in
            let no = sym grants ∙ ap (λ (x : Mount). x.metadata_only) e in cc
        | inl asked ↦ elim (Memᴰ.append_cases (baseline_mounts cfg) asked) [
          | inl base ↦ baseline_mounts-IsAsked cfg req m base writes
          | inr own ↦ mount_of-IsAsked cfg req m own writes grants
        ]
      ]

same_operations :
    {xs ys : List Operation} {cmd other : List Bytes}
    → ◌≡◌ {A = Option Parsed} (some ([], xs, cmd)) (some ([], ys, other))
    → xs ≡ ys
same_operations h = cc

-- Where bubblewrap's options take as many operands as its manual says: of an accepted request,
-- whatever its command and its paths are, bubblewrap binds for writing only paths that exist, each
-- onto itself, and each of them is one that the operator's `allow_write` lists or the cleaned path of
-- one of the request's that is neither read-only nor metadata-only.
pub check_request-writes :
    (arity : Bytes → Option ℕ) (host : Host) (kubernetes_mode : Bool) (cfg : Config)
    (temp_dir : Bytes) (req : RunRequest) (stripped : List Bytes) (x : ExecConfig)
    (ops : List Operation) (command : List Bytes) (op : Operation)
    → IsBubblewrap arity
    → check_request cfg temp_dir req ≡ ok (stripped, x)
    → read_args arity 0 (build_args host kubernetes_mode req.command x) ≡ some ([], ops, command)
    → Memᴰ op ops
    → op.option ≡ codes "--bind"
    → (d : Bytes) × (op ≡ read_write_bind d d)
      × (is_present (host.stat d) ≡ true)
      × IsWritable cfg req d
check_request-writes arity host k cfg temp_dir req stripped x ops command op manual accepted reads
      known writes =
    let (dirs, same, shared) = read_args-build_args arity manual host k req.command x in
    let all = same_operations (sym reads ∙ same) in
    let (m, given, rw_, grant, there, e) =
      operations-IsWrite host k dirs x op (subst (λ l. Memᴰ op l) all known)
        ((bytes_eq_iff op.option (codes "--bind")).1 writes) in
    let (made, valid, env, dir) = check_request_ok cfg temp_dir req stripped x accepted in
    let (self, asked) = build_mounts-IsAsked cfg req x.mount_dirs m made given rw_ grant in
    (m.source, e ∙ ap (read_write_bind m.source) self, there, asked)
