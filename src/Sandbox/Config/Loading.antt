-- ===== src/Sandbox/Config/Loading.antt =====
-- What a configuration that `Load` returns without an error satisfies.
use mathlib.Core.Path.{subst, ap}
use temenos.Base.{
  ◌≡◌, refl, ◌≢◌, false, ◌&&◌, none, List, [], ◌∷◌, Bytes, codes, is_empty, All, arith, Result, ok,
  err, ◌>>=◌, Option-cases, inl, inr,
}
use temenos.Base.Int.{is_zero}
use temenos.FilePath.Match.{match}
use temenos.Sandbox.Config.{
  Config, Host, ConfigError, FileStat, present, absent, unreadable, prepare, load,
  validate_allow_env, apply_defaults, default_config, default_config_path, expand_slice,
  expand_home, zero_config, require_account, default_url, default_socket, allow_read_path,
  allow_write_path, load_file, decode_file,
}

-- The configuration can be used as it is: a threshold is set, every pattern can be matched, and
-- where Kubernetes is on there is an account to require and a server to ask.
pub record IsUsable (c : Config) : Type 0 where
  pub threshold : is_zero c.auto_background_after ≡ false
  pub patterns : All (λ p. match p [] ≢ none) c.allow_env
  pub account : (c.kubernetes.enabled && is_empty c.kubernetes.require_service_account) ≡ false
  pub server : (c.kubernetes.enabled && is_empty c.kubernetes.token_review_url) ≡ false

validate_allow_env-All :
    (patterns : List Bytes)
    → validate_allow_env patterns ≡ ok tt
    → All (λ p. match p [] ≢ none) patterns
unfolding validate_allow_env
validate_allow_env-All [] e = tt
validate_allow_env-All (p ∷ ps) e = elim (Option-cases (match p [])) [
  | inl bad ↦ ground arith
  | inr (b, good) ↦ (λ h. cc, validate_allow_env-All ps (rw (good, validate_allow_env) at e))
]

bind_ok {ℓ κ} :
    {E : Type 0} {A : Type ℓ} {B : Type κ} (m : Result E A) (f : A → Result E B) {b : B}
    → (m >>= f) ≡ ok b
    → (a : A) × (m ≡ ok a) × (f a ≡ ok b)
bind_ok (ok a) f h = (a, refl, h)
bind_ok (err e) f h = cc

ok_injective : {a b : Config} → ◌≡◌ {A = Result ConfigError Config} (ok a) (ok b) → a ≡ b
ok_injective {a} h = ap (λ (r : Result ConfigError Config). or_this r) h
  where
    or_this : Result ConfigError Config → Config
    or_this (ok c) = c
    or_this (err e) = a

default_url_given : (host : Host) (u : Bytes) → is_empty (default_url host u) ≡ false
default_url_given host [] = refl
default_url_given host (c ∷ u) = refl

apply_defaults_ok :
    (host : Host) (d c : Config)
    → apply_defaults host d ≡ ok c
    → (is_zero c.auto_background_after ≡ false) × (is_empty c.kubernetes.token_review_url ≡ false)
unfolding apply_defaults
apply_defaults_ok host d c e =
    let (s, _, r) = bind_ok (default_socket host d.socket_path) _ e in
    subst
      (λ (x : Config).
        (is_zero x.auto_background_after ≡ false)
        × (is_empty x.kubernetes.token_review_url ≡ false))
      (ok_injective r) (ground arith, default_url_given host d.kubernetes.token_review_url)

prepare-IsUsable : (host : Host) (d c : Config) → prepare host d ≡ ok c → IsUsable c
unfolding prepare
prepare-IsUsable host d c e =
    let (cfg, e0, r0) = bind_ok (apply_defaults host d) _ e in
    let (reads, _, r1) = bind_ok (expand_slice host allow_read_path cfg.allow_read) _ r0 in
    let (writes, _, r2) = bind_ok (expand_slice host allow_write_path cfg.allow_write) _ r1 in
    let (socket, _, r3) = bind_ok (expand_home host cfg.socket_path) _ r2 in
    let (_, e4, r4) = bind_ok (validate_allow_env cfg.allow_env) _ r3 in
    let (_, e5, r5) = bind_ok (require_account cfg.kubernetes) _ r4 in
    let (threshold, server) = apply_defaults_ok host d cfg e0 in
    subst IsUsable (ok_injective r5) (record {
      threshold = threshold;
      patterns = validate_allow_env-All cfg.allow_env e4;
      account = ground arith;
      server = ground (arith, server);
    })

default_config-IsUsable : (host : Host) (c : Config) → default_config host ≡ ok c → IsUsable c
unfolding default_config zero_config
default_config-IsUsable host c e =
    let (s, _, r) = bind_ok (expand_home host (codes "~/.temenos/daemon.sock")) _ e in
    subst IsUsable (ok_injective r)
      (record { threshold = refl; patterns = tt; account = refl; server = refl })

load_file-IsUsable :
    (host : Host) (path : Bytes) (c : Config) → load_file host path ≡ ok c → IsUsable c
unfolding load_file decode_file
load_file-IsUsable host path c e = elim_stat (host.stat path) refl
  where
    elim_stat : (s : FileStat) → host.stat path ≡ s → IsUsable c
    elim_stat absent k = default_config-IsUsable host c (ground arith)
    elim_stat unreadable k = ground arith
    elim_stat present k = elim (Option-cases (host.decode_toml path)) [
      | inl bad ↦ ground arith
      | inr (d, good) ↦ prepare-IsUsable host d c (ground arith)
    ]

-- A configuration that `Load` returns can be used as it is, whatever the file says: its threshold
-- is not zero, every pattern can be matched, and if Kubernetes is on there is an account to
-- require and a server to ask.
pub load-IsUsable : (host : Host) (path : Bytes) (c : Config) → load host path ≡ ok c → IsUsable c
unfolding load
load-IsUsable host [] c e =
    let (p, _, r) = bind_ok (default_config_path host) _ e in load_file-IsUsable host p c r
load-IsUsable host (x ∷ path) c e = load_file-IsUsable host (x ∷ path) c e
