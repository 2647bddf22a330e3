-- ===== src/Daemon/Http/Statuses.antt =====
-- internal/daemon/handler.go: which status answers what.

use temenos.Base.{
  ◌≡◌, refl, sym, ap, ◌∙◌, ◌⊎◌, inl, inr, some, List, [], ◌∷◌, Bytes, any, Result, ok, err,
  Bool-cases, Result-cases, arith,
}
use temenos.Sandbox.Mounts.{Mount}
use temenos.Daemon.Jobs.{JobStatus, running, completed, killed, status_text}
use temenos.Daemon.Request.{
  AllowedPath, RunRequest, RequestError, validation, invalid_name, invalid_value, validate_path,
  append_paths, build_mounts, validate_env, is_valid_env_name, is_control,
}
use temenos.Sandbox.Config.{Config, baseline_mounts}
use temenos.Daemon.Run.{invalid, check_request}
use temenos.Daemon.Http.{error_response, is_validation, as_run_error, normalize_job_status}

validate_path_error : (p : Bytes) (e : RequestError) → validate_path p ≡ err e → e ≡ validation p
unfolding validate_path
validate_path_error p e h = ground arith

append_paths_error :
    (paths : List AllowedPath) (mounts : List Mount) (e : RequestError)
    → append_paths mounts paths ≡ err e
    → (p : Bytes) × (e ≡ validation p)
unfolding append_paths
append_paths_error [] mounts e h = cc
append_paths_error (p ∷ paths) mounts e h = elim (Result-cases (validate_path p.path)) [
  | inr (e', wrong) ↦
      let same : ◌≡◌ {A = Result RequestError (List Mount)} (err e') (err e) =
        rw (append_paths, wrong) at h in
      let e_same : e ≡ e' = cc in (p.path, e_same ∙ validate_path_error p.path e' wrong)
  | inl (u, right) ↦ append_paths_error paths _ e (rw (append_paths, right) at h)
]

build_mounts_error :
    (baseline : List Mount) (paths : List AllowedPath) (e : RequestError)
    → build_mounts baseline paths ≡ err e
    → (p : Bytes) × (e ≡ validation p)
unfolding build_mounts
build_mounts_error baseline paths e h = elim (Result-cases (append_paths baseline paths)) [
  | inr (e', wrong) ↦
      let same : ◌≡◌ {A = Result RequestError (List Mount)} (err e') (err e) =
        rw (build_mounts, wrong) at h in
      let e_same : e' ≡ e = cc in
      append_paths_error paths baseline e (wrong ∙ ap (λ x. err x) e_same)
  | inl (mounts, right) ↦ ground arith
]

validate_env_error :
    (env : List (Bytes × Bytes)) (e : RequestError)
    → validate_env env ≡ err e
    → (k : Bytes) × ((e ≡ invalid_name k) ⊎ (e ≡ invalid_value k))
unfolding validate_env
validate_env_error [] e h = cc
validate_env_error ((key, value) ∷ env) e h = elim (Bool-cases (is_valid_env_name key)) [
  | inr bad ↦ (key, inl (ground arith))
  | inl good ↦ elim (Bool-cases (any is_control value)) [
    | inl bad ↦ (key, inr (ground arith))
    | inr fine ↦ validate_env_error env e (ground arith)
  ]
]

validation_status : (p : Bytes) → (error_response (invalid (validation p))).status ≡ 400
unfolding error_response is_validation as_run_error
validation_status p = refl

env_status :
    (e : RequestError) (k : Bytes)
    → (e ≡ invalid_name k) ⊎ (e ≡ invalid_value k)
    → (error_response (invalid e)).status ≡ 500
unfolding error_response is_validation as_run_error
env_status e k (inl same) = rw same refl
env_status e k (inr same) = rw same refl

-- A request that is not accepted is answered with status 400 if one of its paths is at fault, and
-- with status 500 if only its variables are.
pub rejected_status :
    (cfg : Config) (temp_dir : Bytes) (req : RunRequest) (e : RequestError)
    → check_request cfg temp_dir req ≡ err e
    → (((p : Bytes) × (build_mounts (baseline_mounts cfg) req.allowed_paths ≡ err (validation p)))
        × ((error_response (invalid e)).status ≡ 400))
      ⊎ ((validate_env req.env ≡ err e) × ((error_response (invalid e)).status ≡ 500))
unfolding check_request
rejected_status cfg temp_dir req e h =
    elim (Result-cases (build_mounts (baseline_mounts cfg) req.allowed_paths)) [
      | inr (e', bad) ↦
          let same : e' ≡ e = ground arith in
          let (p, blamed) = build_mounts_error (baseline_mounts cfg) req.allowed_paths e' bad in
          inl (
            (p, bad ∙ ap (λ x. err x) blamed),
            ap (λ x. (error_response (invalid x)).status) (sym same ∙ blamed) ∙ validation_status p,
          )
      | inl (mounts, made) ↦ elim (Result-cases (validate_env req.env)) [
        | inl (u, valid) ↦ ground arith
        | inr (e', bad) ↦
            let same : e' ≡ e = ground arith in
            let (k, blamed) = validate_env_error req.env e' bad in
            inr (
              bad ∙ ap (λ x. err x) same,
              ap (λ x. (error_response (invalid x)).status) (sym same) ∙ env_status e' k blamed,
            )
      ]
    ]

-- The status filter is read back from its text, whichever it is.
pub normalize_job_status-status_text :
    (s : JobStatus) → normalize_job_status (status_text s) ≡ ok (some s)
unfolding normalize_job_status status_text
normalize_job_status-status_text running = refl
normalize_job_status-status_text completed = refl
normalize_job_status-status_text killed = refl
