-- ===== src/Examples/Requests.antt =====
-- internal/daemon/handler.go: the run handler on a request, and the job endpoints.
use temenos.Base.{
  ◌≡◌, refl, ◌⊎◌, true, false, none, some, List, [], ◌∷◌, ◌++◌, map, All, Bytes, codes, Result, ok,
  err, is_empty, elem, trim_space,
}
use temenos.Base.Int.{pos}
use temenos.Sandbox.Config.{Config, zero_config, matches_any, filter_env}
use temenos.Sandbox.Mounts.{Mount, source_of, ancestor_mount}
use temenos.Sandbox.Mounts.Added.{AreFresh}
use temenos.Sandbox.Environ.{build_env}
use temenos.Sandbox.Environ.Winner.{winner}
use temenos.Daemon.Jobs.{JobManager, new_background_job, remove}
use temenos.Auth.{TokenCache}
use temenos.Daemon.Request.{
  AllowedPath, RunRequest, ExecConfig, validate_env, env_map_to_slice, build_mounts,
}
use temenos.Daemon.Request.Directories.{IsAbsolute, IsSettled, mount_of, build_mounts_lem}
use temenos.Daemon.Request.Environment.{validate_env_iff, IsEntry, request_cannot_set_path}
use temenos.Daemon.Run.{
  Review, Daemon, Circumstances, Moment, timeout, tick, HandlerError, RunResponse, handle_run,
  authorize, check_request, poll, required_sas,
}
use temenos.Daemon.Run.Authorization.{Said, IsTrusted, authorize_sound, authorize-IsTrusted}
use temenos.Daemon.Run.Launching.{asked_for, launch_of}
use temenos.Daemon.Run.Ending.{poll_ends}
use temenos.Daemon.Run.Handled.{IsHandled, IsConfined, handle_run_replies, handle_run_launches}
use temenos.Daemon.Http.RunStatuses.{IsRefused, IsRejected, status_of, handle_run-error}
use temenos.Daemon.Run.{run_error}
use temenos.Daemon.Http.{handle_job_kill}
use temenos.Daemon.Http.Kills.{Killed, handle_job_kill_lem}

abbrev pub alice : Bytes
alice = codes "system:serviceaccount:ops:alice"

-- An API server that answers every token with the same name.
abbrev pub review_alice : Review
review_alice t token url = ok alice

abbrev pub guarded : Config
unfolding zero_config
guarded = record zero_config {
  allow_read = codes "/etc" ∷ [];
  allow_env = codes "MY_*" ∷ [];
  auto_background_after = pos 30;
  kubernetes = record {
    enabled = true;
    require_service_account = alice;
    token_review_url = codes "https://kubernetes.default.svc";
  };
}

abbrev pub work_dir : AllowedPath
work_dir = record { path = codes "/a/../w"; read_only = false; metadata_only = false }

abbrev pub listing : RunRequest
listing = record {
  command = codes "ls";
  env = (codes "MY_X", codes "1") ∷ (codes "PATH", codes "/evil") ∷ [];
  allowed_paths = work_dir ∷ [];
  timeout = pos 60;
  caller_id = codes "s";
  auth_token = codes "jwt";
}

abbrev pub no_jobs : JobManager
unfolding new_background_job
no_jobs = record { heap = λ _. new_background_job [] [] 0; jobs = []; seq = 0 }

abbrev pub idle : Daemon
idle = record { cache = none; manager = no_jobs; next = 0; launched = [] }

abbrev pub rounds : List Moment
rounds =
    record { others = λ m. m; now = 2; signal = tick }
    ∷ record { others = λ m. m; now = 3; signal = timeout }
    ∷ []

abbrev pub morning : Circumstances
morning = record { asked = 0; answered = 1; now = 1; temp_dir = codes "/tmp"; moments = rounds }

abbrev mount_at : Bytes → Bytes → Mount
mount_at p q = record { source = p; target = q; read_only = false; metadata_only = false }

abbrev accepted : List Bytes × ExecConfig
accepted = (
  codes "PATH" ∷ [],
  record {
    env = codes "MY_X=1" ∷ [];
    working_dir = codes "/w";
    mount_dirs =
        record {
          source = codes "/etc";
          target = codes "/etc";
          read_only = true;
          metadata_only = false;
        }
        ∷ mount_at (codes "/w") (codes "/w")
        ∷ [];
  },
)

listing_enters : (asked_for review_alice guarded morning listing idle).1 ≡ none
unfolding authorize guarded
listing_enters = refl

listing_passes : check_request guarded (codes "/tmp") listing ≡ ok accepted
unfolding check_request guarded
listing_passes = refl

handle_run_replies_example :
    (r : Result HandlerError RunResponse) × ((handle_run review_alice guarded morning listing
        idle).1
      ≡ some r)
    × IsHandled 0 (handle_run review_alice guarded morning listing idle).0.manager r
unfolding no_jobs
handle_run_replies_example =
    handle_run_replies review_alice guarded morning listing idle accepted listing_enters
      listing_passes (λ m h. h, (λ m h. h, tt)) refl tt

handle_run_launches_example :
    (((handle_run review_alice guarded morning listing idle).0.launched ≡ [])
      × ((handle_run review_alice guarded morning listing idle).0.manager.jobs ≡ no_jobs.jobs)
      × ((e : HandlerError) × ((handle_run review_alice guarded morning listing idle).1
            ≡ some (err e))))
    ⊎ (((asked_for review_alice guarded morning listing idle).1 ≡ none)
        × ((x : ExecConfig) × IsConfined guarded (codes "/tmp") listing x
            × ((handle_run review_alice guarded morning listing idle).0.launched
                ≡ launch_of guarded listing x 0 ∷ [])))
handle_run_launches_example =
    handle_run_launches review_alice guarded morning listing idle
      (unfold matches_any guarded in refl)

poll_ends_example : (r : Result HandlerError RunResponse) × ((poll 0 [] rounds no_jobs).1 ≡ some r)
poll_ends_example = poll_ends 0 [] rounds no_jobs refl

authorize_sound_example :
    (is_empty (codes "jwt") ≡ false)
    × (u : Bytes) × (elem u (required_sas guarded.kubernetes.require_service_account) ≡ true)
    × Said review_alice 300 0 1 guarded.kubernetes.token_review_url (codes "jwt") u
authorize_sound_example =
    authorize_sound review_alice 300 0 1 guarded (codes "jwt") none (unfold guarded in refl)
      (unfold guarded in refl) tt (unfold authorize guarded in refl)

-- A cache that holds what the API server said of another token, at the time 4.
abbrev warm : TokenCache
warm = record {
  entries = (codes "old", record { username = alice; expires_at = 304 }) ∷ [];
  ttl = 300;
}

warm-IsTrusted : IsTrusted review_alice 300 guarded.kubernetes.token_review_url (some warm)
warm-IsTrusted = record { lifetime = refl; confirmed = ((4, refl, refl), tt) }

-- The token is not in the cache, so the request adds an entry.
authorize-IsTrusted_example :
    IsTrusted review_alice 300 guarded.kubernetes.token_review_url
      (authorize review_alice 5 6 guarded (codes "jwt") (some warm)).0
authorize-IsTrusted_example =
    authorize-IsTrusted review_alice 300 5 6 guarded (codes "jwt") (some warm) warm-IsTrusted

request_cannot_set_path_example :
    winner
      (codes "PATH")
      (build_env (codes "/usr/bin") (env_map_to_slice (filter_env guarded listing.env).0) [])
    ≡ some (codes "/usr/bin")
request_cannot_set_path_example =
    request_cannot_set_path guarded listing.env (codes "/usr/bin") [] (unfold validate_env in refl)
      (unfold matches_any guarded in refl)

validate_env_iff_example :
    (validate_env listing.env ≡ ok tt → All IsEntry listing.env)
    × (All IsEntry listing.env → validate_env listing.env ≡ ok tt)
validate_env_iff_example = validate_env_iff listing.env

build_mounts_lem_example :
    All IsAbsolute listing.allowed_paths
    × All IsSettled (map mount_of listing.allowed_paths)
    × (added : List Bytes) × (mount_at (codes "/w") (codes "/w") ∷ []
        ≡ ([] ++ map mount_of listing.allowed_paths) ++ map ancestor_mount added)
    × AreFresh (map source_of ([] ++ map mount_of listing.allowed_paths)) added
build_mounts_lem_example =
    build_mounts_lem [] listing.allowed_paths (mount_at (codes "/w") (codes "/w") ∷ [])
      (unfold build_mounts in refl)

-- A job runs, and another goroutine removes it before `Kill`.
abbrev one_running : JobManager
one_running = record no_jobs { jobs = (codes "000001", 0) ∷ [] }

handle_job_kill_lem_example :
    Killed 5
      (remove (codes "000001"))
      (λ x. x)
      (codes "000001")
      one_running
      (handle_job_kill 5 (remove (codes "000001")) (λ x. x) (codes "000001") one_running)
handle_job_kill_lem_example =
    handle_job_kill_lem 5 (remove (codes "000001")) (λ x. x) (codes "000001") one_running

abbrev anonymous : RunRequest
anonymous = record listing { auth_token = [] }

abbrev unauthorized : HandlerError
unauthorized = run_error 401 (codes "authorization required")

handle_run-error_example :
    (((handle_run review_alice guarded morning anonymous idle).0.launched ≡ [])
      × (IsRefused review_alice guarded morning anonymous idle unauthorized
          ⊎ (((asked_for review_alice guarded morning anonymous idle).1 ≡ none)
              × IsRejected review_alice guarded morning anonymous idle unauthorized)))
    ⊎ (((asked_for review_alice guarded morning anonymous idle).1 ≡ none)
        × ((x : ExecConfig) × ((handle_run review_alice guarded morning anonymous idle).0.launched
              ≡ launch_of guarded anonymous x 0 ∷ []))
        × (status_of unauthorized ≡ 500))
handle_run-error_example =
    handle_run-error review_alice guarded morning anonymous idle unauthorized
      (unfold handle_run authorize guarded in refl)

-- A thin space in front and a no-break space behind are white space too.
trim_space_test :
    trim_space (32 ∷ 226 ∷ 128 ∷ 137 ∷ (codes "ops" ++ (194 ∷ 160 ∷ 10 ∷ []))) ≡ codes "ops"
unfolding trim_space
trim_space_test = refl
