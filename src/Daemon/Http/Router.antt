-- ===== src/Daemon/Http/Router.antt =====
-- internal/daemon/socket.go, internal/daemon/handler.go: the routes, and what the daemon does with a
-- request.
use temenos.Base.{
  ℕ, Bool, true, Option, some, List, [], ◌∷◌, Bytes, codes, length, take, ltb, Result, ok, err,
  if◌then◌else◌,
}
use temenos.Sandbox.Config.{Config}
use temenos.Daemon.Jobs.{JobManager}
use temenos.Daemon.Request.{RunRequest}
use temenos.Daemon.Run.{Review, Daemon, Circumstances, handle_run}
use temenos.Daemon.Http.{
  HealthResponse, HttpResponse, health, write_json, handle_validating, handle_job_list,
  handle_job_get, handle_job_kill,
}

pub data Method : Type 0 where
  get post delete : Method

-- The handlers.
pub data Endpoint : Type 0 where
  on_run on_health on_job_list on_job_get on_job_kill : Endpoint

pub record Route : Type 0 where
  pub method : Method
  pub pattern : Bytes
  pub endpoint : Endpoint

abbrev pub route : Method → Bytes → Endpoint → Route
route method pattern endpoint = record { method = method; pattern = pattern; endpoint = endpoint }

-- `newRouter`; the flag says whether there is a registry of jobs.
unfoldable pub new_router : Bool → List Route
new_router has_jobs =
    let jobs =
      route get (codes "/jobs") on_job_list
      ∷ route get (codes "/jobs/{id}") on_job_get
      ∷ route delete (codes "/jobs/{id}") on_job_kill
      ∷ [] in
    route post (codes "/run") on_run
    ∷ route get (codes "/health") on_health
    ∷ (if has_jobs then jobs else [])

-- The router, which is chi's: the handler of a request with the parameter `id`, or the reply that it
-- gives by itself.
abbrev pub Dispatch : Type 0
Dispatch = List Route → Method → Bytes → Result HttpResponse (Endpoint × Bytes)

-- A megabyte.
abbrev pub max_body_bytes : ℕ
max_body_bytes = 1_048_576

-- The JSON decoder, on what can be read and whether the reader then fails.
abbrev pub Decode : Type 0
Decode = Bytes → Bool → Result Bytes RunRequest

-- The decoder behind `http.MaxBytesReader`.
unfoldable pub decode_limited : Decode → Bytes → Result Bytes RunRequest
decode_limited decode body = decode (take max_body_bytes body) (ltb max_body_bytes (length body))

-- A request as `net/http` hands it over; a parameter that the query does not have is empty.
pub record HttpRequest : Type 0 where
  pub method : Method
  pub path : Bytes
  pub query : Bytes → Bytes
  pub body : Bytes

-- What a request meets: that of a run, the time, and what others do to the jobs while one is killed.
pub record Surroundings : Type 0 where
  pub run : Circumstances
  pub now : ℕ
  pub others : JobManager → JobManager
  pub others' : JobManager → JobManager

-- The program as it was built.
pub record Build : Type 0 where
  pub version : Bytes
  pub platform : Bytes

-- `handleHealth`
unfoldable pub handle_health : Build → HealthResponse
handle_health build = record { ok = true; platform = build.platform; version = build.version }

-- `handleHTTPHealth`
unfoldable pub handle_http_health : Build → HttpResponse
unfolding handle_health
handle_http_health build = write_json 200 (health (handle_health build))

abbrev pub with_manager : Daemon → JobManager × HttpResponse → Daemon × Option HttpResponse
with_manager d result = (record d { manager = result.0 }, some result.1)

module _ (review : Review) (cfg : Config) (decode : Decode) (build : Build) where
  -- `handleHTTPRunValidating`
  unfoldable pub handle_http_run :
      Surroundings → HttpRequest → Daemon → Daemon × Option HttpResponse
  unfolding handle_validating
  handle_http_run at req d =
      handle_validating (handle_run review cfg at.run) (decode_limited decode req.body) d

  -- The handler of a route, with the parameter `id`.
  unfoldable pub respond :
      Endpoint → Bytes → Surroundings → HttpRequest → Daemon → Daemon × Option HttpResponse
  respond on_run id at req d = handle_http_run at req d
  respond on_health id at req d = (d, some (handle_http_health build))
  respond on_job_list id at req d = (
    d,
    some (handle_job_list (req.query (codes "status")) (req.query (codes "caller_id")) d.manager),
  )
  respond on_job_get id at req d = with_manager d (handle_job_get at.now id d.manager)
  respond on_job_kill id at req d =
      with_manager d (handle_job_kill at.now at.others at.others' id d.manager)

  -- The daemon's answer to a request.
  unfoldable pub serve_request :
      Dispatch → Surroundings → HttpRequest → Daemon → Daemon × Option HttpResponse
  unfolding new_router
  serve_request dispatch at req d = elim (dispatch (new_router true) req.method req.path) [
    | err reply ↦ (d, some reply)
    | ok (endpoint, id) ↦ respond endpoint id at req d
  ]
