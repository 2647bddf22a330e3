-- ===== src/Daemon/Http/Served.antt =====
-- internal/daemon/socket.go, internal/daemon/handler.go: which requests start an execution.
use mathlib.Core.Path.{subst}
use temenos.Base.{
  ◌≡◌, refl, sym, ap, ◌∙◌, inl, inr, ◌⊎◌, true, false, Option, none, some, List, ◌∷◌, ◌++◌, Bytes,
  codes, contains, trim_suffix, has_prefix, All, All-mem, Memᴰ, Result, ok, err, Result-cases,
  Option-cases, if◌then◌else◌,
}
use temenos.Sandbox.Config.{Config, matches_any}
use temenos.Daemon.Request.{RunRequest, ExecConfig}
use temenos.Daemon.Run.{Review, Daemon, handle_run, HandlerError, RunResponse}
use temenos.Daemon.Run.Launching.{asked_for, launch_of}
use temenos.Daemon.Run.Handled.{IsConfined, handle_run_launches}
use temenos.Daemon.Http.{HttpResponse, handle_validating}
use temenos.Daemon.Http.Router.{
  Method, get, post, delete, Endpoint, on_run, on_health, on_job_list, on_job_get, on_job_kill,
  Route, new_router, Dispatch, Decode, decode_limited, HttpRequest, Surroundings, Build,
  handle_http_run, respond, serve_request,
}

abbrev placeholder : Bytes
placeholder = codes "{id}"

-- A pattern that ends in the placeholder fits the paths that go on with the parameter behind it; any
-- other pattern fits itself.
abbrev pub Fits : Bytes → Bytes → Bytes → Type 0
unfolding contains trim_suffix
Fits pattern path id =
    if contains placeholder pattern
    then path ≡ trim_suffix placeholder pattern ++ id
    else path ≡ pattern

-- What chi documents of its choice: the handler is that of a route for the method that fits the path.
pub record IsChi (dispatch : Dispatch) : Type 0 where
  pub chosen :
      (routes : List Route) (method : Method) (path : Bytes) (endpoint : Endpoint) (id : Bytes)
      → dispatch routes method path ≡ ok (endpoint, id)
      → (r : Route) × Memᴰ r routes
        × (r.method ≡ method)
        × (r.endpoint ≡ endpoint)
        × Fits r.pattern path id

-- The method and the pattern of each handler.
abbrev method_of : Endpoint → Method
method_of on_run = post
method_of on_health = get
method_of on_job_list = get
method_of on_job_get = get
method_of on_job_kill = delete

abbrev pattern_of : Endpoint → Bytes
pattern_of on_run = codes "/run"
pattern_of on_health = codes "/health"
pattern_of on_job_list = codes "/jobs"
pattern_of on_job_get = codes "/jobs/{id}"
pattern_of on_job_kill = codes "/jobs/{id}"

new_router_routes :
    All
      (λ (r : Route). (r.method ≡ method_of r.endpoint) × (r.pattern ≡ pattern_of r.endpoint))
      (new_router true)
unfolding new_router
new_router_routes =
    ((refl, refl), ((refl, refl), ((refl, refl), ((refl, refl), ((refl, refl), tt)))))

-- A handler is reached by its method, and by the paths that its pattern fits.
dispatch_lem :
    (dispatch : Dispatch) (method : Method) (path : Bytes) (endpoint : Endpoint) (id : Bytes)
    → IsChi dispatch
    → dispatch (new_router true) method path ≡ ok (endpoint, id)
    → (method ≡ method_of endpoint) × Fits (pattern_of endpoint) path id
dispatch_lem dispatch method path endpoint id chi h =
    let (r, known, m, e, fits) = chi.chosen (new_router true) method path endpoint id h in
    let (rm, rp) =
      All-mem
        (λ (r : Route). (r.method ≡ method_of r.endpoint) × (r.pattern ≡ pattern_of r.endpoint))
        known new_router_routes in
    (sym m ∙ (rm ∙ ap method_of e), subst (λ p. Fits p path id) (rp ∙ ap pattern_of e) fits)

module _ {Req : Type 0} {S : Type 0}
    (handle : Req → S → S × Option (Result HandlerError RunResponse)) (req : Req) (s : S) where
  -- The state behind `handleHTTPValidating` is that of the handler.
  handle_validating-state : (handle_validating handle (ok req) s).0 ≡ (handle req s).0
  unfolding handle_validating
  handle_validating-state = elim (Option-cases (handle req s).1) [
    | inl open_ ↦ rw (handle_validating, open_) refl
    | inr (r, replied) ↦ elim (Result-cases r) [
      | inl (resp, e) ↦ rw (handle_validating, replied ∙ ap (λ x. some x) e) refl
      | inr (wrong, e) ↦ rw (handle_validating, replied ∙ ap (λ x. some x) e) refl
    ]
  ]

module _ (review : Review) (cfg : Config) (decode : Decode) (at : Surroundings) (req : HttpRequest)
    (d : Daemon) where
  -- The body asks for an execution that is authorized and confined, and it is started.
  abbrev pub IsLaunched : Daemon → Type 0
  IsLaunched after =
      (asked : RunRequest) × (decode_limited decode req.body ≡ ok asked)
      × ((asked_for review cfg at.run asked d).1 ≡ none)
      × (x : ExecConfig) × IsConfined cfg at.run.temp_dir asked x
      × (after.launched ≡ launch_of cfg asked x d.next ∷ d.launched)

  abbrev Launches : Daemon → Type 0
  Launches after = (after.launched ≡ d.launched) ⊎ IsLaunched after

  handled-Launches :
      (asked : RunRequest)
      → decode_limited decode req.body ≡ ok asked
      → matches_any cfg.allow_env (codes "PATH") ≡ false
      → Launches (handle_run review cfg at.run asked d).0
  handled-Launches asked decoded closed =
      elim (handle_run_launches review cfg at.run asked d closed) [
        | inl (same, jobs, replied) ↦ inl same
        | inr (granted, (x, confined, launched)) ↦
            inr (asked, decoded, granted, x, confined, launched)
      ]

  handle_http_run-state :
      (build : Build) (asked : RunRequest)
      → decode_limited decode req.body ≡ ok asked
      → (handle_http_run review cfg decode build at req d).0
        ≡ (handle_run review cfg at.run asked d).0
  unfolding handle_http_run
  handle_http_run-state build asked good =
      rw (handle_http_run, good) (handle_validating-state (handle_run review cfg at.run) asked d)

  handle_http_run-bad :
      (build : Build) (text : Bytes)
      → decode_limited decode req.body ≡ err text
      → (handle_http_run review cfg decode build at req d).0 ≡ d
  unfolding handle_http_run handle_validating
  handle_http_run-bad build text bad = rw (handle_http_run, bad) refl

  handle_http_run-Launches :
      (build : Build)
      → matches_any cfg.allow_env (codes "PATH") ≡ false
      → Launches (handle_http_run review cfg decode build at req d).0
  handle_http_run-Launches build closed = elim (Result-cases (decode_limited decode req.body)) [
    | inr (text, bad) ↦ inl (ap (λ (e : Daemon). e.launched) (handle_http_run-bad build text bad))
    | inl (asked, good) ↦
        subst (λ (e : Daemon). Launches e) (sym (handle_http_run-state build asked good))
          (handled-Launches asked good closed)
  ]

  abbrev Starts : Daemon → Type 0
  Starts after =
      (after.launched ≡ d.launched)
      ⊎ ((req.method ≡ post) × (req.path ≡ codes "/run") × IsLaunched after)

  as_run :
      (after : Daemon) → req.method ≡ post → req.path ≡ codes "/run" → Launches after → Starts after
  as_run after m p (inl same) = inl same
  as_run after m p (inr launched) = inr (m, p, launched)

  respond-Starts :
      (build : Build) (endpoint : Endpoint) (id : Bytes)
      → matches_any cfg.allow_env (codes "PATH") ≡ false
      → req.method ≡ method_of endpoint
      → Fits (pattern_of endpoint) req.path id
      → Starts (respond review cfg decode build endpoint id at req d).0
  unfolding respond contains trim_suffix has_prefix
  respond-Starts build on_run id closed m fits =
      as_run (handle_http_run review cfg decode build at req d).0 m fits
        (handle_http_run-Launches build closed)
  respond-Starts build on_health id closed m fits = inl refl
  respond-Starts build on_job_list id closed m fits = inl refl
  respond-Starts build on_job_get id closed m fits = inl refl
  respond-Starts build on_job_kill id closed m fits = inl refl

  pub serve_request-respond :
      (build : Build) (dispatch : Dispatch) (endpoint : Endpoint) (id : Bytes)
      → dispatch (new_router true) req.method req.path ≡ ok (endpoint, id)
      → serve_request review cfg decode build dispatch at req d
        ≡ respond review cfg decode build endpoint id at req d
  unfolding serve_request
  serve_request-respond build dispatch endpoint id found = rw (serve_request, found) refl

  -- Where the router chooses as chi documents it and no pattern of the operator lets the key PATH
  -- through: a request starts nothing, or it is a POST of /run whose body, of which at most a megabyte
  -- is read, decodes to an authorized request, and the daemon starts one confined execution for it.
  pub serve_request-launched :
      (build : Build) (dispatch : Dispatch)
      → IsChi dispatch
      → matches_any cfg.allow_env (codes "PATH") ≡ false
      → ((serve_request review cfg decode build dispatch at req d).0.launched ≡ d.launched)
        ⊎ ((req.method ≡ post)
            × (req.path ≡ codes "/run")
            × IsLaunched (serve_request review cfg decode build dispatch at req d).0)
  unfolding serve_request
  serve_request-launched build dispatch chi closed =
      elim (Result-cases (dispatch (new_router true) req.method req.path)) [
        | inr (reply, alone) ↦ inl (rw (serve_request, alone) refl)
        | inl ((endpoint, id), found) ↦
            let (m, fits) = dispatch_lem dispatch req.method req.path endpoint id chi found in
            subst (λ (r : Daemon × Option HttpResponse). Starts r.0)
              (sym (serve_request-respond build dispatch endpoint id found))
              (respond-Starts build endpoint id closed m fits)
      ]
