-- ===== src/Examples/Serving.antt =====
-- internal/daemon/socket.go: a router, and a request that it serves.
use temenos.Base.{
  ◌≡◌, refl, ap, ◌∙◌, inl, inr, ◌⊎◌, Bool, true, false, Option, none, some, List, [], ◌∷◌, ◌++◌,
  Bytes, codes, contains, trim_suffix, cut_prefix, bytes_eq, bytes_eq_iff, Memᴰ, Result, ok, err,
  Option-cases, Bool-cases, if◌then◌else◌, arith,
}
use temenos.Sandbox.Config.{matches_any, zero_config}
use temenos.Daemon.Http.{HttpResponse, write_json, message}
use temenos.Daemon.Http.Router.{
  Method, get, post, delete, Endpoint, Route, Dispatch, Decode, HttpRequest, Surroundings, Build,
  serve_request,
}
use temenos.Daemon.Http.Served.{Fits, IsChi, IsLaunched, serve_request-launched}
use temenos.Examples.Requests.{review_alice, guarded, listing, idle, morning}

abbrev nothing_here : HttpResponse
nothing_here = write_json 404 (message (codes "404 page not found"))

abbrev is_same : Method → Method → Bool
is_same get get = true
is_same post post = true
is_same delete delete = true
is_same _ _ = false

is_same-eq : (m n : Method) → is_same m n ≡ true → m ≡ n
is_same-eq get get h = refl
is_same-eq get post h = cc
is_same-eq get delete h = cc
is_same-eq post get h = cc
is_same-eq post post h = refl
is_same-eq post delete h = cc
is_same-eq delete get h = cc
is_same-eq delete post h = cc
is_same-eq delete delete h = refl

fit : Bytes → Bytes → Option Bytes
unfolding contains cut_prefix trim_suffix bytes_eq
fit pattern path =
    if contains (codes "{id}") pattern
    then cut_prefix (trim_suffix (codes "{id}") pattern) path
    else if bytes_eq path pattern
    then some []
    else none

cut_prefix-append : (p s r : Bytes) → cut_prefix p s ≡ some r → s ≡ p ++ r
unfolding cut_prefix
cut_prefix-append [] s r h = ground arith
cut_prefix-append (a ∷ p) [] r h = cc
cut_prefix-append (a ∷ p) (b ∷ s) r h = ground (arith, cut_prefix-append p s r)

fit-Fits : (pattern path id : Bytes) → fit pattern path ≡ some id → Fits pattern path id
unfolding fit contains trim_suffix
fit-Fits pattern path id h = elim (Bool-cases (contains (codes "{id}") pattern)) [
  | inl open_ ↦
      rw open_
        (cut_prefix-append (trim_suffix (codes "{id}") pattern) path id (rw (fit, open_) at h))
  | inr closed ↦ elim (Bool-cases (bytes_eq path pattern)) [
    | inl same ↦ rw closed ((bytes_eq_iff path pattern).0 same)
    | inr other ↦
        let no : ◌≡◌ {A = Option Bytes} none (some id) = rw (fit, closed, other) at h in cc
  ]
]

-- The first route that fits.
unfoldable pub first_route : Dispatch
unfolding fit
first_route [] method path = err nothing_here
first_route (r ∷ rs) method path =
    let rest = first_route rs method path in
    if is_same r.method method
    then elim (fit r.pattern path) as (λ _. Result HttpResponse (Endpoint × Bytes)) [
      | some id ↦ ok (r.endpoint, id)
      | none ↦ rest
    ]
    else rest

abbrev IsChosen : List Route → Method → Bytes → Endpoint → Bytes → Type 0
IsChosen routes method path endpoint id =
    (r : Route) × Memᴰ r routes
    × (r.method ≡ method)
    × (r.endpoint ≡ endpoint)
    × Fits r.pattern path id

IsChosen-more :
    (r : Route) (rs : List Route) (method : Method) (path : Bytes) (endpoint : Endpoint)
    (id : Bytes)
    → IsChosen rs method path endpoint id
    → IsChosen (r ∷ rs) method path endpoint id
IsChosen-more r rs method path endpoint id (s, known, m, e, fits) = (s, Memᴰ.tail known, m, e, fits)

first_route-IsChosen :
    (routes : List Route) (method : Method) (path : Bytes) (endpoint : Endpoint) (id : Bytes)
    → first_route routes method path ≡ ok (endpoint, id)
    → IsChosen routes method path endpoint id
unfolding first_route
first_route-IsChosen [] method path endpoint id h = cc
first_route-IsChosen (r ∷ rs) method path endpoint id h =
    elim (Bool-cases (is_same r.method method)) [
      | inr other ↦
          IsChosen-more r rs method path endpoint id
            (first_route-IsChosen rs method path endpoint id (rw other at h))
      | inl same ↦ elim (Option-cases (fit r.pattern path)) [
        | inl unfit ↦
            IsChosen-more r rs method path endpoint id
              (first_route-IsChosen rs method path endpoint id (rw (same, unfit) at h))
        | inr (param, fits) ↦
            let made : ◌≡◌ {A = Result HttpResponse (Endpoint × Bytes)} (ok (r.endpoint, param))
                (ok (endpoint, id)) =
              rw (same, fits) at h in
            let e : r.endpoint ≡ endpoint = cc in
            let i : param ≡ id = cc in
            (
              r,
              Memᴰ.head refl,
              is_same-eq r.method method same,
              e,
              fit-Fits r.pattern path id (fits ∙ ap (λ x. some x) i),
            )
      ]
    ]

first_route-IsChi : IsChi first_route
first_route-IsChi = record { chosen = first_route-IsChosen }

abbrev pub decode_listing : Decode
decode_listing body is_cut = ok listing

abbrev pub v1 : Build
v1 = record { version = codes "v1"; platform = codes "linux" }

abbrev pub quiet : Surroundings
quiet = record { run = morning; now = 1; others = λ m. m; others' = λ m. m }

abbrev pub posted : HttpRequest
posted = record { method = post; path = codes "/run"; query = λ name. []; body = codes "{}" }

serve_request-launched_example :
    ((serve_request review_alice guarded decode_listing v1 first_route quiet posted idle).0.launched
      ≡ [])
    ⊎ ((post ≡ post)
        × (codes "/run" ≡ codes "/run")
        × IsLaunched review_alice guarded decode_listing quiet posted idle
            (serve_request review_alice guarded decode_listing v1 first_route quiet posted idle).0)
serve_request-launched_example =
    serve_request-launched review_alice guarded decode_listing quiet posted idle v1 first_route
      first_route-IsChi (unfold matches_any zero_config in refl)
