-- ===== src/Client.antt =====
-- client/client.go: the client of the daemon.
pub mod Agreement
pub mod Commands
pub mod Running
use temenos.Base.{
  ℕ, Bool, true, false, not, ◌||◌, Option, none, some, List, [], ◌∷◌, ◌++◌, ◌==◌, if◌then◌else◌,
  Bytes, codes, is_empty, has_prefix, trim_suffix, trim_space, join, Result, ok, err,
}
use temenos.Base.Int.{ℤ}
use temenos.FilePath.{join_path}
use temenos.Sandbox.Config.{Host}

-- An error of the client; texts that only decorate it are left out.
pub data ClientError : Type 0 where
  no_home https_unsupported marshal_failed no_request unreachable decode_failed : ClientError
  http_status : ℕ → Bytes → ClientError
  job_not_found job_already_completed : Bytes → ClientError

-- Where the connections go: to a socket, or, with the default transport, to the host and port that the
-- URL of a request names.
pub data Transport : Type 0 where
  unix_socket : Bytes → Transport
  tcp_host : Transport

pub record Client : Type 0 where
  pub transport : Transport
  pub base_url : Bytes

unfoldable pub default_socket_path : Host → Result ClientError Bytes
unfolding join_path
default_socket_path host =
    let p = host.getenv (codes "TEMENOS_SOCKET_PATH") in
    if not (is_empty p) then ok p else elim host.user_home_dir [
      | none ↦ err no_home
      | some home ↦ ok (join_path (home ∷ codes ".temenos" ∷ codes "daemon.sock" ∷ []))
    ]

unfoldable pub resolve_addr : Host → Result ClientError Bytes
unfolding default_socket_path
resolve_addr host =
    let addr = host.getenv (codes "TEMENOS_LISTEN_ADDR") in
    if not (is_empty addr) then ok addr else default_socket_path host

-- `New` from the resolved address on.
unfoldable pub new_at : Bytes → Result ClientError Client
unfolding has_prefix trim_suffix
new_at addr =
    if has_prefix (codes "https://") addr
    then err https_unsupported
    else if has_prefix (codes "http://") addr
    then ok (record { transport = tcp_host; base_url = trim_suffix (codes "/") addr })
    else if has_prefix (codes "/") addr || has_prefix (codes ".") addr
    then ok (record { transport = unix_socket addr; base_url = codes "http://temenos" })
    else ok (record { transport = tcp_host; base_url = codes "http://" ++ addr })

-- `New`
unfoldable pub new : Host → Bytes → Result ClientError Client
unfolding resolve_addr new_at
new host [] = elim (resolve_addr host) [ err e ↦ err e | ok addr ↦ new_at addr ]
new host (c ∷ addr) = new_at (c ∷ addr)

-- `AllowedPath`, `RunRequest` and `RunResponse` of the client; a pointer that may be nil is an option.
pub record AllowedPath : Type 0 where
  pub path : Bytes
  pub read_only : Bool

pub record RunRequest : Type 0 where
  pub command : Bytes
  pub env : List (Bytes × Bytes)
  pub allowed_paths : List AllowedPath
  pub network : Option Bool
  pub timeout : ℤ
  pub caller_id : Bytes
  pub auth_token : Bytes

pub record RunResponse : Type 0 where
  pub stdout : Bytes
  pub stderr : Bytes
  pub exit_code : ℤ
  pub stripped_env_keys : List Bytes
  pub job_id : Bytes
  pub status : Bytes

pub record Reply : Type 0 where
  pub status : ℕ
  pub body : Bytes

-- The standard library's HTTP client: method, URL and body to what comes back. `is_url` says that a
-- request can be built.
pub record Network : Type 0 where
  pub is_url : Bytes → Bool
  pub send : Bytes → Bytes → Bytes → Option Reply

unfoldable pub request : Network → Bytes → Bytes → Bytes → Result ClientError Reply
request net method url body =
    if not (net.is_url url)
    then err no_request
    else elim (net.send method url body) [ none ↦ err unreachable | some r ↦ ok r ]

-- The answer behind the status checks, by the JSON decoder.
abbrev pub decoded {ℓ} : {A : Type ℓ} → Option A → Result ClientError A
decoded none = err decode_failed
decoded (some a) = ok a

unfoldable pub read_ok {ℓ} : {A : Type ℓ} → (Bytes → Option A) → Reply → Result ClientError A
unfolding trim_space
read_ok decode r =
    if not (r.status == 200)
    then err (http_status r.status (trim_space r.body))
    else decoded (decode r.body)

-- What `GetJob` and `KillJob` make of a reply.
unfoldable pub read_job {ℓ} :
    {A : Type ℓ} → (Bytes → Option A) → Bytes → Reply → Result ClientError A
unfolding read_ok
read_job decode id r = if r.status == 404 then err (job_not_found id) else read_ok decode r

unfoldable pub read_killed {ℓ} :
    {A : Type ℓ} → (Bytes → Option A) → Bytes → Reply → Result ClientError A
unfolding read_ok
read_killed decode id r =
    if r.status == 404
    then err (job_not_found id)
    else if r.status == 409
    then err (job_already_completed id)
    else read_ok decode r

abbrev and_then {ℓ} :
    {A : Type ℓ} → Result ClientError Reply → (Reply → Result ClientError A) → Result ClientError A
and_then (err e) f = err e
and_then (ok r) f = f r

unfoldable pub with_params : Bytes → List Bytes → Bytes
unfolding join
with_params url [] = url
with_params url (p ∷ ps) = url ++ codes "?" ++ join b'&' (p ∷ ps)

-- `Health`
unfoldable pub health : Network → Client → Option ClientError
unfolding request
health net c = elim (request net (codes "GET") (c.base_url ++ codes "/health") []) [
  | err e ↦ some e
  | ok r ↦ if not (r.status == 200) then some (http_status r.status []) else none
]

module _ {ℓ} {A : Type ℓ} (net : Network) (decode : Bytes → Option A) (c : Client) where
  -- `postJSON`, by the JSON encoder of the request.
  unfoldable pub post_json {κ} :
      {Req : Type κ} → (Req → Option Bytes) → Bytes → Req → Result ClientError A
  unfolding request read_ok
  post_json marshal path req = elim (marshal req) [
    | none ↦ err marshal_failed
    | some body ↦ and_then (request net (codes "POST") (c.base_url ++ path) body) (read_ok decode)
  ]

  unfoldable pub list_url : Bytes → Bytes → Bytes
  unfolding with_params
  list_url caller_id status =
      let url = c.base_url ++ codes "/jobs" in
      let params =
        (if not (is_empty caller_id) then (codes "caller_id=" ++ caller_id) ∷ [] else [])
        ++ (if not (is_empty status) then (codes "status=" ++ status) ∷ [] else []) in
      with_params url params

  unfoldable pub list_jobs : Bytes → Bytes → Result ClientError A
  unfolding request read_ok list_url
  list_jobs caller_id status =
      and_then (request net (codes "GET") (list_url caller_id status) []) (read_ok decode)

  unfoldable pub get_job : Bytes → Result ClientError A
  unfolding request read_job
  get_job id =
      and_then (request net (codes "GET") (c.base_url ++ codes "/jobs/" ++ id) [])
        (read_job decode id)

  unfoldable pub kill_job : Bytes → Result ClientError A
  unfolding request read_killed
  kill_job id =
      and_then (request net (codes "DELETE") (c.base_url ++ codes "/jobs/" ++ id) [])
        (read_killed decode id)

-- `Run`
unfoldable pub run :
    Network
    → (Bytes → Option RunResponse)
    → (RunRequest → Option Bytes)
    → Client
    → RunRequest
    → Result ClientError RunResponse
unfolding post_json
run net decode marshal c req = post_json net decode c marshal (codes "/run") req
