-- ===== src/Client/Running.antt =====
-- client/client.go, internal/daemon: `Run` of the client, to the run handler and back.

use temenos.Base.{
  ◌≡◌, refl, ap, ◌∙◌, inl, inr, true, false, Option, some, [], ◌++◌, ◌==◌, Bytes, codes, trim_space,
  Result, ok, err, arith,
}
use temenos.Sandbox.Config.{Config}
use temenos.Client.{
  Client, ClientError, http_status, Network, Reply, AllowedPath, RunResponse, read_ok, request,
  post_json, run,
}
use temenos.Client
use temenos.Daemon.Request
use temenos.Daemon.Run.{Review, HandlerError, Daemon, handle_run}
use temenos.Daemon.Run
use temenos.Daemon.Http.{
  Body, HttpResponse, response, write_json, error_response, handle_validating,
}
use temenos.Daemon.Http.Router.{
  Dispatch, Decode, Build, Surroundings, HttpRequest, post, new_router, on_run, decode_limited,
  handle_http_run, respond, serve_request,
}
use temenos.Daemon.Http.RunStatuses.{status_of, handle_run-error}
use temenos.Daemon.Http.Served.{serve_request-respond}
use temenos.Client.Agreement.{replied, sent}

-- The reply to what the handler returns.
abbrev reply_of : Result HandlerError Run.RunResponse → HttpResponse
reply_of (ok resp) = write_json 200 (response resp)
reply_of (err e) = error_response e

-- What the client makes of it.
abbrev pub result_of :
    (Body → Bytes)
    → (Run.RunResponse → RunResponse)
    → Result HandlerError Run.RunResponse
    → Result ClientError RunResponse
result_of encode shown (ok resp) = ok (shown resp)
result_of encode shown (err e) =
    err (http_status (status_of e) (trim_space (encode (error_response e).body)))

read_ok-200 :
    (decode : Bytes → Option RunResponse) (r : Reply) (resp : RunResponse)
    → r.status ≡ 200
    → decode r.body ≡ some resp
    → read_ok decode r ≡ ok resp
unfolding read_ok
read_ok-200 decode r resp fine decodes = ground arith

read_ok-failed :
    (decode : Bytes → Option RunResponse) (r : Reply)
    → (r.status == 200) ≡ false
    → read_ok decode r ≡ err (http_status r.status (trim_space r.body))
unfolding read_ok
read_ok-failed decode r bad = rw bad refl

post_json-reply :
    (net : Network) (decode : Bytes → Option RunResponse)
    (marshal : Client.RunRequest → Option Bytes) (c : Client) (req : Client.RunRequest)
    (body : Bytes) (r : Reply)
    → marshal req ≡ some body
    → net.is_url (c.base_url ++ codes "/run") ≡ true
    → net.send (codes "POST") (c.base_url ++ codes "/run") body ≡ some r
    → run net decode marshal c req ≡ read_ok decode r
unfolding run post_json request
post_json-reply net decode marshal c req body r made url answered =
    rw (run, post_json, made, url, answered) refl

module _ {Req : Type 0} {S : Type 0}
    (handle : Req → S → S × Option (Result HandlerError Run.RunResponse)) (req : Req) (s : S) where
  handle_validating-reply :
      (r : Result HandlerError Run.RunResponse)
      → (handle req s).1 ≡ some r
      → (handle_validating handle (ok req) s).1 ≡ some (reply_of r)
  unfolding handle_validating
  handle_validating-reply (ok resp) h = rw (handle_validating, h) refl
  handle_validating-reply (err e) h = rw (handle_validating, h) refl

module _ (review : Review) (cfg : Config) (decode : Decode) (build : Build) (dispatch : Dispatch)
    (at : Surroundings) (body : Bytes) (d : Daemon) where
  abbrev pub run_request : HttpRequest
  run_request = record { method = post; path = codes "/run"; query = λ name. []; body = body }

  abbrev pub answer : Option HttpResponse
  answer = (serve_request review cfg decode build dispatch at run_request d).1

  handle_http_run-reply :
      (asked : Request.RunRequest) (r : Result HandlerError Run.RunResponse)
      → decode_limited decode body ≡ ok asked
      → (handle_run review cfg at.run asked d).1 ≡ some r
      → (handle_http_run review cfg decode build at run_request d).1 ≡ some (reply_of r)
  unfolding handle_http_run
  handle_http_run-reply asked r decoded replies =
      rw (handle_http_run, decoded)
        (handle_validating-reply (handle_run review cfg at.run) asked d r replies)

  answer-reply :
      (id : Bytes) (asked : Request.RunRequest) (r : Result HandlerError Run.RunResponse)
      → dispatch (new_router true) post (codes "/run") ≡ ok (on_run, id)
      → decode_limited decode body ≡ ok asked
      → (handle_run review cfg at.run asked d).1 ≡ some r
      → answer ≡ some (reply_of r)
  unfolding respond
  answer-reply id asked r routed decoded replies =
      ap (λ (x : Daemon × Option HttpResponse). x.1)
        (serve_request-respond review cfg decode at run_request d build dispatch on_run id routed)
      ∙ handle_http_run-reply asked r decoded replies

  -- No error is sent with the status 200.
  error-status :
      (asked : Request.RunRequest) (e : HandlerError)
      → (handle_run review cfg at.run asked d).1 ≡ some (err e)
      → (status_of e == 200) ≡ false
  error-status asked e failed = elim (handle_run-error review cfg at.run asked d e failed) [
    | inl (same, inl (refused, inl (missing, status))) ↦ rw status refl
    | inl (same, inl (refused, inr (given, status))) ↦ rw status refl
    | inl (same, inr (granted, inl (bad, status))) ↦ rw status refl
    | inl (same, inr (granted, inr (bad, status))) ↦ rw status refl
    | inr (granted, started, status) ↦ rw status refl
  ]

  read_answer :
      (encode : Body → Bytes) (decode_reply : Bytes → Option RunResponse)
      (shown : Run.RunResponse → RunResponse) (asked : Request.RunRequest)
      (r : Result HandlerError Run.RunResponse)
      → ((resp : Run.RunResponse) → decode_reply (encode (response resp)) ≡ some (shown resp))
      → (handle_run review cfg at.run asked d).1 ≡ some r
      → read_ok decode_reply (sent encode (reply_of r)) ≡ result_of encode shown r
  read_answer encode decode_reply shown asked (ok resp) decodes replies =
      read_ok-200 decode_reply (sent encode (reply_of (ok resp))) (shown resp) refl (decodes resp)
  read_answer encode decode_reply shown asked (err e) decodes replies =
      read_ok-failed decode_reply (sent encode (reply_of (err e))) (error-status asked e replies)

  -- `Run` of a client, where the network carries the request to the daemon and its reply back, the
  -- router finds the handler, and each side decodes what the other has encoded: if the handler returns
  -- a response, so does `Run`, and if it returns an error, `Run` returns its status and text.
  pub run-handle_run :
      (net : Network) (c : Client) (encode : Body → Bytes)
      (decode_reply : Bytes → Option RunResponse) (marshal : Client.RunRequest → Option Bytes)
      (shown : Run.RunResponse → RunResponse) (req : Client.RunRequest) (asked : Request.RunRequest)
      (id : Bytes) (r : Result HandlerError Run.RunResponse)
      → marshal req ≡ some body
      → net.is_url (c.base_url ++ codes "/run") ≡ true
      → net.send (codes "POST") (c.base_url ++ codes "/run") body ≡ replied encode answer
      → dispatch (new_router true) post (codes "/run") ≡ ok (on_run, id)
      → decode_limited decode body ≡ ok asked
      → ((resp : Run.RunResponse) → decode_reply (encode (response resp)) ≡ some (shown resp))
      → (handle_run review cfg at.run asked d).1 ≡ some r
      → run net decode_reply marshal c req ≡ result_of encode shown r
  run-handle_run net c encode decode_reply marshal shown req asked id r made url carried routed
        decoded decodes replies =
      let came = carried ∙ ap (replied encode) (answer-reply id asked r routed decoded replies) in
      post_json-reply net decode_reply marshal c req body (sent encode (reply_of r)) made url came
      ∙ read_answer encode decode_reply shown asked r decodes replies
