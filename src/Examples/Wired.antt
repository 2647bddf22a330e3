-- ===== src/Examples/Wired.antt =====
-- client/client.go: `Run`, connected to a daemon that moves the command to the background.
use temenos.Base.{◌≡◌, refl, true, none, some, [], Bytes, codes, ok}
use temenos.Base.Int.{pos}
use temenos.Sandbox.Config.{zero_config}
use temenos.Client.{Client, Network, tcp_host, RunResponse, run}
use temenos.Client
use temenos.Client.Agreement.{replied}
use temenos.Client.Running.{answer, result_of, run-handle_run}
use temenos.Daemon.Jobs.{new_background_job}
use temenos.Daemon.Run
use temenos.Daemon.Run.{handle_run, background_response}
use temenos.Daemon.Http.{Body, response}
use temenos.Daemon.Http.Router.{new_router, decode_limited}
use temenos.Examples.Requests.{review_alice, guarded, listing, idle}
use temenos.Examples.Serving.{first_route, decode_listing, v1, quiet}

-- A wire format that carries the job of a response.
abbrev encode_job : Body → Bytes
encode_job (response resp) = resp.job_id
encode_job _ = []

abbrev of_job : Bytes → RunResponse
of_job id = record {
  stdout = [];
  stderr = [];
  exit_code = pos 0;
  stripped_env_keys = [];
  job_id = id;
  status = codes "background";
}

abbrev shown_response : Run.RunResponse → RunResponse
shown_response resp = of_job resp.job_id

abbrev asking : Client.RunRequest
asking = record {
  command = codes "ls";
  env = [];
  allowed_paths = [];
  network = none;
  timeout = pos 60;
  caller_id = codes "s";
  auth_token = codes "jwt";
}

abbrev line : Network
line = record {
  is_url = λ url. true;
  send = λ method url body.
      replied encode_job
        (answer review_alice guarded decode_listing v1 first_route quiet (codes "{}") idle);
}

abbrev remote : Client
remote = record { transport = tcp_host; base_url = codes "http://:8081" }

run-handle_run_example :
    run line (λ text. some (of_job text)) (λ req. some (codes "{}")) remote asking
    ≡ result_of encode_job shown_response (ok (background_response (codes "000001")))
unfolding new_background_job temenos.Daemon.Jobs.Ids.job_id
run-handle_run_example =
    run-handle_run review_alice guarded decode_listing v1 first_route quiet (codes "{}") idle line
      remote encode_job (λ text. some (of_job text)) (λ req. some (codes "{}")) shown_response
      asking listing [] (ok (background_response (codes "000001"))) refl refl refl
      (unfold first_route new_router in refl) (unfold decode_limited in refl) (λ resp. refl)
      (unfold handle_run zero_config background_response in refl)
