-- ===== src/Cli/JobKill.antt =====
-- internal/cli/job.go, client/client.go, internal/daemon/handler.go: `temenos job kill`, from the
-- command line to the registry and back.
use mathlib.Core.Path.{subst}
use temenos.Base.{
  ℕ, ◌≡◌, refl, sym, ap, ◌∙◌, ◌⊎◌, inl, inr, true, false, Option, none, some, [], ◌∷◌, ◌++◌, Bytes,
  codes, Result, ok, err,
}
use temenos.Base.Assoc.{lookup}
use temenos.Sandbox.Config.{Config}
use temenos.Sandbox.Cgroup.{Package}
use temenos.Client.{
  Client, ClientError, Reply, job_not_found, job_already_completed, read_killed, decoded,
}
use temenos.Client
use temenos.Client.Commands.{Job}
use temenos.Client.Commands
use temenos.Client.Agreement.{replied, sent, read_killed-200}
use temenos.Daemon.Jobs.{JobInfo, JobManager, snapshot}
use temenos.Daemon.Run.{Daemon, Review, Circumstances}
use temenos.Daemon.Http.{Body, HttpResponse, not_found, already_completed, job, handle_job_kill}
use temenos.Daemon.Http.Kills.{handle_job_kill_alone}
use temenos.Daemon.Http.Router.{
  Dispatch, Decode, Build, Surroundings, HttpRequest, delete, new_router, on_job_kill, respond,
  with_manager, serve_request,
}
use temenos.Cli.{
  Surface, Flags, Exit, prints, client_failed, job_kill, main, exit_of, execute, run_command,
  run_job_kill, accepts, of_client, with_client,
}

abbrev pub job_path : Bytes → Bytes
job_path id = codes "/jobs/" ++ id

abbrev pub job_url : Client → Bytes → Bytes
job_url c id = c.base_url ++ codes "/jobs/" ++ id

kill_job-reply :
    (net : Client.Network) (decode : Bytes → Option Job) (c : Client) (id : Bytes) (r : Reply)
    → net.is_url (job_url c id) ≡ true
    → net.send (codes "DELETE") (job_url c id) [] ≡ some r
    → Client.kill_job net decode c id ≡ read_killed decode id r
unfolding Client.kill_job Client.request
kill_job-reply net decode c id r url answered = rw (url, answered) refl

module _ (sys : Surface) (c : Client) (flags : Flags) (id : Bytes)
    (p : Package sys.kernel.State) where
  abbrev pub killing : Exit
  killing = (main sys (record { command = job_kill; flags = flags; args = id ∷ [] }) p).1

  -- The exit of the command, by what the client makes of the reply.
  abbrev exit_for : Result ClientError Job → Exit
  exit_for read = exit_of (of_client (Commands.job_kill read))

  killing-reply :
      (r : Reply)
      → Client.new sys.machine.host [] ≡ ok c
      → sys.network.is_url (job_url c id) ≡ true
      → sys.network.send (codes "DELETE") (job_url c id) [] ≡ some r
      → killing ≡ exit_for (read_killed sys.decode_job id r)
  unfolding main execute run_command run_job_kill accepts
  killing-reply r made url answered =
      ap (λ x. exit_for (with_client x (λ d. Client.kill_job sys.network sys.decode_job d id))) made
      ∙ ap exit_for (kill_job-reply sys.network sys.decode_job c id r url answered)

-- What the command prints of a job.
abbrev pub killed_line : Job → Bytes
killed_line j = codes "killed job " ++ (j.id ++ (codes " (" ++ (j.command ++ codes ")\n")))

-- The exits of the command, and what has become of the registry.
abbrev pub IsKilling : (JobInfo → Job) → ℕ → Bytes → JobManager → Exit → JobManager → Type 0
IsKilling shown now id m exit after =
    ((lookup id m.jobs ≡ none)
      × (exit.code ≡ 1)
      × (exit.stderr ≡ some (client_failed (job_not_found id)))
      × (after ≡ m))
    ⊎ ((a : ℕ) × (lookup id m.jobs ≡ some a)
        × ((((m.heap a).done ≡ true)
              × (exit.code ≡ 1)
              × (exit.stderr ≡ some (client_failed (job_already_completed id)))
              × (after ≡ m))
            ⊎ (((m.heap a).done ≡ false)
                × (exit.code ≡ 0)
                × (exit.effect ≡ prints (killed_line (shown (snapshot true now (m.heap a)).0)))
                × ((after.heap a).cancelled ≡ true)
                × (after.jobs ≡ m.jobs))))

-- Nobody else acts on the jobs.
abbrev pub alone : Circumstances → ℕ → Surroundings
alone run now = record { run = run; now = now; others = λ m. m; others' = λ m. m }

abbrev pub kill_request : Bytes → HttpRequest
kill_request id = record { method = delete; path = job_path id; query = λ name. []; body = [] }

module _ (review : Review) (cfg : Config) (decode : Decode) (build : Build) (dispatch : Dispatch)
    (run : Circumstances) (now : ℕ) (id : Bytes) (d : Daemon) where
  abbrev pub served : Daemon × Option HttpResponse
  served = serve_request review cfg decode build dispatch (alone run now) (kill_request id) d

  served-kill :
      dispatch (new_router true) delete (job_path id) ≡ ok (on_job_kill, id)
      → served ≡ with_manager d (handle_job_kill now (λ m. m) (λ m. m) id d.manager)
  unfolding serve_request respond
  served-kill routed = rw (serve_request, routed) refl

module _ (sys : Surface) (c : Client) (flags : Flags) (id : Bytes) (p : Package sys.kernel.State)
    (encode : Body → Bytes) (shown : JobInfo → Job) (now : ℕ) (m : JobManager) where
  -- What the daemon's reply and its registry come to.
  abbrev Comes : JobManager × HttpResponse → Type 0
  Comes x =
      IsKilling shown now id m
        (exit_for sys c flags id p (read_killed sys.decode_job id (sent encode x.1))) x.0

  read_killed-404 : read_killed sys.decode_job id (sent encode not_found) ≡ err (job_not_found id)
  unfolding read_killed
  read_killed-404 = refl

  read_killed-409 :
      read_killed sys.decode_job id (sent encode already_completed) ≡ err (job_already_completed id)
  unfolding read_killed
  read_killed-409 = refl

  handle_job_kill-Comes :
      ((info : JobInfo) → sys.decode_job (encode (job info)) ≡ some (shown info))
      → Comes (handle_job_kill now (λ x. x) (λ x. x) id m)
  unfolding Commands.job_kill
  handle_job_kill-Comes decodes = elim (handle_job_kill_alone now id m) [
    | inl (absent, same) ↦ subst Comes (sym same) (
        inl (
          absent,
          ap (λ x. (exit_for sys c flags id p x).code) read_killed-404,
          ap (λ x. (exit_for sys c flags id p x).stderr) read_killed-404,
          refl,
        ))
    | inr (a, found, inl (over, same)) ↦ subst Comes (sym same) (
        inr (
          a,
          found,
          inl (
            over,
            ap (λ x. (exit_for sys c flags id p x).code) read_killed-409,
            ap (λ x. (exit_for sys c flags id p x).stderr) read_killed-409,
            refl,
          ),
        ))
    | inr (a, found, inr (busy, fine, body, cancelled, kept)) ↦
        let reply = (handle_job_kill now (λ x. x) (λ x. x) id m).1 in
        let info = (snapshot true now (m.heap a)).0 in
        let reads : read_killed sys.decode_job id (sent encode reply) ≡ ok (shown info) =
          read_killed-200 sys.decode_job id (sent encode reply) fine
          ∙ (ap (λ b. decoded (sys.decode_job (encode b))) body ∙ ap decoded (decodes info)) in
        inr (
          a,
          found,
          inr (
            busy,
            ap (λ x. (exit_for sys c flags id p x).code) reads,
            ap (λ x. (exit_for sys c flags id p x).effect) reads,
            cancelled,
            kept,
          ),
        )
  ]

module _ (sys : Surface) (c : Client) (flags : Flags) (id : Bytes) (p : Package sys.kernel.State)
    (encode : Body → Bytes) (shown : JobInfo → Job) (now : ℕ) (d : Daemon) where
  -- `temenos job kill` with one identifier, where the client connects, the network carries the request
  -- to the daemon and its reply back, the router finds the handler, a job that is encoded decodes to
  -- what the client shows of it, and nobody else acts on the jobs meanwhile: for an unknown and for a
  -- done job the program exits with 1 and the error that says so, and the registry is unchanged. For
  -- any other it exits with 0 and prints the identifier and the command that the client shows of that job's
  -- snapshot, and that job is cancelled and stays registered.
  pub main-IsKilling :
      (review : Review) (cfg : Config) (decode : Decode) (build : Build) (dispatch : Dispatch)
      (run : Circumstances)
      → Client.new sys.machine.host [] ≡ ok c
      → sys.network.is_url (job_url c id) ≡ true
      → dispatch (new_router true) delete (job_path id) ≡ ok (on_job_kill, id)
      → sys.network.send (codes "DELETE") (job_url c id) []
        ≡ replied encode (served review cfg decode build dispatch run now id d).1
      → ((info : JobInfo) → sys.decode_job (encode (job info)) ≡ some (shown info))
      → IsKilling shown now id d.manager
          (killing sys c flags id p)
          (served review cfg decode build dispatch run now id d).0.manager
  main-IsKilling review cfg decode build dispatch run made url routed carried decodes =
      let killed = handle_job_kill now (λ m. m) (λ m. m) id d.manager in
      let state = served-kill review cfg decode build dispatch run now id d routed in
      let came = carried ∙ ap (λ (x : Daemon × Option HttpResponse). replied encode x.1) state in
      subst
        (λ x.
          IsKilling shown now id d.manager x
            (served review cfg decode build dispatch run now id d).0.manager)
        (sym (killing-reply sys c flags id p (sent encode killed.1) made url came))
        (subst
          (λ (y : Daemon × Option HttpResponse).
            IsKilling shown now id d.manager
              (exit_for sys c flags id p (read_killed sys.decode_job id (sent encode killed.1)))
              y.0.manager)
          (sym state) (handle_job_kill-Comes sys c flags id p encode shown now d.manager decodes))
