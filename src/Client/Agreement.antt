-- ===== src/Client/Agreement.antt =====
-- client/client.go, internal/daemon: that the client and the daemon mean the same.
use temenos.Base.{
  ℕ, ◌≡◌, refl, ap, ◌∙◌, ◌⊎◌, inl, inr, true, false, ◌||◌, Option, none, some, [], ◌++◌, Bytes,
  codes, has_prefix, Result, ok, err, Bool-cases, arith,
}
use temenos.Base.Assoc.{lookup}
use temenos.Sandbox.Config.{Host}
use temenos.Daemon.Jobs.{JobManager}
use temenos.Daemon.Http.{Body, HttpResponse, handle_job_kill}
use temenos.Daemon.Http.Kills.{handle_job_kill_alone}
use temenos.Daemon.Startup.{listen_addr, parse_listen_addr, Network, unix, tcp}
use temenos.Client.{
  Client, ClientError, Transport, unix_socket, tcp_host, Reply, no_home, http_status, job_not_found,
  job_already_completed, resolve_addr, new_at, new, read_killed, read_ok, decoded,
}

-- The client's view of the daemon's address.
abbrev pub address_of : Option Bytes → Result ClientError Bytes
address_of none = err no_home
address_of (some addr) = ok addr

resolve_addr_agrees : (host : Host) → resolve_addr host ≡ address_of (listen_addr host)
unfolding resolve_addr listen_addr temenos.Daemon.Startup.default_socket_path
    temenos.Client.default_socket_path
resolve_addr_agrees host = ground arith

transport_of : Bytes → Transport
transport_of addr = elim (parse_listen_addr addr) [ unix ↦ unix_socket addr | tcp ↦ tcp_host ]

base_url_of : Bytes → Bytes
base_url_of addr = elim (parse_listen_addr addr) [
  | unix ↦ codes "http://temenos"
  | tcp ↦ codes "http://" ++ addr
]

new_at-transport :
    (addr : Bytes)
    → has_prefix (codes "https://") addr ≡ false
    → has_prefix (codes "http://") addr ≡ false
    → (c : Client) × (new_at addr ≡ ok c)
      × (c.transport ≡ transport_of addr)
      × (c.base_url ≡ base_url_of addr)
unfolding new_at transport_of base_url_of parse_listen_addr
new_at-transport addr secure plain =
    elim (Bool-cases (has_prefix (codes "/") addr || has_prefix (codes ".") addr)) [
      | inl path ↦ (
        record { transport = unix_socket addr; base_url = codes "http://temenos" },
        rw (secure, plain, path) refl,
        rw path refl,
        rw path refl,
      )
      | inr host ↦ (
        record { transport = tcp_host; base_url = codes "http://" ++ addr },
        rw (secure, plain, host) refl,
        rw host refl,
        rw host refl,
      )
    ]

-- A client that is given no address connects to where a daemon in the same environment listens, unless
-- the address is a URL: to its socket if it listens on one, and otherwise by TCP to the host and
-- port of its URLs, which is the address of the daemon.
pub new-listen_addr :
    (host : Host) (addr : Bytes)
    → listen_addr host ≡ some addr
    → has_prefix (codes "https://") addr ≡ false
    → has_prefix (codes "http://") addr ≡ false
    → (c : Client) × (new host [] ≡ ok c)
      × (c.transport ≡ elim (parse_listen_addr addr) as (λ _. Transport) [
        | unix ↦ unix_socket addr
        | tcp ↦ tcp_host
      ])
      × (c.base_url ≡ elim (parse_listen_addr addr) as (λ _. Bytes) [
        | unix ↦ codes "http://temenos"
        | tcp ↦ codes "http://" ++ addr
      ])
unfolding new transport_of base_url_of
new-listen_addr host addr listens secure plain =
    let same : resolve_addr host ≡ ok addr = resolve_addr_agrees host ∙ ap address_of listens in
    let (c, made, way, url) = new_at-transport addr secure plain in
    (
      c,
      ap
            (λ (r : Result ClientError Bytes). elim r as (λ _. Result ClientError Client) [
              | err e ↦ err e
              | ok a ↦ new_at a
            ])
            same
          ∙ made,
      way,
      url,
    )

pub read_killed-200 :
    {A : Type 0} (decode : Bytes → Option A) (id : Bytes) (r : Reply)
    → r.status ≡ 200
    → read_killed decode id r ≡ decoded (decode r.body)
unfolding read_killed read_ok
read_killed-200 decode id r h = ground arith

-- The reply of the daemon as the client gets it, by an encoding of the bodies.
abbrev pub sent : (Body → Bytes) → HttpResponse → Reply
sent encode r = record { status = r.status; body = encode r.body }

-- What comes back from the daemon, if it comes back.
abbrev pub replied : (Body → Bytes) → Option HttpResponse → Option Reply
replied encode none = none
replied encode (some r) = some (sent encode r)

-- `KillJob` against the daemon's handler, if no one else acts on the registry: the client says that
-- the job is not there exactly if it is not registered, that it has completed exactly if it is done,
-- and otherwise, with the job cancelled, it returns what the body decodes to.
read_killed-handle_job_kill :
    {A : Type 0} (encode : Body → Bytes) (decode : Bytes → Option A) (now : ℕ) (id : Bytes)
    (m : JobManager)
    → let (m', reply) = handle_job_kill now (λ x. x) (λ x. x) id m in
      ((lookup id m.jobs ≡ none)
        × (read_killed decode id (sent encode reply) ≡ err (job_not_found id)))
      ⊎ ((a : ℕ) × (lookup id m.jobs ≡ some a)
          × ((((m.heap a).done ≡ true)
                × (read_killed decode id (sent encode reply) ≡ err (job_already_completed id)))
              ⊎ (((m.heap a).done ≡ false)
                  × ((m'.heap a).cancelled ≡ true)
                  × (read_killed decode id (sent encode reply)
                      ≡ decoded (decode (encode reply.body))))))
unfolding read_killed read_ok
read_killed-handle_job_kill encode decode now id m = elim (handle_job_kill_alone now id m) [
  | inl (absent, same) ↦
      inl (
        absent,
        ap (λ (x : JobManager × HttpResponse). read_killed decode id (sent encode x.1)) same,
      )
  | inr (a, found, inl (over, same)) ↦ inr (
    a,
    found,
    inl (
      over,
      ap (λ (x : JobManager × HttpResponse). read_killed decode id (sent encode x.1)) same,
    ),
  )
  | inr (a, found, inr (busy, shown, body, cancelled, kept)) ↦
      inr (a, found, inr (busy, cancelled, read_killed-200 decode id (sent encode _) shown))
]
