-- ===== src/Examples/Tokens.antt =====
-- internal/auth, client: tokens and clients.
use temenos.Auth.{tick, sweep, new_token_cache}
use temenos.Auth.Uses.{validation, sweeping, uses-IsFresh}
use temenos.Base.{
  ℕ, ◌≤◌, ◌<◌, ◌≡◌, refl, true, none, some, [], ◌∷◌, ◌++◌, Bytes, codes, Result, ok, has_prefix,
}
use temenos.Base.Assoc.{lookup}
use temenos.Auth.{
  AuthError, TokenCache, cached_validate, Cluster, validate_token, HttpReply, token_review_path,
}
use temenos.Auth.Fresh.{IsFresh}
use temenos.Auth.Review.{Confirms, validate_token_sound}
use temenos.Sandbox.Config.{Host, absent}
use temenos.Daemon.Startup.{listen_addr, parse_listen_addr, unix, tcp}
use temenos.Client.{Client, Transport, unix_socket, tcp_host, new}
use temenos.Client.Agreement.{new-listen_addr}

abbrev says_bob : ℕ → Bytes → Result AuthError Bytes
says_bob t token = ok (codes "bob")

uses-IsFresh_example : IsFresh says_bob 300 100 101 (codes "t") (codes "bob")
unfolding lookup temenos.Auth.store temenos.Base.Assoc.insert
uses-IsFresh_example =
    uses-IsFresh says_bob 300 (validation 90 91 (codes "t") ∷ sweeping (tick 95 ∷ []) ∷ []) 100 101
      (codes "t") (codes "bob") (unfold cached_validate sweep new_token_cache in refl)

abbrev cluster : Cluster
cluster = record {
  ca_file = some (codes "pem");
  has_certificates = λ pem. true;
  token_file = some (codes "sa\n");
  is_url = λ url. true;
  encode_request = λ request. some request.token;
  post = λ url sa body. some (record { status = 201; body = codes "{}" });
  decode_review = λ body. some (record { authenticated = true; username = codes "bob" });
}

validate_token_sound_example :
    (sa_token : Bytes) × (body : Bytes) × (reply : HttpReply) × (some (codes "t") ≡ some body)
    × (cluster.post (codes "https://k" ++ token_review_path) sa_token body ≡ some reply)
    × (200 ≤ reply.status)
    × (reply.status < 300)
    × Confirms cluster reply (codes "bob")
validate_token_sound_example =
    validate_token_sound cluster (codes "t") (codes "https://k") (codes "bob")
      (unfold validate_token in refl)

-- A process with a listen address in its environment, and nothing else.
abbrev served : Bytes → Host
served addr = record {
  getenv = λ name. addr;
  user_home_dir = none;
  current_user_home = none;
  stat = λ path. absent;
  decode_toml = λ text. none;
}

abbrev tcp_addr : Bytes
tcp_addr = codes "127.0.0.1:9090"

new-listen_addr_example :
    (c : Client) × (new (served tcp_addr) [] ≡ ok c)
    × (c.transport ≡ elim (parse_listen_addr tcp_addr) as (λ _. Transport) [
      | unix ↦ unix_socket tcp_addr
      | tcp ↦ tcp_host
    ])
    × (c.base_url ≡ elim (parse_listen_addr tcp_addr) as (λ _. Bytes) [
      | unix ↦ codes "http://temenos"
      | tcp ↦ codes "http://" ++ tcp_addr
    ])
unfolding has_prefix
new-listen_addr_example =
    new-listen_addr (served tcp_addr) tcp_addr (unfold listen_addr in refl) refl refl
