-- ===== src/Daemon/Startup.antt =====
-- internal/daemon/daemon.go, internal/daemon/socket.go: the daemon's address, and the configuration
-- that it starts with.
pub mod Service
pub mod Limited
use temenos.Base.{
  ℕ, not, ◌&&◌, ◌||◌, Option, none, some, [], ◌∷◌, if◌then◌else◌, Bytes, codes, is_empty,
  has_prefix, Result, ok, err,
}
use temenos.FilePath.{join_path}
use temenos.Sandbox.Config.{Config, ConfigError, Host, zero_config}
use temenos.Auth.{TokenCache, new_token_cache}

-- `DefaultSocketPath`
unfoldable pub default_socket_path : Host → Option Bytes
unfolding join_path
default_socket_path host =
    let p = host.getenv (codes "TEMENOS_SOCKET_PATH") in
    if not (is_empty p) then some p else elim host.user_home_dir [
      | none ↦ none
      | some home ↦ some (join_path (home ∷ codes ".temenos" ∷ codes "daemon.sock" ∷ []))
    ]

unfoldable pub listen_addr : Host → Option Bytes
unfolding default_socket_path
listen_addr host =
    let addr = host.getenv (codes "TEMENOS_LISTEN_ADDR") in
    if not (is_empty addr) then some addr else default_socket_path host

pub data Network : Type 0 where
  unix tcp : Network

-- `parseListenAddr`; the address is passed on as it is.
unfoldable pub parse_listen_addr : Bytes → Network
unfolding has_prefix
parse_listen_addr addr =
    if has_prefix (codes "/") addr || has_prefix (codes ".") addr then unix else tcp

-- The configuration that `Run` goes on with.
unfoldable pub config_or_zero : Result ConfigError Config → Config
unfolding zero_config
config_or_zero (ok c) = c
config_or_zero (err e) = zero_config

-- Five minutes.
abbrev pub token_ttl : ℕ
token_ttl = 300_000_000_000

-- The token validator of `Run`.
unfoldable pub token_validator : Config → Option TokenCache
unfolding new_token_cache
token_validator c =
    if c.kubernetes.enabled && not (is_empty c.kubernetes.require_service_account)
    then some (new_token_cache token_ttl)
    else none
