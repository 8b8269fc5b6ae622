-- ===== src/Config.antt =====
-- internal/config/config.go: the configuration that the server boots with, and its validation.
pub mod Valid
use outway.Base.{
  ℕ, ◌^◌, List, [], Option, none, some, Bool, true, false, not, ◌&&◌, ◌||◌, if◌then◌else◌,
}
use outway.Base.{ltb, ◌==◌, text_eq, to_lower, codes, ℤ, pos, below, above, is_zero, is_some}
use outway.Net.{Addr, AddrPort, Prefix, invalid, v4, bit_len}

pub record AuthMode : Type 0 where
  pub username : List ℕ
  pub password : List ℕ

unfoldable pub has_auth : AuthMode → Bool
has_auth a = not (text_eq a.username []) && not (text_eq a.password [])

pub data ProxyKind : Type 0 where
  proxy_http proxy_https proxy_socks5 proxy_auto : ProxyKind

pub record ProxyConfig : Type 0 where
  pub kind : ProxyKind
  pub auth : AuthMode
  pub tls_cert : List ℕ
  pub tls_key : List ℕ

-- `interface` is the empty name where the fallback is an address.
pub record Fallback : Type 0 where
  pub address : Addr
  pub interface : List ℕ

unfoldable pub is_interface : Fallback → Bool
is_interface f = not (text_eq f.interface [])

-- `parse_addr` is `netip.ParseAddr`.
unfoldable pub parse_fallback : (List ℕ → Option Addr) → List ℕ → Fallback
parse_fallback parse_addr s = elim (parse_addr s) [
  | some addr ↦ record { address = addr; interface = [] }
  | none ↦ record { address = invalid; interface = s }
]

pub record UdpConfig : Type 0 where
  pub max_packet_size : ℤ
  pub batch_size : ℤ
  pub batch_buffer_budget : ℤ
  pub send_queue_size : ℤ
  pub send_workers : ℤ
  pub socket_buffer_bytes : ℤ
  pub max_associations : ℕ
  pub metrics_interval_secs : ℕ
  pub association_idle_timeout_secs : ℕ
  pub gso : Bool
  pub gro : Bool

pub record BootArgs : Type 0 where
  pub log_level : List ℕ
  pub bind : AddrPort
  pub concurrent : ℕ
  pub workers : ℤ
  pub cidr : Option Prefix
  pub cidr_range : Option ℕ
  pub fallback : Option Fallback
  pub connect_timeout : ℕ
  pub tcp_user_timeout : Option ℕ
  pub reuse_addr : Option Bool
  pub max_pending_dials : ℤ
  pub reuse_port : Bool
  pub udp : UdpConfig
  pub proxy : ProxyConfig

-- The errors of `Validate`, in the order of its tests.
pub data Invalid : Type 0 where
  no_concurrency no_connect_timeout negative_workers : Invalid
  bad_packet_size bad_batch_size negative_budget bad_queue_size bad_send_workers bad_socket_buffer :
      Invalid
  too_many_associations half_auth half_tls range_without_cidr bad_range : Invalid

-- `!=` on Booleans.
abbrev pub differ : Bool → Bool → Bool
differ true b = not b
differ false b = b

unfoldable pub validate_range : Option Prefix → Option ℕ → Option Invalid
validate_range cidr none = none
validate_range none (some range_bits) = some range_without_cidr
validate_range (some cidr) (some range_bits) =
    if ltb range_bits cidr.bits || ltb (bit_len cidr.addr) range_bits then some bad_range else none

unfoldable pub validate_udp : UdpConfig → Option Invalid → Option Invalid
validate_udp u rest =
    if below u.max_packet_size 512 || above u.max_packet_size 65535
    then some bad_packet_size
    else if below u.batch_size 1 || above u.batch_size 1024
    then some bad_batch_size
    else if below u.batch_buffer_budget 0
    then some negative_budget
    else if below u.send_queue_size 1
    then some bad_queue_size
    else if below u.send_workers 0 || above u.send_workers 4096
    then some bad_send_workers
    else if not (is_zero u.socket_buffer_bytes)
        && (below u.socket_buffer_bytes 4096 || above u.socket_buffer_bytes (2 ^ 30))
    then some bad_socket_buffer
    else rest

-- `Validate`: the first error, or none.
unfoldable pub validate : BootArgs → Option Invalid
unfolding validate_range validate_udp
validate a =
    if a.concurrent == 0
    then some no_concurrency
    else if a.connect_timeout == 0
    then some no_connect_timeout
    else if below a.workers 0
    then some negative_workers
    else validate_udp a.udp (
        if ltb a.concurrent a.udp.max_associations
        then some too_many_associations
        else if differ (text_eq a.proxy.auth.username []) (text_eq a.proxy.auth.password [])
        then some half_auth
        else if differ (text_eq a.proxy.tls_cert []) (text_eq a.proxy.tls_key [])
        then some half_tls
        else validate_range a.cidr a.cidr_range)

abbrev pub default_udp_config : UdpConfig
default_udp_config = record {
  max_packet_size = pos 65507;
  batch_size = pos 32;
  batch_buffer_budget = pos 1024;
  send_queue_size = pos 4096;
  send_workers = pos 0;
  socket_buffer_bytes = pos 0;
  max_associations = 0;
  metrics_interval_secs = 30;
  association_idle_timeout_secs = 0;
  gso = false;
  gro = false;
}

abbrev pub default_boot_args : BootArgs
default_boot_args = record {
  log_level = codes "info";
  bind = record { addr = v4 0x7f000001; port = 1080 };
  concurrent = 8192;
  workers = pos 0;
  cidr = none;
  cidr_range = none;
  fallback = none;
  connect_timeout = 10;
  tcp_user_timeout = none;
  reuse_addr = some true;
  max_pending_dials = pos 512;
  reuse_port = false;
  udp = default_udp_config;
  proxy = record {
    kind = proxy_http;
    auth = record { username = []; password = [] };
    tls_cert = [];
    tls_key = [];
  };
}

abbrev pub log_level_of : List ℕ → List ℕ
log_level_of s =
    if text_eq s (codes "trace")
    then codes "DEBUG"
    else if text_eq s (codes "debug")
    then codes "DEBUG"
    else if text_eq s (codes "info")
    then codes "INFO"
    else if text_eq s (codes "warn")
    then codes "WARN"
    else if text_eq s (codes "error")
    then codes "ERROR"
    else codes "INFO"

unfoldable pub parse_log_level : List ℕ → List ℕ
parse_log_level s = log_level_of (to_lower s)
