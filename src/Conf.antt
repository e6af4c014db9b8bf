-- ===== src/Conf.antt =====
-- The configuration (src/conf.c, src/conf.h): its fields, their defaults, and the check that a
-- configuration passes before the server starts. Log lines are left out. The build has both
-- WITH_CRYPTO and WITH_OBFS.
pub mod Check
pub mod Read
use kcptun_libev.Base.{Bool, true, false, not, ◌&&◌, ◌||◌, Option, none, some, if◌then◌else◌}
use kcptun_libev.Base.Int.{ℤ, pos, ltb_ℤ}
use Prim.Native.String.{String}

-- The bits of `enum runmode`; the `int mode` holds any set of them.
pub record Mode : Type 0 where
  pub server : Bool
  pub client : Bool
  pub rendezvous : Bool

-- `struct config`. A string pointer is an option.
pub record Config : Type 0 where
  pub listen : Option String
  pub connect : Option String
  pub kcp_bind : Option String
  pub kcp_connect : Option String
  pub rendezvous_server : Option String
  pub http_listen : Option String
  pub netdev : Option String
  pub mode : Mode
  pub kcp_mtu : ℤ
  pub kcp_sndwnd : ℤ
  pub kcp_rcvwnd : ℤ
  pub kcp_nodelay : ℤ
  pub kcp_interval : ℤ
  pub kcp_resend : ℤ
  pub kcp_nc : ℤ
  pub kcp_flush : ℤ
  pub tcp_reuseport : Bool
  pub tcp_keepalive : Bool
  pub tcp_nodelay : Bool
  pub tcp_sndbuf : ℤ
  pub tcp_rcvbuf : ℤ
  pub udp_reuseport : Bool
  pub udp_sndbuf : ℤ
  pub udp_rcvbuf : ℤ
  pub method : Option String
  pub password : Option String
  pub psk : Option String
  pub obfs : Option String
  pub timeout : ℤ
  pub linger : ℤ
  pub keepalive : ℤ
  pub time_wait : ℤ
  pub log_level : ℤ
  pub user : Option String

abbrev pub no_mode : Mode
no_mode = record { server = false; client = false; rendezvous = false }

-- A field that the initialiser leaves out is 0 or NULL. LOG_LEVEL_NOTICE is 4.
unfoldable pub conf_default : Config
conf_default = record {
  listen = none;
  connect = none;
  kcp_bind = none;
  kcp_connect = none;
  rendezvous_server = none;
  http_listen = none;
  netdev = none;
  mode = no_mode;
  kcp_mtu = pos 1400;
  kcp_sndwnd = pos 256;
  kcp_rcvwnd = pos 256;
  kcp_nodelay = pos 1;
  kcp_interval = pos 100;
  kcp_resend = pos 0;
  kcp_nc = pos 1;
  kcp_flush = pos 1;
  tcp_reuseport = false;
  tcp_keepalive = false;
  tcp_nodelay = true;
  tcp_sndbuf = pos 0;
  tcp_rcvbuf = pos 0;
  udp_reuseport = false;
  udp_sndbuf = pos 0;
  udp_rcvbuf = pos 0;
  method = none;
  password = none;
  psk = none;
  obfs = none;
  timeout = pos 600;
  linger = pos 30;
  keepalive = pos 25;
  time_wait = pos 120;
  log_level = pos 4;
  user = none;
}

unfoldable pub conf_modestr : Config → String
conf_modestr c =
    if c.mode.server then "server" else if c.mode.client then "client" else "rendezvous server"

abbrev pub is_set {ℓ} : {A : Type ℓ} → Option A → Bool
is_set none = false
is_set (some _) = true

unfoldable pub range_check_int : ℤ → ℤ → ℤ → Bool
range_check_int value lbound ubound = not (ltb_ℤ value lbound || ltb_ℤ ubound value)

-- The network addresses decide the mode; each is present or not.
unfoldable pub mode_of : Config → Mode
mode_of c = record {
  server = is_set c.connect;
  client = is_set c.listen;
  rendezvous = is_set c.rendezvous_server;
}

-- "no service could be provided"
unfoldable pub no_service : Mode → Config → Bool
no_service m c =
    (m.server && not m.rendezvous && not (is_set c.kcp_bind))
    || (m.client && not m.rendezvous && not (is_set c.kcp_connect))
    || (not m.server && not m.client && not (is_set c.kcp_bind))

unfoldable pub ranges_ok : Config → Bool
ranges_ok c =
    range_check_int c.kcp_mtu (pos 300) (pos 1500)
    && range_check_int c.kcp_sndwnd (pos 16) (pos 65536)
    && range_check_int c.kcp_rcvwnd (pos 16) (pos 65536)
    && range_check_int c.kcp_nodelay (pos 0) (pos 2)
    && range_check_int c.kcp_interval (pos 10) (pos 500)
    && range_check_int c.kcp_resend (pos 0) (pos 100)
    && range_check_int c.kcp_nc (pos 0) (pos 1)
    && range_check_int c.kcp_flush (pos 0) (pos 2)
    && range_check_int c.timeout (pos 60) (pos 86400)
    && range_check_int c.linger (pos 5) (pos 600)
    && range_check_int c.keepalive (pos 0) (pos 600)
    && range_check_int c.time_wait (pos 5) (pos 3600)
    && range_check_int c.log_level (pos 0) (pos 8)

-- The result and the configuration that `*conf` is left with: the mode is stored before the
-- checks of the keys and the ranges, so that a refusal there leaves it changed.
unfoldable pub conf_check : Config → Bool × Config
unfolding mode_of no_service
conf_check c =
    let m = mode_of c in
    let c' = record c { mode = m } in
    if m.server && m.client
    then (false, c)
    else if m.rendezvous && ltb_ℤ c.keepalive (pos 1)
    then (false, c)
    else if no_service m c
    then (false, c)
    else if is_set c.psk && is_set c.password
    then (false, c')
    else (ranges_ok c', c')
