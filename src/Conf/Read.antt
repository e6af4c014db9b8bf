-- ===== src/Conf/Read.antt =====
-- Reading the configuration (src/conf.c) from a parsed JSON value (src/jsonutil.c). The JSON
-- library is the parameter `CJson`; `strdup` and the other allocations are taken to succeed. The
-- file and its parse are the argument `root`, which is `none` where either fails.
pub mod Writer
pub mod RoundTrip
use Prim.Native.String.{String}
use text.Mathlib.Text.{◌==◌}
use kcptun_libev.Base.{
  ◌≡◌, Bool, true, false, List, [], ◌∷◌, Option, none, some, if◌then◌else◌, arith,
}
use kcptun_libev.Base.Int.{ℤ}
use kcptun_libev.Conf.{Config, conf_default, conf_check, is_set, mode_of}

-- What the source reads of a cJSON item: its kind, its members in order, and its value.
pub record CJson : Type 1 where
  pub Item : Type 0
  pub is_object : Item → Bool
  pub members : Item → List (String × Item)
  pub is_bool : Item → Bool
  pub is_true : Item → Bool
  pub is_number : Item → Bool
  pub valueint : Item → ℤ
  pub is_string : Item → Bool
  pub valuestring : Item → String

module _ (json : CJson) where
  open json use {
    Item, is_object, members, is_bool, is_true, is_number, valueint, is_string, valuestring,
  }

  abbrev pub jutil_get_bool : Item → Option Bool
  jutil_get_bool v = if is_bool v then some (is_true v) else none

  abbrev pub jutil_get_int : Item → Option ℤ
  jutil_get_int v = if is_number v then some (valueint v) else none

  abbrev pub jutil_get_string : Item → Option String
  jutil_get_string v = if is_string v then some (valuestring v) else none

  -- `return jutil_get_int(value, &conf->field)`: the field is written only on success.
  abbrev pub store : {A : Type 0} → Option A → (A → Config) → Config → Bool × Config
  store none write conf = (false, conf)
  store (some a) write conf = (true, write a)

  -- `conf->field = jutil_get_string(value); return conf->field != NULL`
  abbrev pub store_str : Option String → (Option String → Config) → Bool × Config
  store_str s write = (is_set s, write s)

  -- The callback of `jutil_walk_object`, called on each member until it returns false.
  abbrev pub Callback : Type 0
  Callback = Config → String → Item → Bool × Config

  unfoldable pub walk_members : Callback → Config → List (String × Item) → Bool × Config
  walk_members cb conf [] = (true, conf)
  walk_members cb conf ((key, o) ∷ rest) =
      let (go, conf') = cb conf key o in
      elim go [ true ↦ walk_members cb conf' rest | false ↦ (false, conf') ]

  unfoldable pub jutil_walk_object : Callback → Config → Item → Bool × Config
  unfolding walk_members
  jutil_walk_object cb conf v =
      if is_object v then walk_members cb conf (members v) else (false, conf)

  unfoldable pub kcp_scope_cb : Callback
  kcp_scope_cb conf key value =
      if key == "mtu"
      then store (jutil_get_int value) (λ x. record conf { kcp_mtu = x }) conf
      else if key == "sndwnd"
      then store (jutil_get_int value) (λ x. record conf { kcp_sndwnd = x }) conf
      else if key == "rcvwnd"
      then store (jutil_get_int value) (λ x. record conf { kcp_rcvwnd = x }) conf
      else if key == "nodelay"
      then store (jutil_get_int value) (λ x. record conf { kcp_nodelay = x }) conf
      else if key == "interval"
      then store (jutil_get_int value) (λ x. record conf { kcp_interval = x }) conf
      else if key == "resend"
      then store (jutil_get_int value) (λ x. record conf { kcp_resend = x }) conf
      else if key == "nc"
      then store (jutil_get_int value) (λ x. record conf { kcp_nc = x }) conf
      else if key == "flush"
      then store (jutil_get_int value) (λ x. record conf { kcp_flush = x }) conf
      else (true, conf)

  unfoldable pub tcp_scope_cb : Callback
  tcp_scope_cb conf key value =
      if key == "reuseport"
      then store (jutil_get_bool value) (λ x. record conf { tcp_reuseport = x }) conf
      else if key == "keepalive"
      then store (jutil_get_bool value) (λ x. record conf { tcp_keepalive = x }) conf
      else if key == "nodelay"
      then store (jutil_get_bool value) (λ x. record conf { tcp_nodelay = x }) conf
      else if key == "sndbuf"
      then store (jutil_get_int value) (λ x. record conf { tcp_sndbuf = x }) conf
      else if key == "rcvbuf"
      then store (jutil_get_int value) (λ x. record conf { tcp_rcvbuf = x }) conf
      else (true, conf)

  unfoldable pub udp_scope_cb : Callback
  udp_scope_cb conf key value =
      if key == "reuseport"
      then store (jutil_get_bool value) (λ x. record conf { udp_reuseport = x }) conf
      else if key == "sndbuf"
      then store (jutil_get_int value) (λ x. record conf { udp_sndbuf = x }) conf
      else if key == "rcvbuf"
      then store (jutil_get_int value) (λ x. record conf { udp_rcvbuf = x }) conf
      else (true, conf)

  unfoldable pub main_scope_cb : Callback
  unfolding jutil_walk_object kcp_scope_cb tcp_scope_cb udp_scope_cb
  main_scope_cb conf key value =
      if key == "kcp"
      then jutil_walk_object kcp_scope_cb conf value
      else if key == "udp"
      then jutil_walk_object udp_scope_cb conf value
      else if key == "tcp"
      then jutil_walk_object tcp_scope_cb conf value
      else if key == "listen"
      then store_str (jutil_get_string value) (λ x. record conf { listen = x })
      else if key == "connect"
      then store_str (jutil_get_string value) (λ x. record conf { connect = x })
      else if key == "kcp_bind"
      then store_str (jutil_get_string value) (λ x. record conf { kcp_bind = x })
      else if key == "kcp_connect"
      then store_str (jutil_get_string value) (λ x. record conf { kcp_connect = x })
      else if key == "rendezvous_server"
      then store_str (jutil_get_string value) (λ x. record conf { rendezvous_server = x })
      else if key == "http_listen"
      then store_str (jutil_get_string value) (λ x. record conf { http_listen = x })
      else if key == "netdev"
      then store_str (jutil_get_string value) (λ x. record conf { netdev = x })
      else if key == "method"
      then store_str (jutil_get_string value) (λ x. record conf { method = x })
      else if key == "password"
      then store_str (jutil_get_string value) (λ x. record conf { password = x })
      else if key == "psk"
      then store_str (jutil_get_string value) (λ x. record conf { psk = x })
      else if key == "obfs"
      then store_str (jutil_get_string value) (λ x. record conf { obfs = x })
      else if key == "linger"
      then store (jutil_get_int value) (λ x. record conf { linger = x }) conf
      else if key == "timeout"
      then store (jutil_get_int value) (λ x. record conf { timeout = x }) conf
      else if key == "keepalive"
      then store (jutil_get_int value) (λ x. record conf { keepalive = x }) conf
      else if key == "time_wait"
      then store (jutil_get_int value) (λ x. record conf { time_wait = x }) conf
      else if key == "loglevel"
      then store (jutil_get_int value) (λ x. record conf { log_level = x }) conf
      else if key == "user"
      then store_str (jutil_get_string value) (λ x. record conf { user = x })
      else (true, conf)

  unfoldable pub conf_read : Option Item → Option Config
  conf_read none = none
  conf_read (some root) =
      let (walked, conf) = jutil_walk_object main_scope_cb conf_default root in
      if walked
      then (let (checked, conf') = conf_check conf in if checked then some conf' else none)
      else none
