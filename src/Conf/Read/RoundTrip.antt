-- ===== src/Conf/Read/RoundTrip.antt =====
-- A configuration that is written to JSON with all its keys is read back (src/conf.c, conf_read and its
-- callbacks; src/jsonutil.c).
use kcptun_libev.Base.{◌≡◌, refl, ◌∙◌, true, none, some}
use kcptun_libev.Base.Int.{ℤ}
use kcptun_libev.Conf.{Config, conf_default, conf_check, no_mode, mode_of}
use kcptun_libev.Conf.Check.{IsUsable, IsUsable-mode, conf_check_iff, conf_check_stores}
use kcptun_libev.Conf.Read.{
  CJson, walk_members, jutil_walk_object, kcp_scope_cb, tcp_scope_cb, udp_scope_cb, main_scope_cb,
  conf_read,
}
use kcptun_libev.Conf.Read.Writer.{
  Writer, store-number, walk_step, walk_end, walk-kcp_members, walk-udp_members, walk-tcp_members,
  walk_object, walk_text, kcp_members, udp_members, tcp_members, conf_texts, conf_members,
}

same_mode : (c : Config) → c.mode ≡ mode_of c → record c { mode = mode_of c } ≡ c
same_mode c m = rw (← m) refl

module _ (json : CJson) (w : Writer json) where
  open json use {Item}
  open w use {number, object}

  -- All texts are NULL.
  abbrev without_texts : Config → Config
  without_texts d = record d {
    listen = none;
    connect = none;
    kcp_bind = none;
    kcp_connect = none;
    rendezvous_server = none;
    http_listen = none;
    netdev = none;
    method = none;
    password = none;
    psk = none;
    obfs = none;
    user = none;
  }

  walk-conf_texts :
      (c d : Config)
      → walk_members json (main_scope_cb json) (without_texts d) (conf_texts json w c) ≡ (
        true,
        record d {
          listen = c.listen;
          connect = c.connect;
          kcp_bind = c.kcp_bind;
          kcp_connect = c.kcp_connect;
          rendezvous_server = c.rendezvous_server;
          http_listen = c.http_listen;
          netdev = c.netdev;
          method = c.method;
          password = c.password;
          psk = c.psk;
          obfs = c.obfs;
          user = c.user;
        },
      )
  unfolding main_scope_cb
  walk-conf_texts c d =
      let m = main_scope_cb json in
      (walk_text json w m (λ x c. record c { listen = x }) "listen" c.listen _ _ (λ s. refl) refl
        (walk_text json w m (λ x c. record c { connect = x }) "connect" c.connect _ _ (λ s. refl)
          refl
          (walk_text json w m (λ x c. record c { kcp_bind = x }) "kcp_bind" c.kcp_bind _ _
            (λ s. refl) refl
            (walk_text json w m (λ x c. record c { kcp_connect = x }) "kcp_connect" c.kcp_connect _
              _ (λ s. refl) refl
              (walk_text json w m (λ x c. record c { rendezvous_server = x }) "rendezvous_server"
                c.rendezvous_server _ _ (λ s. refl) refl
                (walk_text json w m (λ x c. record c { http_listen = x }) "http_listen"
                  c.http_listen _ _ (λ s. refl) refl
                  (walk_text json w m (λ x c. record c { netdev = x }) "netdev" c.netdev _ _
                    (λ s. refl) refl
                    (walk_text json w m (λ x c. record c { method = x }) "method" c.method _ _
                      (λ s. refl) refl
                      (walk_text json w m (λ x c. record c { password = x }) "password" c.password _
                        _ (λ s. refl) refl
                        (walk_text json w m (λ x c. record c { psk = x }) "psk" c.psk _ _
                          (λ s. refl) refl
                          (walk_text json w m (λ x c. record c { obfs = x }) "obfs" c.obfs _ _
                            (λ s. refl) refl
                            (walk_text json w m (λ x c. record c { user = x }) "user" c.user _ _
                              (λ s. refl) refl (walk_end json w m _ _ refl)))))))))))))

  abbrev pub conf_write : Config → Item
  conf_write c = object (conf_members json w c)

  main_scope_cb-kcp :
      (c d : Config)
      → main_scope_cb json d "kcp" (object (kcp_members json w c)) ≡ (
        true,
        record d {
          kcp_mtu = c.kcp_mtu;
          kcp_sndwnd = c.kcp_sndwnd;
          kcp_rcvwnd = c.kcp_rcvwnd;
          kcp_nodelay = c.kcp_nodelay;
          kcp_interval = c.kcp_interval;
          kcp_resend = c.kcp_resend;
          kcp_nc = c.kcp_nc;
          kcp_flush = c.kcp_flush;
        },
      )
  unfolding main_scope_cb
  main_scope_cb-kcp c d =
      walk_object json w (kcp_scope_cb json) (kcp_members json w c) d (walk-kcp_members json w c d)

  main_scope_cb-udp :
      (c d : Config)
      → main_scope_cb json d "udp" (object (udp_members json w c)) ≡ (
        true,
        record d {
          udp_reuseport = c.udp_reuseport;
          udp_sndbuf = c.udp_sndbuf;
          udp_rcvbuf = c.udp_rcvbuf;
        },
      )
  unfolding main_scope_cb
  main_scope_cb-udp c d =
      walk_object json w (udp_scope_cb json) (udp_members json w c) d (walk-udp_members json w c d)

  main_scope_cb-tcp :
      (c d : Config)
      → main_scope_cb json d "tcp" (object (tcp_members json w c)) ≡ (
        true,
        record d {
          tcp_reuseport = c.tcp_reuseport;
          tcp_keepalive = c.tcp_keepalive;
          tcp_nodelay = c.tcp_nodelay;
          tcp_sndbuf = c.tcp_sndbuf;
          tcp_rcvbuf = c.tcp_rcvbuf;
        },
      )
  unfolding main_scope_cb
  main_scope_cb-tcp c d =
      walk_object json w (tcp_scope_cb json) (tcp_members json w c) d (walk-tcp_members json w c d)

  main_scope_cb-linger :
      (n : ℤ) (d : Config)
      → main_scope_cb json d "linger" (number n) ≡ (true, record d { linger = n })
  unfolding main_scope_cb
  main_scope_cb-linger n d = store-number json w n (λ x. record d { linger = x }) d

  main_scope_cb-timeout :
      (n : ℤ) (d : Config)
      → main_scope_cb json d "timeout" (number n) ≡ (true, record d { timeout = n })
  unfolding main_scope_cb
  main_scope_cb-timeout n d = store-number json w n (λ x. record d { timeout = x }) d

  main_scope_cb-keepalive :
      (n : ℤ) (d : Config)
      → main_scope_cb json d "keepalive" (number n) ≡ (true, record d { keepalive = n })
  unfolding main_scope_cb
  main_scope_cb-keepalive n d = store-number json w n (λ x. record d { keepalive = x }) d

  main_scope_cb-time_wait :
      (n : ℤ) (d : Config)
      → main_scope_cb json d "time_wait" (number n) ≡ (true, record d { time_wait = n })
  unfolding main_scope_cb
  main_scope_cb-time_wait n d = store-number json w n (λ x. record d { time_wait = x }) d

  main_scope_cb-log_level :
      (n : ℤ) (d : Config)
      → main_scope_cb json d "loglevel" (number n) ≡ (true, record d { log_level = n })
  unfolding main_scope_cb
  main_scope_cb-log_level n d = store-number json w n (λ x. record d { log_level = x }) d

  walk-conf_write :
      (c : Config)
      → jutil_walk_object json (main_scope_cb json) conf_default (conf_write c)
        ≡ (true, record c { mode = no_mode })
  unfolding conf_default
  walk-conf_write c =
      let m = main_scope_cb json in
      walk_object json w m (conf_members json w c) conf_default (
        walk_step json w m _ _ "kcp" _ _ (main_scope_cb-kcp c _) (
          walk_step json w m _ _ "udp" _ _ (main_scope_cb-udp c _) (
            walk_step json w m _ _ "tcp" _ _ (main_scope_cb-tcp c _) (
              walk_step json w m _ _ "linger" _ _ (main_scope_cb-linger c.linger _) (
                walk_step json w m _ _ "timeout" _ _ (main_scope_cb-timeout c.timeout _) (
                  walk_step json w m _ _ "keepalive" _ _ (main_scope_cb-keepalive c.keepalive _) (
                    walk_step json w m _ _ "time_wait" _ _ (main_scope_cb-time_wait c.time_wait _) (
                      walk_step json w m _ _ "loglevel" _ _ (main_scope_cb-log_level c.log_level _)
                        (walk-conf_texts c (record c { mode = no_mode }))))))))))

  -- A configuration that is usable, and whose mode is the one that its addresses give, is read back
  -- from JSON that holds each of its numbers and switches, and its texts but those that are NULL,
  -- under their keys.
  pub conf_read-conf_write :
      (c : Config) → IsUsable c → c.mode ≡ mode_of c → conf_read json (some (conf_write c)) ≡ some c
  unfolding conf_read mode_of
  conf_read-conf_write c u m =
      let c0 : Config = record c { mode = no_mode } in
      let ok : (conf_check c0).0 ≡ true = (conf_check_iff c0).1 (IsUsable-mode no_mode u) in
      let e : (conf_check c0).1 ≡ c = conf_check_stores c0 ok ∙ same_mode c m in
      rw (walk-conf_write c, ok, e) refl
