-- ===== src/Conf/Check.antt =====
-- What `conf_check` (src/conf.c) accepts, against a description of a usable configuration.
use kcptun_libev.Base.{◌≡◌, ◌↔◌, ◌⊎◌, ◌≢◌, Bool, true, ◌&&◌, none, arith, ℕ, refl}
use kcptun_libev.Base.Int.{ℤ, pos, ◌≤ℤ◌}
use kcptun_libev.Conf.{Config, Mode, conf_check, range_check_int, ranges_ok, mode_of}

abbrev pub InRange : ℤ → ℕ → ℕ → Type 0
InRange v l u = (pos l ≤ℤ v) × (v ≤ℤ pos u)

range_check_int_iff : (v : ℤ) (l u : ℕ) → (range_check_int v (pos l) (pos u) ≡ true) ↔ InRange v l u
unfolding range_check_int
range_check_int_iff v l u = ground arith

-- The limits of each number. They are those of the source: the README documents a log level of 0 to 7,
-- and 8, LOG_LEVEL_VERYVERBOSE, is accepted too.
pub record IsInLimits (c : Config) : Type 0 where
  pub mtu : InRange c.kcp_mtu 300 1500
  pub sndwnd : InRange c.kcp_sndwnd 16 65536
  pub rcvwnd : InRange c.kcp_rcvwnd 16 65536
  pub nodelay : InRange c.kcp_nodelay 0 2
  pub interval : InRange c.kcp_interval 10 500
  pub resend : InRange c.kcp_resend 0 100
  pub nc : InRange c.kcp_nc 0 1
  pub flush : InRange c.kcp_flush 0 2
  pub timeout : InRange c.timeout 60 86400
  pub linger : InRange c.linger 5 600
  pub keepalive : InRange c.keepalive 0 600
  pub time_wait : InRange c.time_wait 5 3600
  pub log_level : InRange c.log_level 0 8

-- A configuration that names one service, says where its packets go, and is within the limits.
pub record IsUsable (c : Config) : Type 0 where
  pub one_role : (c.connect ≡ none) ⊎ (c.listen ≡ none)
  pub rendezvous_alive : c.rendezvous_server ≢ none → pos 1 ≤ℤ c.keepalive
  pub server_reachable : c.connect ≢ none → (c.rendezvous_server ≢ none) ⊎ (c.kcp_bind ≢ none)
  pub client_connects : c.listen ≢ none → (c.rendezvous_server ≢ none) ⊎ (c.kcp_connect ≢ none)
  pub relay_bound : c.connect ≡ none → c.listen ≡ none → c.kcp_bind ≢ none
  pub one_key : (c.psk ≡ none) ⊎ (c.password ≡ none)
  pub limits : IsInLimits c

and_iff :
    {a b : Bool} {P Q : Type 0} → ((a ≡ true) ↔ P) → ((b ≡ true) ↔ Q) → ((a && b) ≡ true) ↔ (P × Q)
and_iff {a} {b} p q = ground arith

ranges_ok_iff : (c : Config) → (ranges_ok c ≡ true) ↔ IsInLimits c
unfolding ranges_ok
ranges_ok_iff c =
    let e =
      (and_iff
        (and_iff
          (and_iff
            (and_iff
              (and_iff
                (and_iff
                  (and_iff
                    (and_iff
                      (and_iff
                        (and_iff
                          (and_iff
                            (and_iff (range_check_int_iff c.kcp_mtu 300 1500)
                              (range_check_int_iff c.kcp_sndwnd 16 65536))
                            (range_check_int_iff c.kcp_rcvwnd 16 65536))
                          (range_check_int_iff c.kcp_nodelay 0 2))
                        (range_check_int_iff c.kcp_interval 10 500))
                      (range_check_int_iff c.kcp_resend 0 100))
                    (range_check_int_iff c.kcp_nc 0 1))
                  (range_check_int_iff c.kcp_flush 0 2))
                (range_check_int_iff c.timeout 60 86400))
              (range_check_int_iff c.linger 5 600))
            (range_check_int_iff c.keepalive 0 600))
          (range_check_int_iff c.time_wait 5 3600))
        (range_check_int_iff c.log_level 0 8)) in
    (
      λ h.
          let x = e.0 h in
          record {
            mtu = x.0.0.0.0.0.0.0.0.0.0.0.0;
            sndwnd = x.0.0.0.0.0.0.0.0.0.0.0.1;
            rcvwnd = x.0.0.0.0.0.0.0.0.0.0.1;
            nodelay = x.0.0.0.0.0.0.0.0.0.1;
            interval = x.0.0.0.0.0.0.0.0.1;
            resend = x.0.0.0.0.0.0.0.1;
            nc = x.0.0.0.0.0.0.1;
            flush = x.0.0.0.0.0.1;
            timeout = x.0.0.0.0.1;
            linger = x.0.0.0.1;
            keepalive = x.0.0.1;
            time_wait = x.0.1;
            log_level = x.1;
          },
      λ v. e.1 (
        (
          (
            (
              (
                (
                  ((((((v.mtu, v.sndwnd), v.rcvwnd), v.nodelay), v.interval), v.resend), v.nc),
                  v.flush,
                ),
                v.timeout,
              ),
              v.linger,
            ),
            v.keepalive,
          ),
          v.time_wait,
        ),
        v.log_level,
      ),
    )

-- The check accepts exactly the usable configurations.
pub conf_check_iff : (c : Config) → ((conf_check c).0 ≡ true) ↔ IsUsable c
unfolding conf_check
conf_check_iff c = ground (arith, ranges_ok_iff (record c { mode = mode_of c }), ranges_ok_iff c)

pub conf_check_stores :
    (c : Config) → (conf_check c).0 ≡ true → (conf_check c).1 ≡ record c { mode = mode_of c }
unfolding conf_check
conf_check_stores c h = ground arith

-- The mode is not among the things that are checked.
pub IsUsable-mode : {c : Config} (m : Mode) → IsUsable c → IsUsable (record c { mode = m })
IsUsable-mode m u = record {
  one_role = u.one_role;
  rendezvous_alive = u.rendezvous_alive;
  server_reachable = u.server_reachable;
  client_connects = u.client_connects;
  relay_bound = u.relay_bound;
  one_key = u.one_key;
  limits = record {
    mtu = u.limits.mtu;
    sndwnd = u.limits.sndwnd;
    rcvwnd = u.limits.rcvwnd;
    nodelay = u.limits.nodelay;
    interval = u.limits.interval;
    resend = u.limits.resend;
    nc = u.limits.nc;
    flush = u.limits.flush;
    timeout = u.limits.timeout;
    linger = u.limits.linger;
    keepalive = u.limits.keepalive;
    time_wait = u.limits.time_wait;
    log_level = u.limits.log_level;
  };
}

-- What the check leaves behind where it accepts.
pub conf_check-IsUsable :
    (c : Config)
    → (conf_check c).0 ≡ true
    → let c' = (conf_check c).1 in IsUsable c' × (c'.mode ≡ mode_of c')
unfolding mode_of
conf_check-IsUsable c h =
    rw (conf_check_stores c h) (IsUsable-mode (mode_of c) ((conf_check_iff c).0 h), refl)
