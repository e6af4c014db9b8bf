-- ===== src/Session/Create.antt =====
-- The creation and the release of a session (src/session.c).
use kcptun_libev.Base.{ℕ, Bool, false, [], Option, none, some, if◌then◌else◌}
use kcptun_libev.Library.{Serialize, Ikcp}
use kcptun_libev.Address.{SockAddr}
use kcptun_libev.Session.{init, Session, LinkStats, session_tcp_stop, session_kcp_stop}

-- The parameters that `kcp_new` takes from the configuration and the packet queue.
pub record KcpConf : Type 0 where
  pub sndwnd : ℕ
  pub rcvwnd : ℕ
  pub mss : ℕ
  pub nodelay : ℕ
  pub interval : ℕ
  pub resend : ℕ
  pub nc : ℕ
  pub flush : ℕ

module _ (ser : Serialize) (lib : Ikcp) where
  open lib use {Kcp, ikcp_create, ikcp_wndsize, ikcp_setmtu, ikcp_nodelay}

  unfoldable pub kcp_new : KcpConf → ℕ → Option Kcp
  kcp_new c conv = elim (ikcp_create conv) [
    | none ↦ none
    | some k ↦ some (
        ikcp_nodelay (ikcp_setmtu (ikcp_wndsize k c.sndwnd c.rcvwnd) c.mss) c.nodelay c.interval
          c.resend c.nc)
  ]

  abbrev pub no_stats : LinkStats
  no_stats = record { tcp_rx = 0; tcp_tx = 0; kcp_rx = 0; kcp_tx = 0; pkt_rx = 0; pkt_tx = 0 }

  -- `memory` says whether the session and its two buffers could be allocated. On failure all is
  -- freed.
  unfoldable pub session_new : Bool → KcpConf → SockAddr → ℕ → ℕ → Option (Session Kcp)
  unfolding kcp_new
  session_new memory c addr conv now =
      if memory
      then (elim (kcp_new c conv) [
        | none ↦ none
        | some k ↦ some (record {
          conv = conv;
          raddr = addr;
          kcp = some k;
          tcp_state = init;
          kcp_state = init;
          kcp_flush = c.flush;
          fd = none;
          io_active = false;
          ev_read = false;
          ev_write = false;
          flush_active = false;
          created = now;
          last_reset = none;
          last_send = none;
          last_recv = none;
          is_accepted = false;
          rbuf = some [];
          wbuf = some [];
          wbuf_flush = 0;
          wbuf_next = 0;
          stats = no_stats;
        })
      ])
      else none

  -- The stages of `session_free`; the memory goes with it.
  unfoldable pub session_free : Session Kcp → Session Kcp
  unfolding session_tcp_stop session_kcp_stop
  session_free s = record (session_kcp_stop (session_tcp_stop s)) { flush_active = false }
