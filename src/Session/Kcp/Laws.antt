-- ===== src/Session/Kcp/Laws.antt =====
-- The operations of a session on KCP never fault and keep it valid.
use kcptun_libev.Base.{◌≡◌, ◌⊎◌, arith}
use kcptun_libev.Library.{Serialize, Ikcp}
use kcptun_libev.Session.{Session, linger, time_wait, session_tcp_stop}
use kcptun_libev.Session.Step.{World, Returns}
use kcptun_libev.Session.Valid.{IsValid, Keeps}
use kcptun_libev.Session.Kcp.{session_kcp_send, session_kcp_close}

pub session_tcp_stop-IsValid :
    {K : Type 0} {s : Session K} → IsValid s → IsValid (session_tcp_stop s)
unfolding session_tcp_stop
session_tcp_stop-IsValid v = ground arith

module _ (ser : Serialize) (lib : Ikcp) where
  open lib use {Kcp, content, content-ikcp_send}

  -- Closing a valid session whose socket is given up does not fault, leaves it valid and no further
  -- from its end, and keeps what it has received from KCP unless it leaves the connected state.
  pub session_kcp_close-Keeps :
      (w : World Kcp)
      → IsValid w.ss
      → (w.ss.tcp_state ≡ linger) ⊎ (w.ss.tcp_state ≡ time_wait)
      → Returns (λ _ w'. Keeps content w w') (session_kcp_close ser lib w)
  unfolding session_kcp_close
  session_kcp_close-Keeps w v t = grind (arith, content-ikcp_send)

  -- Sending what a valid session has read from its socket does not fault, leaves it valid and no
  -- further from its end, and keeps what it has received from KCP unless it leaves the connected
  -- state.
  pub session_kcp_send-Keeps :
      (w : World Kcp)
      → IsValid w.ss
      → Returns (λ _ w'. Keeps content w w') (session_kcp_send ser lib w)
  unfolding session_kcp_send
  session_kcp_send-Keeps w v = grind (arith, content-ikcp_send)
