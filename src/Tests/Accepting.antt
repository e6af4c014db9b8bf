-- ===== src/Tests/Accepting.antt =====
-- Accepting a connection on a server whose next conversation number is taken.
use kcptun_libev.Base.{
  Ends, ◌≡◌, ℕ, refl, true, false, none, some, length, ◌+◌, List, [], ◌∷◌, inl, arith,
}
use kcptun_libev.Library.Concrete.{network_order, stream_kcp}
use kcptun_libev.Address.{sa_equals}
use kcptun_libev.Session.Create.{KcpConf, session_new}
use kcptun_libev.Server.{Server, table_find}
use kcptun_libev.Server.Accept.{conv_new, conv_next, conv_rounds, accept_session}
use kcptun_libev.Server.Accept.Laws.{Lucky, IsFree, conv_new-IsFree}
use kcptun_libev.Server.Accept.Loop.{AcceptOut, got_socket, accept_error, tcp_accept_cb}
use kcptun_libev.Server.Accept.Loop.Laws.{Accepted, LuckyRounds, tcp_accept_cb-Accepted}
use kcptun_libev.Server.Sockets.{Listener}
use kcptun_libev.Library.{other}
use kcptun_libev.Tests.Sessions.{session}
use kcptun_libev.Tests.Messages.{server, server-AllValid}

abbrev crowded : Server (List ℕ)
crowded = record server { kcp_connect = (session []).raddr }

crowded-Lucky : Lucky crowded.kcp_connect crowded.sessions (41 ∷ [])
unfolding conv_next table_find sa_equals
crowded-Lucky = inl refl

conv_new-IsFree_example :
    Ends
      (λ r.
        IsFree crowded.kcp_connect crowded.sessions r.0 × (r.1 ≡ record crowded { m_conv = r.0 }))
      (conv_new crowded.kcp_connect (41 ∷ []) crowded)
conv_new-IsFree_example = conv_new-IsFree crowded.kcp_connect (41 ∷ []) crowded refl crowded-Lucky

abbrev pub kcp_conf : KcpConf
kcp_conf = record {
  sndwnd = 256;
  rcvwnd = 256;
  mss = 1372;
  nodelay = 1;
  interval = 50;
  resend = 3;
  nc = 1;
  flush = 1;
}

-- One connection waits, and then there is no descriptor left.
abbrev waiting : List AcceptOut
waiting = got_socket 9 true true (41 ∷ []) ∷ accept_error other ∷ []

abbrev tcp_listener : Listener
tcp_listener = record {
  fd = some 3;
  fd_http = none;
  accepting = true;
  accepting_http = false;
  retrying = false;
}

waiting-LuckyRounds : LuckyRounds network_order stream_kcp kcp_conf waiting crowded
waiting-LuckyRounds = (crowded-Lucky, λ s' e. tt)

tcp_accept_cb-Accepted_example :
    Ends
      (Accepted network_order stream_kcp kcp_conf)
      (tcp_accept_cb network_order stream_kcp kcp_conf waiting tcp_listener crowded)
tcp_accept_cb-Accepted_example =
    tcp_accept_cb-Accepted network_order stream_kcp kcp_conf waiting tcp_listener crowded
      waiting-LuckyRounds server-AllValid (omega arith) (inl refl)

-- There is one session more, and the listener rests.
rests :
    Ends
      (λ r.
        (length r.0.sessions ≡ length crowded.sessions + 1)
        × (r.1 ≡ record tcp_listener { accepting = false; retrying = true }))
      (tcp_accept_cb network_order stream_kcp kcp_conf waiting tcp_listener crowded)
unfolding tcp_accept_cb table_find sa_equals conv_new conv_next conv_rounds session_new
    accept_session
rests = (refl, refl)
