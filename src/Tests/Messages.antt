-- ===== src/Tests/Messages.antt =====
-- Messages outside any session, and the time-out, on concrete addresses and times.
use kcptun_libev.Base.{
  ◌≡◌, ℕ, zero, suc, ◌+◌, ◌*◌, subst, refl, true, false, List, [], ◌∷◌, ◌++◌, none, some, arith,
}
use kcptun_libev.Library.Concrete.{network_order, stream_kcp}
use kcptun_libev.Address.{SockAddr, inet, sa_equals}
use kcptun_libev.Session.Step.{Returns}
use kcptun_libev.Server.{Server, Frame, table_find}
use kcptun_libev.Server.Message.{
  ss0_on_punch, ss0_on_ping, ss0_on_pong, ss0_on_reset, inetaddr_write, body,
}
use kcptun_libev.Server.Message.Inet.{IsAddr, wire, wire_addr}
use kcptun_libev.Server.Message.Laws.{
  Pings, punch_frame, ss0_on_punch-punch_frame, ss0_on_pong-ping,
}
use kcptun_libev.Server.Table.{AllValid}
use kcptun_libev.Server.Message.Reset.{WasReset, ss0_on_reset-other, ss0_on_reset-named}
use kcptun_libev.Timer.{Timeouts}
use kcptun_libev.Timer.Expiry.{IsLimit, IsPaced, run_ticks, run_ticks-freed}
use kcptun_libev.Tests.Sessions.{session, session-IsValid, world, zero_stats}

abbrev pub limits : Timeouts
limits = record {
  dial_timeout = 30000;
  session_timeout = 600000;
  session_keepalive = 300000;
  linger_timeout = 30000;
  time_wait_timeout = 120000;
}

-- Rounds that are 10 s apart.
abbrev every : ℕ → ℕ → List ℕ
every zero m = []
every (suc k) m = (m + 10000) ∷ every k (m + 10000)

every-IsPaced :
    (k m : ℕ) → IsPaced network_order stream_kcp limits 10000 (m + k * 10000) m (every k m)
every-IsPaced zero m = omega arith
every-IsPaced (suc k) m =
    let e : m + 10000 + k * 10000 ≡ m + suc k * 10000 = omega arith in
    (
      omega arith,
      omega arith,
      subst
          (λ last.
            IsPaced network_order stream_kcp limits 10000 last (m + 10000) (every k (m + 10000)))
          e (every-IsPaced k (m + 10000)),
    )

limits-IsLimit : IsLimit 600000 limits
limits-IsLimit = ground arith

run_ticks-freed_example :
    Returns
      (λ alive _. alive ≡ false)
      (run_ticks network_order stream_kcp limits (every 306 1000) (world (session [])))
run_ticks-freed_example =
    run_ticks-freed network_order stream_kcp limits (every 306 1000) 600000 10000
      (1000 + 306 * 10000) 1000 (world (session [])) limits-IsLimit (session-IsValid [])
      (ground arith) (ground arith) (every-IsPaced 306 1000) (omega arith)

abbrev pub address : ℕ → SockAddr
address n = inet (10 ∷ 0 ∷ 0 ∷ n ∷ []) (31 ∷ 144 ∷ [])

address-IsAddr : (n : ℕ) → IsAddr (address n)
unfolding IsAddr
address-IsAddr n = (refl, refl)

written : inetaddr_write 38 (address 7) ≡ some (0 ∷ 10 ∷ 0 ∷ 0 ∷ 7 ∷ 31 ∷ 144 ∷ [])
unfolding inetaddr_write
written = refl

-- A rendezvous server with one session.
abbrev pub server : Server (List ℕ)
server = record {
  mode = record { server = true; client = false; rendezvous = true };
  now = 2000;
  kcp_connect = address 9;
  inflight_ping = some 1500;
  last_send_time = none;
  last_recv_time = none;
  last_resolve_time = none;
  listened = true;
  connected = true;
  server_addr0 = address 3;
  server_addr1 = address 4;
  rendezvous_server = address 5;
  rendezvous_local = address 6;
  m_conv = 6;
  sessions = session [] ∷ [];
  stats = zero_stats;
  outbox = [];
}

pub server-AllValid : AllValid server.sessions
unfolding AllValid
server-AllValid = (session-IsValid [], tt)

-- S0MSG_CONNECT from address 8, which calls itself address 7
abbrev connecting : Frame
connecting = record {
  addr = address 8;
  bytes = 0 ∷ 0 ∷ 0 ∷ 0 ∷ 0 ∷ 4 ∷ 0 ∷ 10 ∷ 0 ∷ 0 ∷ 7 ∷ 31 ∷ 144 ∷ [];
}

connecting-body : body connecting ≡ wire (address 7) ++ []
unfolding wire
connecting-body = refl

ss0_on_punch-punch_frame_example :
    (fa fb : List Frame) × (Pings network_order 2000 (address 7) fa
      × Pings network_order 2000 (address 8) fb
      × (ss0_on_punch network_order server (record {
        addr = address 5;
        bytes = (punch_frame network_order (address 4) (address 7) (address 8)).bytes;
      })
          ≡ (true, record server { outbox = server.outbox ++ fa ++ fb })))
unfolding wire_addr
ss0_on_punch-punch_frame_example =
    ss0_on_punch-punch_frame network_order server (address 5) (address 4) (address 7) (address 8)
      (address-IsAddr 7) (address-IsAddr 8)

-- S0MSG_RESET of conversation 7, from the peer of the session
abbrev reset : Frame
reset = record { addr = (session []).raddr; bytes = 0 ∷ 0 ∷ 0 ∷ 0 ∷ 0 ∷ 2 ∷ 0 ∷ 0 ∷ 0 ∷ 7 ∷ [] }

ss0_on_reset-other_example :
    table_find 7 (address 8) (ss0_on_reset network_order server reset).1.sessions
    ≡ table_find 7 (address 8) (session [] ∷ [])
ss0_on_reset-other_example =
    ss0_on_reset-other network_order server reset 7 (address 8) (ground arith)

found : table_find 7 reset.addr server.sessions ≡ some (session [])
unfolding table_find sa_equals
found = refl

ss0_on_reset-named_example :
    WasReset
      (session [])
      (table_find 7 reset.addr (ss0_on_reset network_order server reset).1.sessions)
ss0_on_reset-named_example =
    ss0_on_reset-named network_order server reset (session []) (omega arith) found server-AllValid

-- S0MSG_PING with a time stamp
abbrev ping : Frame
ping = record { addr = address 8; bytes = 0 ∷ 0 ∷ 0 ∷ 0 ∷ 0 ∷ 0 ∷ 0 ∷ 0 ∷ 5 ∷ 220 ∷ [] }

ss0_on_pong-ping_example :
    (ss0_on_ping network_order server ping ≡ (
      true,
      record server {
        outbox =
            []
            ++ record { addr = address 8; bytes = 0 ∷ 0 ∷ 0 ∷ 0 ∷ 0 ∷ 1 ∷ 0 ∷ 0 ∷ 5 ∷ 220 ∷ [] }
              ∷ [];
      },
    ))
    × ((ss0_on_pong network_order server (record {
      addr = address 5;
      bytes = 0 ∷ 0 ∷ 0 ∷ 0 ∷ 0 ∷ 1 ∷ 0 ∷ 0 ∷ 5 ∷ 220 ∷ [];
    })).1.inflight_ping
        ≡ none)
ss0_on_pong-ping_example =
    ss0_on_pong-ping network_order server server ping (address 5) (omega arith)
