-- ===== src/Tests/Sessions.antt =====
-- Runs of a session (src/session.c, src/event_kcp.c, src/event_tcp.c) on concrete bytes.
use kcptun_libev.Base.{◌≡◌, refl, ℕ, true, List, [], ◌∷◌, ◌++◌, none, some, arith}
use kcptun_libev.Library.Concrete.{network_order, stream_kcp}
use kcptun_libev.Address.{inet}
use kcptun_libev.Session.{Session, LinkStats, connected}
use kcptun_libev.Session.Step.{World, Returns, no_socket, took, got, ok}
use kcptun_libev.Library.{other}
use kcptun_libev.Session.Valid.{IsValid, Follows}
use kcptun_libev.Session.Kcp.{kcp_push, kcp_send}
use kcptun_libev.Session.Process.{session_read_cb, process_buf, tlv_header_read}
use kcptun_libev.Session.Process.Laws.{Framed, message, short}
use kcptun_libev.Session.Process.Loop.{session_read_cb-Follows}
use kcptun_libev.Session.Process.Wire.{process_buf-kcp_push, process_buf_short_push}

abbrev pub zero_stats : LinkStats
zero_stats = record { tcp_rx = 0; tcp_tx = 0; kcp_rx = 0; kcp_tx = 0; pkt_rx = 0; pkt_tx = 0 }

-- A connected session for which KCP holds these bytes.
abbrev pub session : List ℕ → Session (List ℕ)
session bs = record {
  conv = 7;
  raddr = inet (10 ∷ 0 ∷ 0 ∷ 1 ∷ []) (4 ∷ 0 ∷ []);
  kcp = some bs;
  tcp_state = connected;
  kcp_state = connected;
  kcp_flush = 1;
  fd = some 5;
  io_active = true;
  ev_read = true;
  ev_write = true;
  flush_active = true;
  created = 1000;
  last_reset = none;
  last_send = none;
  last_recv = none;
  is_accepted = true;
  rbuf = some [];
  wbuf = some [];
  wbuf_flush = 0;
  wbuf_next = 0;
  stats = zero_stats;
}

abbrev pub world : Session (List ℕ) → World (List ℕ)
world s = record {
  ss = s;
  total = zero_stats;
  now = 2000;
  recvs = got (1 ∷ 2 ∷ 3 ∷ []) ∷ got [] ∷ [];
  sends = took 1 ∷ took 100 ∷ [];
  out = [];
  dial = no_socket other;
  sockerr = none;
}

-- SMSG_PUSH of two bytes, then SMSG_EOF
abbrev pub wire : List ℕ
wire = 0 ∷ 1 ∷ 0 ∷ 6 ∷ 65 ∷ 66 ∷ 0 ∷ 2 ∷ 0 ∷ 4 ∷ []

pub session-IsValid : (bs : List ℕ) → IsValid (session bs)
session-IsValid bs = ground arith

pub wire-Framed : Framed network_order wire
unfolding tlv_header_read
wire-Framed =
    message wire (omega arith) (message (0 ∷ 2 ∷ 0 ∷ 4 ∷ []) (omega arith) (short [] (omega arith)))

session_read_cb-Follows_example :
    Returns
      (λ _ w'. Follows (world (session wire)) w')
      (session_read_cb network_order stream_kcp (world (session wire)))
session_read_cb-Follows_example =
    session_read_cb-Follows network_order stream_kcp (world (session wire)) (session-IsValid wire)
      (λ _. wire-Framed)

-- Five bytes are left to flush.
abbrev flushing : Session (List ℕ)
flushing = record (session []) {
  wbuf = some (0 ∷ 1 ∷ 0 ∷ 9 ∷ 5 ∷ 6 ∷ 7 ∷ 8 ∷ 9 ∷ []);
  wbuf_flush = 4;
  wbuf_next = 9;
}

flushing-IsValid : IsValid flushing
flushing-IsValid = ground arith

abbrev pushing : World (List ℕ)
pushing = world (record (session []) { rbuf = some (65 ∷ 66 ∷ []) })

abbrev delivering : World (List ℕ)
delivering = record (world (session [])) { sends = took 100 ∷ [] }

process_buf-kcp_push_example :
    (msg : List ℕ) × ((kcp_push network_order stream_kcp pushing
        ≡ kcp_send network_order stream_kcp msg
            (record pushing { ss = record pushing.ss { rbuf = some [] } }))
      × Returns
          (λ ret w'.
            (ret ≡ ok) × (w'.out ≡ 65 ∷ 66 ∷ []) × (w'.ss.wbuf_flush ≡ 6) × (w'.ss.wbuf_next ≡ 6))
          (process_buf network_order stream_kcp
            (msg ++ [])
            (record delivering { ss = record delivering.ss { wbuf = some (msg ++ []) } })))
process_buf-kcp_push_example =
    process_buf-kcp_push network_order stream_kcp pushing (65 ∷ 66 ∷ []) [] delivering 100
      {more = []} refl (omega arith) (omega arith) refl refl (omega arith)

process_buf_short_push_example :
    process_buf network_order stream_kcp (0 ∷ 1 ∷ 0 ∷ 0 ∷ []) (world (session [])) ≡ none
unfolding tlv_header_read
process_buf_short_push_example =
    process_buf_short_push network_order stream_kcp (0 ∷ 1 ∷ 0 ∷ 0 ∷ []) (world (session []))
      (omega arith) refl (omega arith) refl
