-- ===== src/Tests/Receiving.antt =====
-- A packet for a session of the server, and a round with it.
use kcptun_libev.Base.{
  Option, refl, Ends, ◌≡◌, ◌≢◌, ℕ, ◌<◌, true, List, [], ◌∷◌, none, some, arith, ap,
}
use kcptun_libev.Library.{other}
use kcptun_libev.Library.Concrete.{network_order, stream_kcp}
use kcptun_libev.Address.{SockAddr, inet, sa_equals}
use kcptun_libev.Session.Step.{Returns, no_socket, got, took}
use kcptun_libev.Session.Valid.{Follows}
use kcptun_libev.Session.Process.{tlv_header_read, tcp_socket_cb}
use kcptun_libev.Session.Process.Laws.{message, short}
use kcptun_libev.Session.Process.Socket.{tcp_socket_cb-Follows}
use kcptun_libev.Server.{Frame, table_find, Server}
use kcptun_libev.Server.Table.{AllValid}
use kcptun_libev.Server.Receive.{Answers, queue_recv}
use kcptun_libev.Server.Receive.Laws.{FramedFor, receiver, queue_recv-other}
use kcptun_libev.Server.Dispatch.{Arrival, Behaves, open_frame, queue_dispatch, AfterOne}
use kcptun_libev.Packet.Receive.{ReadRound, received, Incoming, pkt_recv, recv_batches, pkt_read_cb}
use kcptun_libev.Packet.Receive.Laws.{
  Received, pkt_recv-Received, AllBehave, pkt_read_cb-AllValid, AfterRound,
}
use kcptun_libev.Nonce.{Nonce, Noncegen}
use kcptun_libev.Tests.Accepting.{kcp_conf}
use kcptun_libev.Tests.Messages.{address, server, server-AllValid}
use kcptun_libev.Tests.Services.{exact, generator}
use kcptun_libev.Tests.Sessions.{session, world, wire, wire-Framed, session-IsValid}

tcp_socket_cb-Follows_example :
    Returns
      (λ _ w'. Follows (world (session wire)) w')
      (tcp_socket_cb network_order stream_kcp true true (world (session wire)))
tcp_socket_cb-Follows_example =
    tcp_socket_cb-Follows network_order stream_kcp true true (world (session wire))
      (session-IsValid wire) (λ _. wire-Framed)

-- The packet of conversation 7 from the peer of the session; it is a message of seven bytes.
abbrev data_packet : Frame
data_packet = record { addr = (session []).raddr; bytes = 0 ∷ 0 ∷ 0 ∷ 7 ∷ 1 ∷ 2 ∷ 3 ∷ [] }

abbrev answers : Answers
answers = record {
  recvs = got [] ∷ [];
  sends = took 1 ∷ [];
  dial = no_socket other;
  sockerr = none;
}

data_packet-FramedFor :
    FramedFor network_order stream_kcp data_packet
      (receiver network_order stream_kcp true kcp_conf data_packet server)
unfolding tlv_header_read table_find sa_equals
data_packet-FramedFor = message data_packet.bytes (omega arith) (short [] (omega arith))

fourth : SockAddr → ℕ
fourth (inet (_ ∷ _ ∷ _ ∷ d ∷ _) _) = d
fourth _ = 0

distinct : (n m : ℕ) → m < n → n ≢ m
distinct n m h e = omega arith

address-other : address 8 ≢ data_packet.addr
unfolding fourth
address-other e = distinct 8 1 (omega arith) (ap fourth e)

queue_recv-other_example :
    Ends
      (λ r. table_find 7 (address 8) r.1.sessions ≡ table_find 7 (address 8) server.sessions)
      (queue_recv network_order stream_kcp true kcp_conf answers data_packet server)
queue_recv-other_example =
    queue_recv-other network_order stream_kcp true kcp_conf answers data_packet server 7 (address 8)
      server-AllValid data_packet-FramedFor address-other

abbrev round : List Arrival
round = (data_packet, answers) ∷ []

nothing_left :
    (o : Option (List ℕ × Server (List ℕ)))
    → AfterOne network_order stream_kcp exact true kcp_conf (λ _. Unit {0}) o
nothing_left none = tt
nothing_left (some _) = tt

nothing_queued :
    (o : Option (ℕ × Server (List ℕ) × Noncegen (List Nonce)))
    → AfterRound network_order stream_kcp exact true kcp_conf none (λ _ _. Unit {0}) o
nothing_queued none = tt
nothing_queued (some _) = tt

round-Behaves :
    Behaves network_order stream_kcp exact true kcp_conf none round
      (record server { last_recv_time = some server.now })
      generator
unfolding Behaves open_frame
round-Behaves = (
  omega arith,
  (
    data_packet-FramedFor,
    nothing_left (
        queue_recv network_order stream_kcp true kcp_conf answers data_packet
          (record server { last_recv_time = some server.now })),
  ),
)

-- The socket has one packet, and the queue room for two.
abbrev rounds : List ReadRound
rounds = (9, received round) ∷ []

abbrev incoming : Incoming
incoming = record { mq_recv = []; mq_recv_cap = 2; pkt_rx = 0 }

pkt_recv-Received_example :
    Received rounds 2 incoming (pkt_recv rounds incoming).0 (pkt_recv rounds incoming).1
pkt_recv-Received_example = pkt_recv-Received rounds incoming

rounds-AllBehave :
    AllBehave network_order stream_kcp exact true kcp_conf none
      (rounds ∷ [])
      incoming
      server
      generator
unfolding AllBehave pkt_recv recv_batches
rounds-AllBehave = (
  round-Behaves,
  nothing_queued
      (queue_dispatch network_order stream_kcp exact true kcp_conf none round server generator),
)

pkt_read_cb-AllValid_example :
    Ends
      (λ r. (r.0.mq_recv ≡ []) × AllValid r.1.sessions)
      (pkt_read_cb network_order stream_kcp exact true kcp_conf none
        (rounds ∷ [])
        incoming
        server
        generator)
pkt_read_cb-AllValid_example =
    pkt_read_cb-AllValid network_order stream_kcp exact true kcp_conf none (rounds ∷ []) incoming
      server generator refl server-AllValid rounds-AllBehave
