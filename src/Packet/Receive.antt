-- ===== src/Packet/Receive.antt =====
-- Packets that come in (src/event_pkt.c, pkt_recv with recvmmsg, and pkt_read_cb).
pub mod Laws
use kcptun_libev.Base.{
  ℕ, ◌+◌, ◌-◌, Bool, true, false, List, [], ◌∷◌, ◌++◌, Option, none, some, length, take, min,
  if◌then◌else◌, ◌==◌,
}
use kcptun_libev.Library.{Serialize, Ikcp, Errno}
use kcptun_libev.Nonce.{Bloom, Noncegen}
use kcptun_libev.Session.Create.{KcpConf}
use kcptun_libev.Packet.{Crypto, mmsg_batch_size}
use kcptun_libev.Server.{Server, Frame}
use kcptun_libev.Server.Dispatch.{Arrival, queue_dispatch}

-- What a call of `recvmmsg` does: it fails, or fills frames, at most as many as it is given.
pub data ReadOut : Type 0 where
  received : List Arrival → ReadOut
  read_error : Errno → ReadOut

-- One round of the loop: how many frames there is memory for, and what the call does.
abbrev pub ReadRound : Type 0
ReadRound = ℕ × ReadOut

-- The part of `struct pktqueue` and `struct server` that receiving works on.
pub record Incoming : Type 0 where
  pub mq_recv : List Arrival
  pub mq_recv_cap : ℕ
  pub pkt_rx : ℕ

-- `nbrecv`
abbrev pub recv_bytes : List Arrival → ℕ
recv_bytes [] = 0
recv_bytes ((m, _) ∷ ms) = length m.bytes + recv_bytes ms

abbrev pub recv_end : ℕ → ℕ → Incoming → ℕ × Incoming
recv_end nrecv nbrecv q = (nrecv, record q { pkt_rx = q.pkt_rx + nbrecv })

-- The loop of `pkt_recv`. Where no rounds are left the call would block. Where not even one frame can
-- be made, the bytes of the rounds before are not counted.
unfoldable pub recv_batches : List ReadRound → ℕ → ℕ → ℕ → Incoming → ℕ × Incoming
recv_batches [] navail nrecv nbrecv q = recv_end nrecv nbrecv q
recv_batches ((frames, read_error e) ∷ more) navail nrecv nbrecv q =
    if frames == 0 then (nrecv, q) else recv_end nrecv nbrecv q
recv_batches ((frames, received ms) ∷ more) navail nrecv nbrecv q =
    let new = take (min frames (min navail mmsg_batch_size)) ms in
    let n = length new in
    let q' : Incoming = record q { mq_recv = q.mq_recv ++ new } in
    let rest = recv_batches more (navail - n) (nrecv + n) (nbrecv + recv_bytes new) q' in
    if frames == 0
    then (nrecv, q)
    else if n == 0
    then recv_end nrecv nbrecv q
    else if navail - n == 0
    then recv_end (nrecv + n) (nbrecv + recv_bytes new) q'
    else rest

unfoldable pub pkt_recv : List ReadRound → Incoming → ℕ × Incoming
unfolding recv_batches
pkt_recv rounds q =
    let navail = q.mq_recv_cap - length q.mq_recv in
    if navail == 0 then (0, q) else recv_batches rounds navail 0 0 q

module _ (ser : Serialize) (lib : Ikcp) (bl : Bloom) (memory : Bool) (conf : KcpConf)
    (c : Option Crypto) where
  open lib use {Kcp}
  open bl use {Filter}

  abbrev pub ReadCb : Type 0
  ReadCb = Option (Incoming × Server Kcp × Noncegen Filter)

  -- `queue_dispatch` leaves no packet in the queue.
  abbrev pub dispatched :
      (Incoming → Server Kcp → Noncegen Filter → ReadCb)
      → Incoming
      → Option (ℕ × Server Kcp × Noncegen Filter)
      → ReadCb
  dispatched next q none = none
  dispatched next q (some (_, s, g)) = next (record q { mq_recv = [] }) s g

  -- The loop, with the rounds of each call of `pkt_recv`; a call without rounds receives nothing.
  unfoldable pub pkt_read_cb :
      List (List ReadRound) → Incoming → Server Kcp → Noncegen Filter → ReadCb
  pkt_read_cb [] q s g = some (q, s, g)
  pkt_read_cb (r ∷ rs) q s g =
      let (n, q') = pkt_recv r q in
      let rest =
        dispatched (pkt_read_cb rs) q' (queue_dispatch ser lib bl memory conf c q'.mq_recv s g) in
      if n == 0 then some (q', s, g) else rest
