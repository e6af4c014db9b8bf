-- ===== src/Packet/Flush.antt =====
-- The flush of the send queue ends, and a packet that is queued keeps its place.
use kcptun_libev.Base.{
  Ends, ℕ, zero, suc, ◌+◌, ◌≤◌, ◌<◌, ◌≡◌, inl, inr, Bool, true, false, [], ◌∷◌, ◌++◌, Option, none,
  some, length, arith, refl, ap, ◌==◌, ltb, leb, Bool-cases, if◌then◌else◌, length-append,
}
use kcptun_libev.Server.{Frame}
use kcptun_libev.Packet.{Outgoing, pkt_send, flush_rounds, pkt_flush, pkt_notify_send, enqueue}
use kcptun_libev.Packet.Send.{Split, Split-trans, pkt_send-Split}

flush_step :
    (stop : Bool) (q q' : Outgoing) (n : ℕ) (rest : Option Outgoing)
    → Split q n q'
    → (stop ≡ false → Ends (λ q''. (k : ℕ) × Split q' k q'') rest)
    → Ends (λ q''. (k : ℕ) × Split q k q'') (if stop then some q' else rest)
flush_step true q q' n rest s r = (n, s)
flush_step false q q' n none s r = r refl
flush_step false q q' n (some q'') s r = let (k, t) = r refl in (n + k, Split-trans s t)

Split-length : {q q' : Outgoing} {n : ℕ} → Split q n q' → length q'.mq_send + n ≡ length q.mq_send
Split-length {q} {q'} {n} s = omega (
  arith,
  ap length s.queue_eq,
  length-append s.gone (s.lost ++ q'.mq_send),
  length-append s.lost q'.mq_send,
  s.count_eq,
)

flush_rounds-Split :
    (fuel : ℕ) (q : Outgoing)
    → length q.mq_send < fuel
    → Ends (λ q'. (k : ℕ) × Split q k q') (flush_rounds fuel q)
unfolding flush_rounds
flush_rounds-Split zero q h = absurd (omega arith)
flush_rounds-Split (suc fuel) q h =
    let s = pkt_send-Split q in
    flush_step ((pkt_send q).0 == 0) q (pkt_send q).1 (pkt_send q).0
      (flush_rounds fuel (pkt_send q).1) s
      (λ e. flush_rounds-Split fuel (pkt_send q).1 (ground (arith, Split-length s)))

-- However the socket answers, the flush ends, and has sent the packets at the front of the queue in
-- order and once, dropped those after them, and kept the rest.
pub pkt_flush-Split : (q : Outgoing) → Ends (λ q'. (k : ℕ) × Split q k q') (pkt_flush q)
unfolding pkt_flush
pkt_flush-Split q = flush_rounds-Split (length q.mq_send + 1) q (omega arith)

notify_end :
    (q : Outgoing) (o : Option Outgoing)
    → Ends (λ q'. (k : ℕ) × Split q k q') o
    → Ends
        (λ q'. (k : ℕ) × Split q k q')
        (elim o [
          | none ↦ none
          | some q' ↦
              some (if ltb 0 (length q'.mq_send) then record q' { w_write_active = true } else q')
        ])
notify_end q none h = h
notify_end q (some q') (k, s) = (k, ground (arith, s))

-- What `queue_send` does with a packet: a full queue refuses it and stays as it is; otherwise it is
-- the last of the packets that are sent, dropped or kept.
abbrev pub Enqueued : Frame → Outgoing → Bool × Outgoing → Type 0
Enqueued msg q (false, q') = (q' ≡ q) × (q.mq_send_cap ≤ length q.mq_send)
Enqueued msg q (true, q') = (k : ℕ) × Split (record q { mq_send = q.mq_send ++ msg ∷ [] }) k q'

enqueue_end :
    (msg : Frame) (q : Outgoing) (o : Option Outgoing)
    → Ends (λ q'. (k : ℕ) × Split (record q { mq_send = q.mq_send ++ msg ∷ [] }) k q') o
    → Ends (Enqueued msg q) (elim o [ none ↦ none | some q' ↦ some (true, q') ])
enqueue_end msg q none h = h
enqueue_end msg q (some q') h = h

-- Queueing a packet ends; a full queue refuses the packet and stays as it is, and otherwise the
-- packet is the last of those that are sent in order, dropped or kept.
pub enqueue-Enqueued : (msg : Frame) (q : Outgoing) → Ends (Enqueued msg q) (enqueue msg q)
unfolding enqueue pkt_notify_send
enqueue-Enqueued msg q =
    let q' : Outgoing = record q { mq_send = q.mq_send ++ msg ∷ [] } in
    elim (Bool-cases (leb q.mq_send_cap (length q.mq_send))) [
      | inl e ↦ rw e (refl, ground arith)
      | inr e ↦ rw e (
          enqueue_end msg q (pkt_notify_send q')
            (notify_end q' (pkt_flush q') (pkt_flush-Split q')))
    ]
