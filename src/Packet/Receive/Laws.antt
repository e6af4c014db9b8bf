-- ===== src/Packet/Receive/Laws.antt =====
-- The receive queue does not overflow, and a round of the socket's callback leaves it empty.
use kcptun_libev.Base.{
  ◌≡◌, ℕ, ◌+◌, ◌-◌, ◌≤◌, ◌<◌, Bool, true, false, if_cases, if_both, List, [], ◌∷◌, ◌++◌, Option,
  none, some, length, length-append, length-take, take, min, ◌==◌, arith, refl, sym, ◌∙◌, ap,
  append_assoc, append-nil, length-eq-zero, Ends, inl, inr, Bool-cases,
}
use kcptun_libev.Library.{Serialize, Ikcp, Errno}
use kcptun_libev.Nonce.{Bloom, Noncegen}
use kcptun_libev.Session.Create.{KcpConf}
use kcptun_libev.Packet.{Crypto, mmsg_batch_size}
use kcptun_libev.Packet.Receive.{
  ReadOut, received, read_error, ReadRound, Incoming, recv_bytes, recv_end, recv_batches, pkt_recv,
  dispatched, pkt_read_cb, ReadCb,
}
use kcptun_libev.Server.{Server}
use kcptun_libev.Server.Table.{AllValid}
use kcptun_libev.Server.Dispatch.{Arrival, Behaves, queue_dispatch, queue_dispatch-AllValid}

-- What the calls of `recvmmsg` deliver to a queue with room for so many packets: what each of them gives,
-- one after the other, cut off at the frames there is memory for, the room, and the size of a batch. It
-- ends where the call would block, fails or gives nothing, where there is no memory for a frame, and
-- where the queue is full, and nowhere else.
pub data Delivers : ℕ → List ReadRound → List Arrival → Type 0 where
  would_block : {room : ℕ} → Delivers room [] []
  full : {room : ℕ} {rounds : List ReadRound} → room ≡ 0 → Delivers room rounds []
  no_frame :
      {room frames : ℕ} {out : ReadOut} {more : List ReadRound}
      → frames ≡ 0
      → Delivers room ((frames, out) ∷ more) []
  fails :
      {room frames : ℕ} {e : Errno} {more : List ReadRound}
      → Delivers room ((frames, read_error e) ∷ more) []
  gives_none :
      {room frames : ℕ} {ms : List Arrival} {more : List ReadRound}
      → length (take (min frames (min room mmsg_batch_size)) ms) ≡ 0
      → Delivers room ((frames, received ms) ∷ more) []
  gives :
      {room frames : ℕ} {ms new later : List Arrival} {more : List ReadRound}
      → new ≡ take (min frames (min room mmsg_batch_size)) ms
      → 0 < length new
      → Delivers (room - length new) more later
      → Delivers room ((frames, received ms) ∷ more) (new ++ later)

-- The `n` packets that the calls deliver were put at the end of the queue, which had room for `room`
-- more, in their order.
pub record Received (rounds : List ReadRound) (room : ℕ) (q : Incoming) (n : ℕ) (q' : Incoming)
    : Type 0 where
  pub new : List Arrival
  pub delivered : Delivers room rounds new
  pub queue_eq : q'.mq_recv ≡ q.mq_recv ++ new
  pub count_eq : n ≡ length new
  pub cap_eq : q'.mq_recv_cap ≡ q.mq_recv_cap
  pub fits : length new ≤ room

Received-none :
    (rounds : List ReadRound) (room : ℕ) (q q' : Incoming)
    → Delivers room rounds []
    → q'.mq_recv ≡ q.mq_recv
    → q'.mq_recv_cap ≡ q.mq_recv_cap
    → Received rounds room q 0 q'
Received-none rounds room q q' d e c = record {
  new = [];
  delivered = d;
  queue_eq = e ∙ sym (append-nil q.mq_recv);
  count_eq = refl;
  cap_eq = c;
  fits = omega arith;
}

-- What the loop returns, `n` being the packets of the rounds before.
abbrev Loop : List ReadRound → ℕ → ℕ → Incoming → ℕ × Incoming → Type 0
Loop rounds room n q r = (k : ℕ) × ((r.0 ≡ n + k) × Received rounds room q k r.1)

Loop-none :
    (rounds : List ReadRound) (room n : ℕ) (q q' : Incoming)
    → Delivers room rounds []
    → q'.mq_recv ≡ q.mq_recv
    → q'.mq_recv_cap ≡ q.mq_recv_cap
    → Loop rounds room n q (n, q')
Loop-none rounds room n q q' d e c =
    let z : n ≡ n + 0 = omega arith in (0, (z, Received-none rounds room q q' d e c))

Loop-trans :
    (frames : ℕ) (ms : List Arrival) (more : List ReadRound) (room n : ℕ) (q q' : Incoming)
    (new : List Arrival) (r : ℕ × Incoming)
    → new ≡ take (min frames (min room mmsg_batch_size)) ms
    → 0 < length new
    → q'.mq_recv ≡ q.mq_recv ++ new
    → q'.mq_recv_cap ≡ q.mq_recv_cap
    → length new ≤ room
    → Loop more (room - length new) (n + length new) q' r
    → Loop ((frames, received ms) ∷ more) room n q r
Loop-trans frames ms more room n q q' new r t p e c l (k, (z, g)) =
    let z' : r.0 ≡ n + (length new + k) = omega (arith, z) in
    (
      length new + k,
      (
        z',
        record {
          new = new ++ g.new;
          delivered = gives t p g.delivered;
          queue_eq = g.queue_eq ∙ ap (λ l. l ++ g.new) e ∙ append_assoc q.mq_recv new g.new;
          count_eq = omega (arith, g.count_eq, length-append new g.new);
          cap_eq = g.cap_eq ∙ c;
          fits = omega (arith, g.fits, length-append new g.new);
        },
      ),
    )

is_zero : (n : ℕ) → (n == 0) ≡ true → n ≡ 0
is_zero n h = ground arith

is_above : (n : ℕ) → (n == 0) ≡ false → 0 < n
is_above n h = ground arith

recv_batches-Loop :
    (rounds : List ReadRound) (room n b : ℕ) (q : Incoming)
    → Loop rounds room n q (recv_batches rounds room n b q)
unfolding recv_batches
recv_batches-Loop [] room n b q = Loop-none [] room n q (recv_end n b q).1 would_block refl refl
recv_batches-Loop ((frames, read_error e) ∷ more) room n b q =
    let stop = Loop-none ((frames, read_error e) ∷ more) room n q in
    if_both (Loop ((frames, read_error e) ∷ more) room n q) (frames == 0) _ _
      (stop q fails refl refl) (stop (recv_end n b q).1 fails refl refl)
recv_batches-Loop ((frames, received ms) ∷ more) room n b q =
    let new = take (min frames (min room mmsg_batch_size)) ms in
    let k = length new in
    let q' : Incoming = record q { mq_recv = q.mq_recv ++ new } in
    let l : k ≤ room = omega (arith, length-take (min frames (min room mmsg_batch_size)) ms) in
    let goal = Loop ((frames, received ms) ∷ more) room n q in
    let end = recv_end (n + k) (b + recv_bytes new) q' in
    let stop = Loop-none ((frames, received ms) ∷ more) room n q in
    let on = Loop-trans frames ms more room n q q' new in
    if_cases goal (frames == 0) _ _ (λ h. stop q (no_frame (is_zero frames h)) refl refl)
      (λ _.
        if_cases goal (k == 0) _ _
          (λ z. stop (recv_end n b q).1 (gives_none (is_zero k z)) refl refl)
          (λ z.
            if_cases goal (room - k == 0) _ _
              (λ y. on end refl (is_above k z) refl refl l (
                Loop-none more (room - k) (n + k) q' end.1 (full (is_zero (room - k) y)) refl refl))
              (λ _.
                on (recv_batches more (room - k) (n + k) (b + recv_bytes new) q') refl
                  (is_above k z) refl refl l
                  (recv_batches-Loop more (room - k) (n + k) (b + recv_bytes new) q'))))

Loop-Received :
    (rounds : List ReadRound) (room : ℕ) (q : Incoming) (r : ℕ × Incoming)
    → Loop rounds room 0 q r
    → Received rounds room q r.0 r.1
Loop-Received rounds room q r (k, (z, g)) = record {
  new = g.new;
  delivered = g.delivered;
  queue_eq = g.queue_eq;
  count_eq = omega (arith, z, g.count_eq);
  cap_eq = g.cap_eq;
  fits = g.fits;
}

-- However the calls of the system answer and however little memory there is, the packets that they
-- deliver are put at the end of the queue in their order, up to the first call that would block, fails,
-- gives none or has no frame, or until the queue is full; their number is the result, and there
-- are no more of them than the queue has room for.
pub pkt_recv-Received :
    (rounds : List ReadRound) (q : Incoming)
    → Received rounds
        (q.mq_recv_cap - length q.mq_recv)
        q
        (pkt_recv rounds q).0
        (pkt_recv rounds q).1
unfolding pkt_recv
pkt_recv-Received rounds q =
    let room = q.mq_recv_cap - length q.mq_recv in
    if_cases (λ (r : ℕ × Incoming). Received rounds room q r.0 r.1) (room == 0) _ _
      (λ h. Received-none rounds room q q (full (is_zero room h)) refl refl)
      (λ _.
        Loop-Received rounds room q (recv_batches rounds room 0 0 q)
          (recv_batches-Loop rounds room 0 0 q))

module _ (ser : Serialize) (lib : Ikcp) (bl : Bloom) (memory : Bool) (conf : KcpConf)
    (c : Option Crypto) where
  open lib use {Kcp}
  open bl use {Filter}

  -- What is left to do after a round behaves.
  abbrev pub AfterRound :
      (Server Kcp → Noncegen Filter → Type 0) → Option (ℕ × Server Kcp × Noncegen Filter) → Type 0
  AfterRound next none = Unit
  AfterRound next (some (_, s, g)) = next s g

  -- The packets of each round behave when their turn comes.
  unfoldable pub AllBehave :
      List (List ReadRound) → Incoming → Server Kcp → Noncegen Filter → Type 0
  AllBehave [] q s g = Unit
  AllBehave (r ∷ rs) q s g =
      Behaves ser lib bl memory conf c (pkt_recv r q).1.mq_recv
        (record s { last_recv_time = some s.now }) g
      × AfterRound (AllBehave rs (record (pkt_recv r q).1 { mq_recv = [] }))
          (queue_dispatch ser lib bl memory conf c (pkt_recv r q).1.mq_recv s g)

  abbrev Done : ReadCb ser lib bl memory conf c → Type 0
  Done o =
      Ends
        (λ (r : Incoming × Server Kcp × Noncegen Filter).
          (r.0.mq_recv ≡ []) × AllValid r.1.sessions)
        o

  dispatched-Done :
      (next : Incoming → Server Kcp → Noncegen Filter → ReadCb ser lib bl memory conf c)
      (N : Server Kcp → Noncegen Filter → Type 0) (q : Incoming)
      (o : Option (ℕ × Server Kcp × Noncegen Filter))
      → Ends (λ (r : ℕ × Server Kcp × Noncegen Filter). AllValid r.1.sessions) o
      → AfterRound N o
      → ((s' : Server Kcp) (g' : Noncegen Filter)
          → AllValid s'.sessions
          → N s' g'
          → Done (next (record q { mq_recv = [] }) s' g'))
      → Done (dispatched ser lib bl memory conf c next q o)
  dispatched-Done next N q none h b f = h
  dispatched-Done next N q (some (k, s', g')) h b f = f s' g' h b

  nothing-received :
      (r : List ReadRound) (q : Incoming)
      → q.mq_recv ≡ []
      → (pkt_recv r q).0 ≡ 0
      → (pkt_recv r q).1.mq_recv ≡ []
  nothing-received r q e z =
      let g = pkt_recv-Received r q in
      let n : g.new ≡ [] = length-eq-zero g.new (omega (arith, z, g.count_eq)) in
      g.queue_eq ∙ ap (λ l. q.mq_recv ++ l) n ∙ append-nil q.mq_recv ∙ e

  -- Reading all packets from the socket, in any number of rounds, ends without a fault, leaves all
  -- sessions valid, and leaves the receive queue empty, if it was empty and the sessions were valid, and
  -- if the packets of each round fit a frame and leave their sessions rows of messages each at least as
  -- long as its header.
  pub pkt_read_cb-AllValid :
      (rs : List (List ReadRound)) (q : Incoming) (s : Server Kcp) (g : Noncegen Filter)
      → q.mq_recv ≡ []
      → AllValid s.sessions
      → AllBehave rs q s g
      → Ends
          (λ (r : Incoming × Server Kcp × Noncegen Filter).
            (r.0.mq_recv ≡ []) × AllValid r.1.sessions)
          (pkt_read_cb ser lib bl memory conf c rs q s g)
  unfolding pkt_read_cb AllBehave
  pkt_read_cb-AllValid [] q s g e v b = (e, v)
  pkt_read_cb-AllValid (r ∷ rs) q s g e v (b, f) = elim (Bool-cases ((pkt_recv r q).0 == 0)) [
    | inl h ↦ rw (h, Ends) (nothing-received r q e (ground arith), v)
    | inr h ↦ rw h (
        dispatched-Done (pkt_read_cb ser lib bl memory conf c rs)
          (AllBehave rs (record (pkt_recv r q).1 { mq_recv = [] })) (pkt_recv r q).1
          (queue_dispatch ser lib bl memory conf c (pkt_recv r q).1.mq_recv s g)
          (queue_dispatch-AllValid ser lib bl memory conf c (pkt_recv r q).1.mq_recv s g v b) f
          (λ s' g' w b'.
            pkt_read_cb-AllValid rs (record (pkt_recv r q).1 { mq_recv = [] }) s' g' refl w b'))
  ]
