-- ===== src/Packet.antt =====
-- Packets on their way between KCP and the socket (src/pktqueue.c, src/crypto.c, src/event_pkt.c).
-- The ciphers of libsodium are a parameter.
pub mod Receive
pub mod Seal
pub mod Replay
pub mod Send
pub mod Flush
use kcptun_libev.Base.{
  ℕ, zero, suc, ◌+◌, ◌-◌, ◌≡◌, Bool, true, false, not, List, [], ◌∷◌, ◌++◌, Option, none, some,
  length, take, drop, replicate, if◌then◌else◌, ltb, leb, ◌==◌, min,
}
use kcptun_libev.Library.{Errno, is_transient_error}
use kcptun_libev.Nonce.{Nonce, Bloom, Noncegen, noncegen_next, noncegen_verify}
use kcptun_libev.Server.{Frame}

-- A method with its key: `none` stands for an error of libsodium. What `seal` makes is longer than
-- the plain text by `overhead` bytes, and `unseal` takes it back.
pub record Crypto : Type 0 where
  pub nonce_size : ℕ
  pub overhead : ℕ
  pub seal : Nonce → List ℕ → Option (List ℕ)
  pub unseal : Nonce → List ℕ → Option (List ℕ)
  pub length-seal :
      (n : Nonce) (plain cipher : List ℕ)
      → seal n plain ≡ some cipher
      → length cipher ≡ length plain + overhead
  pub unseal-seal :
      (n : Nonce) (plain cipher : List ℕ)
      → seal n plain ≡ some cipher
      → unseal n cipher ≡ some plain

-- `none` where the result is 0.
unfoldable pub crypto_seal : Crypto → ℕ → Nonce → List ℕ → Option (List ℕ)
crypto_seal c dst_size nonce plain =
    if ltb dst_size (length plain + c.overhead) then none else c.seal nonce plain

unfoldable pub crypto_open : Crypto → ℕ → Nonce → List ℕ → Option (List ℕ)
crypto_open c dst_size nonce cipher =
    if ltb (dst_size + c.overhead) (length cipher)
    then none
    else if ltb (length cipher) c.overhead
    then none
    else c.unseal nonce cipher

-- The data with the padding behind it; `none` where the result is false.
unfoldable pub crypto_pad : List ℕ → ℕ → Option (List ℕ)
crypto_pad bytes npad = if ltb 255 npad then none else some (bytes ++ replicate npad npad)

module _ (c : Crypto) (bl : Bloom) where
  open bl use {Filter}

  -- The result, and the generator; `none` for the result is false. A failed assertion is `none`.
  unfoldable pub crypto_open_inplace :
      Noncegen Filter → List ℕ → ℕ → Option (Option (List ℕ) × Noncegen Filter)
  unfolding crypto_open
  crypto_open_inplace g bytes size =
      let src_len = length bytes in
      let nonce = drop (src_len - c.nonce_size) bytes in
      let (fresh, g') = noncegen_verify bl g nonce in
      if not (leb src_len size)
      then none
      else if leb src_len (c.nonce_size + c.overhead)
      then some (none, g)
      else elim (crypto_open c size nonce (take (src_len - c.nonce_size) bytes)) [
        | none ↦ some (none, g)
        | some plain ↦
            if length plain + c.overhead + c.nonce_size == src_len
            then some (if fresh then some plain else none, g')
            else some (none, g)
      ]

  -- `increment` and `random` are those of `noncegen_next`.
  unfoldable pub crypto_seal_inplace :
      (Nonce → Nonce)
      → Nonce
      → Noncegen Filter
      → List ℕ
      → ℕ
      → ℕ
      → Option (Option (List ℕ) × Noncegen Filter)
  unfolding crypto_seal crypto_pad
  crypto_seal_inplace increment random g bytes size pad =
      let (nonce, g') = noncegen_next bl increment random g in
      if not (leb (length bytes + c.overhead + c.nonce_size) size)
      then none
      else elim (crypto_pad bytes pad) [
        | none ↦ some (none, g)
        | some plain ↦ elim (crypto_seal c (size - c.nonce_size) nonce plain) [
          | none ↦ some (none, g')
          | some cipher ↦
              if length cipher == length plain + c.overhead
              then some (some (cipher ++ nonce), g')
              else some (none, g')
        ]
      ]

-- What a call of `sendmmsg` does: so many packets of those given are sent, or it fails.
pub data BatchOut : Type 0 where
  sent : ℕ → BatchOut
  batch_error : Errno → BatchOut

-- The part of `struct pktqueue` and `struct server` that sending works on: `wire` are the packets
-- sent, in order, `dropped` those deleted after an error that stays, and `batches` the answers of
-- `sendmmsg`; where these are used up it would block.
pub record Outgoing : Type 0 where
  pub mq_send : List Frame
  pub mq_send_cap : ℕ
  pub batches : List BatchOut
  pub wire : List Frame
  pub dropped : List Frame
  pub w_write_active : Bool
  pub now : ℕ
  pub last_send_time : Option ℕ
  pub pkt_tx : ℕ

-- `nbsend`
abbrev pub total_bytes : List Frame → ℕ
total_bytes [] = 0
total_bytes (m ∷ ms) = length m.bytes + total_bytes ms

abbrev pub mmsg_batch_size : ℕ
mmsg_batch_size = 128

-- `nsend += pkt_send_drop(q)`
unfoldable pub pkt_send_drop : ℕ → Outgoing → ℕ × Outgoing
pkt_send_drop nsend q =
    (nsend + length q.mq_send, record q { dropped = q.dropped ++ q.mq_send; mq_send = [] })

-- The loop of `pkt_send` and its end, with the packets sent so far. The queue is what is left of
-- it, which is moved to its front.
unfoldable pub send_batches : List BatchOut → ℕ → Outgoing → ℕ × Outgoing
unfolding pkt_send_drop
send_batches [] nsend q = (nsend, record q { batches = [] })
send_batches (batch_error e ∷ more) nsend q =
    let q' = record q { batches = more } in
    if is_transient_error e then (nsend, q') else pkt_send_drop nsend q'
send_batches (sent m ∷ more) nsend q =
    let n = min m (min (length q.mq_send) mmsg_batch_size) in
    let q' : Outgoing = record q {
      batches = more;
      wire = q.wire ++ take n q.mq_send;
      mq_send = drop n q.mq_send;
      pkt_tx = q.pkt_tx + total_bytes (take n q.mq_send);
    } in
    let rest = send_batches more (nsend + n) q' in
    if n == 0 then (nsend, q') else if length q'.mq_send == 0 then (nsend + n, q') else rest

unfoldable pub pkt_send : Outgoing → ℕ × Outgoing
pkt_send q =
    let (n, q') = send_batches q.batches 0 q in
    if length q.mq_send == 0 then (0, q) else (n, record q' { last_send_time = some q.now })

-- The loop of `pkt_flush`: `none` where the rounds given are used up.
unfoldable pub flush_rounds : ℕ → Outgoing → Option Outgoing
flush_rounds zero q = none
flush_rounds (suc fuel) q =
    let (n, q') = pkt_send q in let rest = flush_rounds fuel q' in if n == 0 then some q' else rest

-- Each round but the last takes a packet out of the queue.
unfoldable pub pkt_flush : Outgoing → Option Outgoing
pkt_flush q = flush_rounds (length q.mq_send + 1) q

unfoldable pub pkt_notify_send : Outgoing → Option Outgoing
unfolding pkt_flush
pkt_notify_send q = elim (pkt_flush q) [
  | none ↦ none
  | some q' ↦ some (if ltb 0 (length q'.mq_send) then record q' { w_write_active = true } else q')
]

unfoldable pub pkt_write_cb : Outgoing → Option Outgoing
unfolding pkt_flush
pkt_write_cb q =
    if length q.mq_send == 0 then some (record q { w_write_active = false }) else pkt_flush q

-- The end of `queue_send`, behind the sealing of the packet; it is discarded where the queue is full.
unfoldable pub enqueue : Frame → Outgoing → Option (Bool × Outgoing)
unfolding pkt_notify_send
enqueue msg q =
    if leb q.mq_send_cap (length q.mq_send)
    then some (false, q)
    else elim (pkt_notify_send (record q { mq_send = q.mq_send ++ msg ∷ [] })) [
      | none ↦ none
      | some q' ↦ some (true, q')
    ]
