-- ===== src/Tests/Packets.antt =====
-- Packets that are sealed, opened, queued and sent, with a cipher that appends a tag of two bytes.
use kcptun_libev.Base.{
  Ends, none, ◌≡◌, ℕ, ◌+◌, ◌-◌, refl, true, false, List, [], ◌∷◌, ◌++◌, some, length, take, arith,
  length-append, take-append_at, ◌∙◌, ap, sym,
}
use kcptun_libev.Nonce.{
  Nonce, Noncegen, noncegen_next, noncegen_verify, random, ppbloom_check_add, retire,
}
use kcptun_libev.Address.{inet}
use kcptun_libev.Server.{Frame}
use kcptun_libev.Packet.{
  Crypto, crypto_open, crypto_seal_inplace, crypto_open_inplace, Outgoing, sent, pkt_flush, enqueue,
}
use kcptun_libev.Packet.Seal.{padded, crypto_open_inplace-seal_inplace}
use kcptun_libev.Packet.Replay.{Refused, open_all, crypto_open_inplace-replay}
use kcptun_libev.Packet.Send.{Split}
use kcptun_libev.Packet.Flush.{Enqueued, pkt_flush-Split, enqueue-Enqueued}
use kcptun_libev.Tests.Services.{exact, generator}

abbrev tagged : List ℕ → List ℕ
tagged plain = plain ++ 170 ∷ 187 ∷ []

abbrev untag : List ℕ → List ℕ
untag cipher = take (length cipher - 2) cipher

some-injective : {x y : List ℕ} → some x ≡ some y → x ≡ y
some-injective e = cc

length-tagged :
    (n : Nonce) (plain cipher : List ℕ)
    → some (tagged plain) ≡ some cipher
    → length cipher ≡ length plain + 2
length-tagged n plain cipher e =
    ap length (sym (some-injective e)) ∙ length-append plain (170 ∷ 187 ∷ [])

untag-tagged :
    (n : Nonce) (plain cipher : List ℕ)
    → some (tagged plain) ≡ some cipher
    → some (untag cipher) ≡ some plain
untag-tagged n plain cipher e =
    ap (λ c. some (untag c)) (sym (some-injective e))
    ∙ ap some (
        take-append_at (length (tagged plain) - 2) plain (170 ∷ 187 ∷ [])
          (omega (arith, length-append plain (170 ∷ 187 ∷ []))))

abbrev tag_cipher : Crypto
tag_cipher = record {
  nonce_size = 2;
  overhead = 2;
  seal = λ _ plain. some (tagged plain);
  unseal = λ _ cipher. some (untag cipher);
  length-seal = length-tagged;
  unseal-seal = untag-tagged;
}

-- Five bytes with two bytes of padding, under a nonce that the peer has not seen.
abbrev payload : List ℕ
payload = 1 ∷ 2 ∷ 3 ∷ 4 ∷ 5 ∷ []

abbrev sender : Noncegen (List Nonce)
sender = record generator { method = random }

next_nonce : (noncegen_next exact (λ n. n) (8 ∷ 9 ∷ []) sender).0 ≡ 8 ∷ 9 ∷ []
unfolding noncegen_next
next_nonce = refl

unseen :
    (noncegen_verify exact generator (noncegen_next exact (λ n. n) (8 ∷ 9 ∷ []) sender).0).0 ≡ true
unfolding noncegen_verify noncegen_next ppbloom_check_add retire
unseen = refl

crypto_open_inplace-seal_inplace_example :
    (crypto_seal_inplace tag_cipher exact (λ n. n) (8 ∷ 9 ∷ []) sender payload 1500 2
      ≡ some (
        some (tagged (padded payload 2) ++ (noncegen_next exact (λ n. n) (8 ∷ 9 ∷ []) sender).0),
        (noncegen_next exact (λ n. n) (8 ∷ 9 ∷ []) sender).1,
      ))
    × (crypto_open_inplace tag_cipher exact generator
          (tagged (padded payload 2) ++ (noncegen_next exact (λ n. n) (8 ∷ 9 ∷ []) sender).0)
          1500
        ≡ some (
          some (padded payload 2),
          (noncegen_verify exact generator (noncegen_next exact (λ n. n) (8 ∷ 9 ∷ []) sender).0).1,
        ))
crypto_open_inplace-seal_inplace_example =
    crypto_open_inplace-seal_inplace tag_cipher exact (λ n. n) (8 ∷ 9 ∷ []) sender generator payload
      (tagged (padded payload 2)) 1500 1500 2 (ap length next_nonce) (omega arith) (omega arith)
      (omega arith) (omega arith) refl unseen

-- The packet of that payload, and the receiver after it and after another packet.
abbrev packet : List ℕ
packet = 1 ∷ 2 ∷ 170 ∷ 187 ∷ 8 ∷ 9 ∷ []

abbrev other_packet : List ℕ
other_packet = 3 ∷ 170 ∷ 187 ∷ 7 ∷ 7 ∷ []

abbrev after_one : Noncegen (List Nonce)
after_one = record generator {
  ppbloom = record generator.ppbloom { bloom0 = (8 ∷ 9 ∷ []) ∷ []; count0 = 3; current = 1 };
}

abbrev after_two : Noncegen (List Nonce)
after_two = record generator {
  ppbloom = record after_one.ppbloom { bloom1 = (7 ∷ 7 ∷ []) ∷ []; count1 = 1 };
}

opened_once :
    crypto_open_inplace tag_cipher exact generator packet 1500 ≡ some (some (1 ∷ 2 ∷ []), after_one)
unfolding crypto_open_inplace crypto_open noncegen_verify ppbloom_check_add retire
opened_once = refl

opened_other : open_all tag_cipher exact 1500 after_one (other_packet ∷ []) ≡ some after_two
unfolding open_all crypto_open_inplace crypto_open noncegen_verify ppbloom_check_add retire
opened_other = refl

crypto_open_inplace-replay_example :
    Refused tag_cipher exact 1500 (crypto_open_inplace tag_cipher exact after_two packet 1500)
crypto_open_inplace-replay_example =
    crypto_open_inplace-replay tag_cipher exact 1500 generator after_one after_two packet
      (1 ∷ 2 ∷ []) (other_packet ∷ []) (ground arith) opened_once opened_other (omega arith)

abbrev frame : ℕ → Frame
frame n = record { addr = inet (10 ∷ 0 ∷ 0 ∷ n ∷ []) (31 ∷ 144 ∷ []); bytes = n ∷ [] }

-- Three packets wait, and the socket takes two of them.
abbrev outgoing : Outgoing
outgoing = record {
  mq_send = frame 1 ∷ frame 2 ∷ frame 3 ∷ [];
  mq_send_cap = 256;
  batches = sent 2 ∷ [];
  wire = [];
  dropped = [];
  w_write_active = false;
  now = 2000;
  last_send_time = none;
  pkt_tx = 0;
}

pkt_flush-Split_example : Ends (λ q'. (k : ℕ) × Split outgoing k q') (pkt_flush outgoing)
pkt_flush-Split_example = pkt_flush-Split outgoing

enqueue-Enqueued_example : Ends (Enqueued (frame 4) outgoing) (enqueue (frame 4) outgoing)
enqueue-Enqueued_example = enqueue-Enqueued (frame 4) outgoing
