-- ===== src/Packet/Seal.antt =====
-- Sealing and opening packets: what is sealed can be opened, once.
use kcptun_libev.Base.{
  ℕ, ◌+◌, ◌-◌, ◌≤◌, ◌<◌, ◌≡◌, true, List, ◌++◌, some, length, replicate, arith, length-append,
  drop-append_at, take-append_at,
}
use kcptun_libev.Nonce.{Nonce, Bloom, Noncegen, noncegen_next, noncegen_verify}
use kcptun_libev.Packet.{
  Crypto, crypto_seal, crypto_open, crypto_pad, crypto_open_inplace, crypto_seal_inplace,
}

abbrev pub padded : List ℕ → ℕ → List ℕ
padded bytes pad = bytes ++ replicate pad pad

module _ (c : Crypto) (bl : Bloom) where
  open bl use {Filter}

  -- A packet that has room for its padding, nonce and overhead is sealed, where the cipher does not
  -- fail, and a peer that has not seen its nonce opens it to the same data and padding.
  pub crypto_open_inplace-seal_inplace :
      (increment : Nonce → Nonce) (random : Nonce) (g peer : Noncegen Filter)
      (bytes cipher : List ℕ) (size size' pad : ℕ)
      → length (noncegen_next bl increment random g).0 ≡ c.nonce_size
      → 0 < length (padded bytes pad)
      → pad ≤ 255
      → length (padded bytes pad) + c.overhead + c.nonce_size ≤ size
      → length (padded bytes pad) + c.overhead + c.nonce_size ≤ size'
      → c.seal (noncegen_next bl increment random g).0 (padded bytes pad) ≡ some cipher
      → (noncegen_verify bl peer (noncegen_next bl increment random g).0).0 ≡ true
      → let nonce = (noncegen_next bl increment random g).0 in
        (crypto_seal_inplace c bl increment random g bytes size pad
          ≡ some (some (cipher ++ nonce), (noncegen_next bl increment random g).1))
        × (crypto_open_inplace c bl peer (cipher ++ nonce) size'
            ≡ some (some (padded bytes pad), (noncegen_verify bl peer nonce).1))
  unfolding crypto_open_inplace crypto_seal_inplace crypto_open crypto_seal crypto_pad
  crypto_open_inplace-seal_inplace increment random g peer bytes cipher size size' pad n p q r r' s
        v =
      let nonce = (noncegen_next bl increment random g).0 in
      let plain = padded bytes pad in
      let total : length (cipher ++ nonce) ≡ length plain + c.overhead + c.nonce_size =
        omega (arith, length-append cipher nonce, n, c.length-seal nonce plain cipher s) in
      let at : length cipher ≡ length (cipher ++ nonce) - c.nonce_size =
        omega (arith, total, c.length-seal nonce plain cipher s) in
      ground (
        arith,
        total,
        c.length-seal nonce plain cipher s,
        c.unseal-seal nonce plain cipher s,
        length-append bytes (replicate pad pad),
        drop-append_at (length (cipher ++ nonce) - c.nonce_size) cipher nonce at,
        take-append_at (length (cipher ++ nonce) - c.nonce_size) cipher nonce at,
      )
