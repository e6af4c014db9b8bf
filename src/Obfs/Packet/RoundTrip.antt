-- ===== src/Obfs/Packet/RoundTrip.antt =====
-- What one obfuscator seals another opens (src/obfs.c).
use kcptun_libev.Base.{
  ◌≡◌, ℕ, ◌+◌, ◌-◌, ◌*◌, ◌/◌, ◌%◌, ◌^◌, ◌<◌, ◌≤◌, Bool, true, false, List, [], ◌∷◌, ◌++◌, some,
  length, length-append, take, drop, take-append_at, drop-append_at, append_assoc, ltb, ◌==◌, arith,
  refl, sym, Ends,
}
use kcptun_libev.Address.{SockAddr, inet, inet6, sa_matches}
use kcptun_libev.Obfs.{Obfs, ObfsCtx, Domain, ipv4, ipv6, find_ctx}
use kcptun_libev.Obfs.Packet.{
  Segment, obfs_open_ipv4, obfs_open_ipv6, obfs_open_inplace, is_loopback6, rd32, Opening,
  pseudo_iphdr, pseudo_ip6hdr,
}
use kcptun_libev.Obfs.Packet.Seal.{
  obfs_seal_ipv4, obfs_seal_ipv6, obfs_seal_inplace, seal_tcp, tcphdr,
}
use kcptun_libev.Obfs.Packet.Laws.{seal_tcp-open}
use kcptun_libev.Obfs.Packet.Checksum.{nth}

not-ltb : (n m : ℕ) → m ≤ n → ltb n m ≡ false
not-ltb n m h = ground arith

drop-append_two :
    (n m : ℕ) (a b c : List ℕ) → length a ≡ n → length b ≡ m → drop (n + m) (a ++ (b ++ c)) ≡ c
drop-append_two n m a b c h k =
    rw (sym (append_assoc a b c))
      (drop-append_at (n + m) (a ++ b) c (omega (arith, length-append a b)))

length-seal_tcp :
    (pseudo : List ℕ) (s0 s1 d0 d1 : ℕ) (ctx : ObfsCtx) (payload : List ℕ)
    → length (seal_tcp pseudo (s0 ∷ s1 ∷ []) (d0 ∷ d1 ∷ []) ctx payload) ≡ 20 + length payload
unfolding seal_tcp tcphdr
length-seal_tcp pseudo s0 s1 d0 d1 ctx payload = omega arith

-- The addresses of the two ends of a connection, source first, with their families.
pub data Route : Domain → SockAddr → SockAddr → Type 0 where
  via4 :
      (a b : List ℕ) (s0 s1 d0 d1 : ℕ)
      → length a ≡ 4
      → length b ≡ 4
      → Route ipv4 (inet a (s0 ∷ s1 ∷ [])) (inet b (d0 ∷ d1 ∷ []))
  via6 :
      (a b : List ℕ) (s0 s1 d0 d1 : ℕ)
      → length a ≡ 16
      → length b ≡ 16
      → Route ipv6 (inet6 a (s0 ∷ s1 ∷ []) 0 0) (inet6 b (d0 ∷ d1 ∷ []) 0 0)

module _ (debug : Bool) (ts : ℕ) where
  open_ipv4-lem :
      (id0 id1 : ℕ) (ctx c : ObfsCtx) (a b : List ℕ) (s0 s1 d0 d1 : ℕ) (payload : List ℕ) (o : Obfs)
      → length a ≡ 4
      → length b ≡ 4
      → length payload < 65496
      → sa_matches o.bind_addr (inet b (d0 ∷ d1 ∷ [])) ≡ true
      → find_ctx (inet a (s0 ∷ s1 ∷ [])) o.contexts ≡ some c
      → let n = 20 + length payload in
        let t = seal_tcp (pseudo_iphdr a b n) (s0 ∷ s1 ∷ []) (d0 ∷ d1 ∷ []) ctx payload in
        (obfs_open_ipv4 debug ts
          (69
            ∷ 2
            ∷ ((20 + n) / 256 % 256)
            ∷ ((20 + n) % 256)
            ∷ id0
            ∷ id1
            ∷ 64
            ∷ 0
            ∷ 64
            ∷ 6
            ∷ 0
            ∷ 0
            ∷ (a ++ (b ++ t)))
          o).0
        ≡ some (record { from = inet a (s0 ∷ s1 ∷ []); payload = payload })
  unfolding obfs_open_ipv4
  open_ipv4-lem id0 id1 ctx c a b s0 s1 d0 d1 payload o la lb h m f =
      let n = 20 + length payload in
      let t = seal_tcp (pseudo_iphdr a b n) (s0 ∷ s1 ∷ []) (d0 ∷ d1 ∷ []) ctx payload in
      let e1 : (20 + n) / 256 % 256 * 256 + (20 + n) % 256 ≡ 20 + n = omega arith in
      let e2 : 20 + n - 20 ≡ n = omega arith in
      let e3 : ltb (20 + n) 20 ≡ false = not-ltb (20 + n) 20 (omega arith) in
      let e4 : length (a ++ (b ++ t)) ≡ 8 + n = omega (
        arith,
        length-append a (b ++ t),
        length-append b t,
        length-seal_tcp (pseudo_iphdr a b n) s0 s1 d0 d1 ctx payload,
      ) in
      let e5 : ltb n 20 ≡ false = not-ltb n 20 (omega arith) in
      let e6 : take 4 (a ++ (b ++ t)) ≡ a = take-append_at 4 a (b ++ t) la in
      let e7 : drop 4 (a ++ (b ++ t)) ≡ b ++ t = drop-append_at 4 a (b ++ t) la in
      let e8 : take 4 (b ++ t) ≡ b = take-append_at 4 b t lb in
      let e9 : drop 8 (a ++ (b ++ t)) ≡ t = drop-append_two 4 4 a b t la lb in
      let pk : List ℕ =
        69
        ∷ 2
        ∷ ((20 + n) / 256 % 256)
        ∷ ((20 + n) % 256)
        ∷ id0
        ∷ id1
        ∷ 64
        ∷ 0
        ∷ 64
        ∷ 6
        ∷ 0
        ∷ 0
        ∷ (a ++ (b ++ t)) in
      let e10 : ltb (length pk) (20 + n) ≡ false =
        not-ltb (length pk) (20 + n) (omega (arith, e4)) in
      rw (e1, e2, e3, e10, e5, e9, e6, e7, e8)
        (seal_tcp-open debug ts (nth 0 (a ++ (b ++ t)) == 127) (pseudo_iphdr a b n) (inet b)
          (inet a) 0 2 s0 s1 d0 d1 ctx c payload o m f)

  open_ipv6-lem :
      (x0 x1 x2 x3 : ℕ) (ctx c : ObfsCtx) (a b : List ℕ) (s0 s1 d0 d1 : ℕ) (payload : List ℕ)
      (o : Obfs)
      → x0 / 16 ≡ 6
      → length a ≡ 16
      → length b ≡ 16
      → length payload < 65496
      → sa_matches o.bind_addr (inet6 b (d0 ∷ d1 ∷ []) 0 0) ≡ true
      → find_ctx (inet6 a (s0 ∷ s1 ∷ []) 0 0) o.contexts ≡ some c
      → let n = 20 + length payload in
        let t = seal_tcp (pseudo_ip6hdr a b n) (s0 ∷ s1 ∷ []) (d0 ∷ d1 ∷ []) ctx payload in
        (obfs_open_ipv6 debug ts
          (x0 ∷ x1 ∷ x2 ∷ x3 ∷ (n / 256 % 256) ∷ (n % 256) ∷ 6 ∷ 64 ∷ (a ++ (b ++ t)))
          o).0
        ≡ some (record { from = inet6 a (s0 ∷ s1 ∷ []) 0 0; payload = payload })
  unfolding obfs_open_ipv6
  open_ipv6-lem x0 x1 x2 x3 ctx c a b s0 s1 d0 d1 payload o v la lb h m f =
      let n = 20 + length payload in
      let t = seal_tcp (pseudo_ip6hdr a b n) (s0 ∷ s1 ∷ []) (d0 ∷ d1 ∷ []) ctx payload in
      let e1 : n / 256 % 256 * 256 + n % 256 ≡ n = omega arith in
      let e3 : ltb n 20 ≡ false = not-ltb n 20 (omega arith) in
      let e4 : length (a ++ (b ++ t)) ≡ 32 + n = omega (
        arith,
        length-append a (b ++ t),
        length-append b t,
        length-seal_tcp (pseudo_ip6hdr a b n) s0 s1 d0 d1 ctx payload,
      ) in
      let e6 : take 16 (a ++ (b ++ t)) ≡ a = take-append_at 16 a (b ++ t) la in
      let e7 : drop 16 (a ++ (b ++ t)) ≡ b ++ t = drop-append_at 16 a (b ++ t) la in
      let e8 : take 16 (b ++ t) ≡ b = take-append_at 16 b t lb in
      let e9 : drop 32 (a ++ (b ++ t)) ≡ t = drop-append_two 16 16 a b t la lb in
      let pk : List ℕ =
        x0 ∷ x1 ∷ x2 ∷ x3 ∷ (n / 256 % 256) ∷ (n % 256) ∷ 6 ∷ 64 ∷ (a ++ (b ++ t)) in
      let e10 : ltb (length pk) (40 + n) ≡ false =
        not-ltb (length pk) (40 + n) (omega (arith, e4)) in
      rw (v, e1, e3, e10, e9, e6, e7, e8)
        (seal_tcp-open debug ts (is_loopback6 debug ts a) (pseudo_ip6hdr a b n) (λ p. inet6 b p 0 0)
          (λ p. inet6 a p 0 0) (rd32 pk % 2 ^ 20) (rd32 pk % 2 ^ 20 / 2 ^ 20 % 4) s0 s1 d0 d1 ctx c
          payload o m f)

  open_inplace_lem :
      (b : List ℕ) (seg : Segment) (o : Obfs)
      → ((o1 : Obfs)
          → o1.contexts ≡ o.contexts
          → o1.bind_addr ≡ o.bind_addr
          → (elim o.domain as (λ _. Opening) [
            | ipv4 ↦ obfs_open_ipv4 debug ts b o1
            | ipv6 ↦ obfs_open_ipv6 debug ts b o1
          ]).0
            ≡ some seg)
      → (obfs_open_inplace debug ts b o).0 ≡ some seg
  unfolding obfs_open_inplace
  open_inplace_lem b seg o h =
      let st = o.stats in
      rw (
        obfs_open_inplace,
        h
            (record o {
              stats = record st { pkt_cap = st.pkt_cap + 1; byt_cap = st.byt_cap + length b };
            })
            refl refl,
      )

  -- A packet for a peer whose connection has been captured is sealed, and where the other side listens
  -- on the address it is for and knows its sender, it opens the packet: it finds the sender's address
  -- and the same bytes, whatever the numbers and the identification in the headers are and with or
  -- without the mark of congestion. The flow has 20 bits and the packet at most 65535 bytes.
  pub obfs_seal_inplace-open :
      (id : ℕ) (k : Domain) (sa da : SockAddr) (route : Route k sa da) (ctx c : ObfsCtx)
      (payload : List ℕ) (o1 o2 : Obfs)
      → o1.domain ≡ k
      → o2.domain ≡ k
      → find_ctx da o1.contexts ≡ some ctx
      → ctx.captured ≡ true
      → ctx.laddr ≡ sa
      → ctx.cap_flow < 2 ^ 20
      → length payload < 65496
      → sa_matches o2.bind_addr da ≡ true
      → find_ctx sa o2.contexts ≡ some c
      → Ends
          (λ r.
            (r.0 ≡ true)
            × ((obfs_open_inplace debug ts r.1.bytes o2).0
                ≡ some (record { from = sa; payload = payload })))
          (obfs_seal_inplace id (record { addr = da; bytes = payload }) o1)
  unfolding obfs_seal_inplace obfs_seal_ipv4 obfs_seal_ipv6
  obfs_seal_inplace-open id k sa da (via4 a b s0 s1 d0 d1 la lb) ctx c payload o1 o2 k1 k2 f cap l w
        h m g =
      let e : (20 + length payload) % 65536 ≡ 20 + length payload = omega arith in
      rw (f, Ends, cap, k1, l, e)
        (
          refl,
          open_inplace_lem _ _ o2 (λ o cs ba. rw k2 (
              open_ipv4-lem (id % 256) (id / 256 % 256) ctx c a b s0 s1 d0 d1 payload o la lb h
                (rw ba m) (rw cs g))),
        )
  obfs_seal_inplace-open id k sa da (via6 a b s0 s1 d0 d1 la lb) ctx c payload o1 o2 k1 k2 f cap l w
        h m g =
      let e : (20 + length payload) % 65536 ≡ 20 + length payload = omega arith in
      let v = 6 * 2 ^ 28 + 2 * 2 ^ 20 + ctx.cap_flow in
      rw (f, Ends, cap, k1, l, e)
        (
          refl,
          open_inplace_lem _ _ o2 (λ o cs ba. rw k2 (
              open_ipv6-lem (v / 16777216 % 256) (v / 65536 % 256) (v / 256 % 256) (v % 256) ctx c a
                b s0 s1 d0 d1 payload o (omega arith) la lb h (rw ba m) (rw cs g))),
        )
