-- ===== src/Obfs/Packet/Laws.antt =====
-- What is sealed is opened (src/obfs.c).
use kcptun_libev.Base.{
  ◌≡◌, ℕ, ◌+◌, ◌-◌, ◌*◌, ◌/◌, ◌%◌, ◌<◌, Bool, true, false, List, [], ◌∷◌, ◌++◌, some, length, take,
  drop, take-append_at, drop-append_at, ltb, ◌==◌, arith, refl, if◌then◌else◌, ==_iff, not, ◌&&◌,
}
use kcptun_libev.Address.{SockAddr, sa_matches}
use kcptun_libev.Obfs.{Obfs, ObfsCtx, find_ctx}
use kcptun_libev.Obfs.Packet.{tcp_check, check_field, rst, psh, obfs_inbound, obfs_open_tcp}
use kcptun_libev.Obfs.Packet.Seal.{tcphdr, seal_check, seal_tcp}
use kcptun_libev.Obfs.Packet.Checksum.{in_cksum, in_cksum_fin, nth}

in_cksum_fin-lt : (s : ℕ) (b : List ℕ) → in_cksum_fin s b < 65536
unfolding in_cksum_fin
in_cksum_fin-lt s b = omega arith

word-bytes : (c : ℕ) → c < 65536 → (c == c % 256 + c / 256 % 256 * 256) ≡ true
word-bytes c h = (==_iff c (c % 256 + c / 256 % 256 * 256)).1 (omega arith)

take-length : (xs : List ℕ) → take (length xs) xs ≡ xs
take-length [] = refl
take-length (x ∷ xs) = rw (take-length xs)

flags-psh : (b : Bool) → ((if b then 88 else 24) / 8 % 2 == 1) ≡ true
flags-psh true = refl
flags-psh false = refl

flags-rst : (b : Bool) → ((if b then 88 else 24) / 4 % 2 == 1) ≡ false
flags-rst true = refl
flags-rst false = refl

and-false : (b : Bool) → (b && false) ≡ false
and-false true = refl
and-false false = refl

module _ (debug : Bool) (ts : ℕ) where
  inbound-psh :
      (from : SockAddr) (flow ecn : ℕ) (tcp payload : List ℕ) (c : ObfsCtx) (o : Obfs)
      → rst tcp ≡ false
      → psh tcp ≡ true
      → find_ctx from o.contexts ≡ some c
      → (obfs_inbound debug ts from flow ecn tcp payload o).0
        ≡ some (record { from = from; payload = payload })
  unfolding obfs_inbound
  inbound-psh from flow ecn tcp payload c o r p f = rw (obfs_inbound, f, r, and-false debug, p)

  -- A header with the right checksum, for an address that is listened on, is accepted.
  open_tcp-accepts :
      (unchecked : Bool) (pseudo : List ℕ) (dest from : List ℕ → SockAddr) (flow ecn : ℕ)
      (tcp payload : List ℕ) (o : Obfs)
      → length tcp ≡ 20
      → nth 12 tcp / 16 * 4 ≡ 20
      → (tcp_check pseudo tcp payload == check_field tcp) ≡ true
      → sa_matches o.bind_addr (dest (take 2 (drop 2 tcp))) ≡ true
      → obfs_open_tcp debug ts unchecked pseudo dest from flow ecn
          (20 + length payload)
          (tcp ++ payload)
          o
        ≡ obfs_inbound debug ts (from (take 2 tcp)) flow ecn tcp payload o
  unfolding obfs_open_tcp
  open_tcp-accepts unchecked pseudo dest from flow ecn tcp payload o l d k m =
      let e1 : 20 + length payload - 20 ≡ length payload = omega arith in
      let e2 : ltb (20 + length payload) 20 ≡ false = ground arith in
      let t1 : take 20 (tcp ++ payload) ≡ tcp = take-append_at 20 tcp payload l in
      let t2 : drop 20 (tcp ++ payload) ≡ payload = drop-append_at 20 tcp payload l in
      rw (t1, d, e1, e2, t2, take-length payload, k, m, and-false (not unchecked))

  pub seal_tcp-open :
      (unchecked : Bool) (pseudo : List ℕ) (dest from : List ℕ → SockAddr) (flow ecn : ℕ)
      (s0 s1 d0 d1 : ℕ) (ctx c : ObfsCtx) (payload : List ℕ) (o : Obfs)
      → sa_matches o.bind_addr (dest (d0 ∷ d1 ∷ [])) ≡ true
      → find_ctx (from (s0 ∷ s1 ∷ [])) o.contexts ≡ some c
      → (obfs_open_tcp debug ts unchecked pseudo dest from flow ecn
          (20 + length payload)
          (seal_tcp pseudo (s0 ∷ s1 ∷ []) (d0 ∷ d1 ∷ []) ctx payload)
          o).0
        ≡ some (record { from = from (s0 ∷ s1 ∷ []); payload = payload })
  unfolding seal_tcp tcphdr tcp_check seal_check
  seal_tcp-open unchecked pseudo dest from flow ecn s0 s1 d0 d1 ctx c payload o m f =
      let s = s0 ∷ s1 ∷ [] in
      let d = d0 ∷ d1 ∷ [] in
      let k = seal_check pseudo (tcphdr s d ctx 0) payload in
      rw
        (open_tcp-accepts unchecked pseudo dest from flow ecn (tcphdr s d ctx k) payload o refl refl
          (word-bytes k (in_cksum_fin-lt (in_cksum (in_cksum 0 pseudo) (tcphdr s d ctx 0)) payload))
          m)
        (inbound-psh (from s) flow ecn (tcphdr s d ctx k) payload c o (flags-rst ctx.cap_ecn)
          (flags-psh ctx.cap_ecn) f)
