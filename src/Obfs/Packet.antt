-- ===== src/Obfs/Packet.antt =====
-- The packets of the obfuscator (src/obfs.c): IP and TCP headers in front of the payload, with the
-- checksum of RFC 1071, on a host that is little-endian.
pub mod Checksum
pub mod Seal
pub mod Laws
pub mod RoundTrip
pub mod Accepted
pub mod Ecn
use kcptun_libev.Base.{
  ℕ, suc, ◌+◌, ◌-◌, ◌*◌, ◌/◌, ◌%◌, ◌^◌, Bool, true, false, ◌&&◌, ◌||◌, not, List, [], ◌∷◌, ◌++◌,
  Option, none, some, length, take, drop, if◌then◌else◌, ltb, leb, ◌==◌,
}
use kcptun_libev.Address.{SockAddr, inet, inet6, all_zero, sa_matches}
use kcptun_libev.Server.{Frame}
use kcptun_libev.Obfs.{Obfs, ObfsCtx, ObfsStats, ipv4, ipv6, find_ctx, update_ctx}
use kcptun_libev.Obfs.Packet.Checksum.{in_cksum, in_cksum_fin, nth, be16, be32}

-- `struct pseudo_iphdr` and `struct pseudo_ip6hdr`
abbrev pub pseudo_iphdr : List ℕ → List ℕ → ℕ → List ℕ
pseudo_iphdr saddr daddr plen = saddr ++ (daddr ++ (0 ∷ 6 ∷ be16 plen))

abbrev pub pseudo_ip6hdr : List ℕ → List ℕ → ℕ → List ℕ
pseudo_ip6hdr src dst plen = src ++ (dst ++ (be32 plen ++ (0 ∷ 0 ∷ 0 ∷ 6 ∷ [])))

-- `tcp.check = 0`, and the sum over the pseudo header, the TCP header and the rest.
unfoldable pub tcp_check : List ℕ → List ℕ → List ℕ → ℕ
unfolding in_cksum
tcp_check pseudo tcp remain =
    in_cksum_fin (in_cksum (in_cksum 0 pseudo) (take 16 tcp ++ (0 ∷ 0 ∷ drop 18 tcp))) remain

-- `tcp.check`
abbrev pub check_field : List ℕ → ℕ
check_field tcp = nth 16 tcp + nth 17 tcp * 256

-- The byte of flags: `rst`, `psh`, and the lowest bit of `res2`.
abbrev pub rst : List ℕ → Bool
rst tcp = nth 13 tcp / 4 % 2 == 1

abbrev pub psh : List ℕ → Bool
psh tcp = nth 13 tcp / 8 % 2 == 1

abbrev pub ece : List ℕ → Bool
ece tcp = nth 13 tcp / 64 % 2 == 1

abbrev pub rd32 : List ℕ → ℕ
rd32 b = nth 0 b * 16777216 + nth 1 b * 65536 + nth 2 b * 256 + nth 3 b

-- ECN_CE is 3.
unfoldable pub obfs_capture : ObfsCtx → ℕ → ℕ → List ℕ → ObfsCtx
obfs_capture ctx flow ecn tcp =
    let c1 = if ecn == 3 then record ctx { cap_ecn = true; num_ecn = ctx.num_ecn + 1 } else ctx in
    let c2 = if ece tcp then record c1 { num_ece = c1.num_ece + 1 } else c1 in
    if ctx.captured then c2 else record c2 {
      cap_flow = flow;
      cap_seq = rd32 (drop 4 tcp);
      cap_ack_seq = rd32 (drop 8 tcp);
      captured = true;
    }

-- Who sent a packet, and what it carries.
pub record Segment : Type 0 where
  pub from : SockAddr
  pub payload : List ℕ

abbrev pub Opening : Type 0
Opening = Option Segment × Obfs

module _ (debug : Bool) (ts : ℕ) where
  -- The end of `obfs_open_ipv4` and of `obfs_open_ipv6`, from the search for the context on. `debug`
  -- is LOGLEVEL(DEBUG).
  unfoldable pub obfs_inbound : SockAddr → ℕ → ℕ → List ℕ → List ℕ → Obfs → Opening
  unfolding obfs_capture
  obfs_inbound from flow ecn tcp payload o = elim (find_ctx from o.contexts) [
    | none ↦ (none, o)
    | some ctx ↦
        if debug && rst tcp
        then (none, o)
        else (let c = obfs_capture ctx flow ecn tcp in
            if psh tcp
            then (
              some (record { from = from; payload = payload }),
              record o { contexts = update_ctx from (record c { last_seen = some ts }) o.contexts },
            )
            else (none, record o { contexts = update_ctx from c o.contexts }))
  ]

  -- The TCP part of a packet, which is the same code for both: `b` is what stands behind the IP
  -- header, `plen` bytes of it count.
  unfoldable pub obfs_open_tcp :
      Bool
      → List ℕ
      → (List ℕ → SockAddr)
      → (List ℕ → SockAddr)
      → ℕ
      → ℕ
      → ℕ
      → List ℕ
      → Obfs
      → Opening
  unfolding tcp_check
  obfs_open_tcp unchecked pseudo dest from flow ecn plen b o =
      let tcp = take 20 b in
      let doff = nth 12 tcp / 16 * 4 in
      if ltb doff 20 || ltb plen doff
      then (none, o)
      else if not unchecked
          && not (tcp_check pseudo tcp (take (plen - 20) (drop 20 b)) == check_field tcp)
      then (none, o)
      else if not (sa_matches o.bind_addr (dest (take 2 (drop 2 tcp))))
      then (none, o)
      else obfs_inbound (from (take 2 tcp)) flow ecn tcp (take (plen - doff) (drop doff b)) o

  unfoldable pub obfs_open_ipv4 : List ℕ → Obfs → Opening
  obfs_open_ipv4 b o =
      let ihl = nth 0 b % 16 * 4 in
      let tot_len = nth 2 b * 256 + nth 3 b in
      let plen = tot_len - ihl in
      let saddr = take 4 (drop 12 b) in
      let daddr = take 4 (drop 16 b) in
      if not (nth 0 b / 16 == 4) || not (nth 9 b == 6)
      then (none, o)
      else if ltb ihl 20
      then (none, o)
      else if ltb tot_len ihl || ltb (length b) tot_len
      then (none, o)
      else if ltb plen 20
      then (none, o)
      else obfs_open_tcp (nth 12 b == 127) (pseudo_iphdr saddr daddr plen) (inet daddr) (inet saddr)
          0 (nth 1 b % 4) plen (drop ihl b) o

  -- IN6_IS_ADDR_LOOPBACK
  abbrev pub is_loopback6 : List ℕ → Bool
  is_loopback6 a = all_zero (take 15 a) && nth 15 a == 1

  unfoldable pub obfs_open_ipv6 : List ℕ → Obfs → Opening
  obfs_open_ipv6 b o =
      let plen = nth 4 b * 256 + nth 5 b in
      let src = take 16 (drop 8 b) in
      let dst = take 16 (drop 24 b) in
      let flow = rd32 b % 2 ^ 20 in
      if not (nth 0 b / 16 == 6) || not (nth 6 b == 6)
      then (none, o)
      else if ltb plen 20 || ltb (length b) (40 + plen)
      then (none, o)
      else obfs_open_tcp (is_loopback6 src) (pseudo_ip6hdr src dst plen) (λ p. inet6 dst p 0 0)
          (λ p. inet6 src p 0 0) flow (flow / 2 ^ 20 % 4) plen (drop 40 b) o

-- A context is counted with what it received.
abbrev pub count_ctx_rx : ℕ → ObfsCtx → ObfsCtx
count_ctx_rx n c = record c { pkt_rx = c.pkt_rx + 1; byt_rx = c.byt_rx + n }

unfoldable pub update_with : SockAddr → (ObfsCtx → ObfsCtx) → List ObfsCtx → List ObfsCtx
unfolding update_ctx
update_with sa f cs = elim (find_ctx sa cs) [ none ↦ cs | some c ↦ update_ctx sa (f c) cs ]

-- The end of `obfs_open_inplace`, on a packet of `len` bytes.
unfoldable pub count_opened : ℕ → Option Segment → Obfs → Opening
unfolding update_with
count_opened len none o =
    (none, record o { stats = record o.stats { byt_drop = o.stats.byt_drop + len } })
count_opened len (some seg) o =
    let n = length seg.payload in
    let st = o.stats in
    (
      some seg,
      record o {
        contexts = update_with seg.from (count_ctx_rx n) o.contexts;
        stats = record st { pkt_rx = st.pkt_rx + 1; byt_rx = st.byt_rx + n };
      },
    )

unfoldable pub obfs_open_inplace : Bool → ℕ → List ℕ → Obfs → Opening
unfolding count_opened
obfs_open_inplace debug ts b o =
    let st = o.stats in
    let o1 = record o {
      stats = record st { pkt_cap = st.pkt_cap + 1; byt_cap = st.byt_cap + length b };
    } in
    let r : Opening = elim o.domain [
      | ipv4 ↦ obfs_open_ipv4 debug ts b o1
      | ipv6 ↦ obfs_open_ipv6 debug ts b o1
    ] in
    count_opened (length b) r.0 r.1
