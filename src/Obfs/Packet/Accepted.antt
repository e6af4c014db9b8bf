-- ===== src/Obfs/Packet/Accepted.antt =====
-- What the obfuscator lets through (src/obfs.c).
use kcptun_libev.Base.{
  ◌≡◌, ◌≢◌, ℕ, zero, suc, ◌+◌, ◌-◌, ◌*◌, ◌/◌, ◌%◌, ◌≤◌, Bool, true, false, ◌||◌, List, [], ◌∷◌,
  Option, none, some, length, length-take, length-drop, take, drop, ltb, arith, refl, sym, ap, ◌∙◌,
  if◌then◌else◌,
}
use kcptun_libev.Address.{SockAddr}
use kcptun_libev.Obfs.{Obfs, ObfsCtx, Domain, ipv4, ipv6, find_ctx}
use kcptun_libev.Obfs.Packet.{
  Segment, Opening, obfs_inbound, obfs_open_tcp, obfs_open_ipv4, obfs_open_ipv6, obfs_open_inplace,
  count_opened,
}
use kcptun_libev.Obfs.Packet.Checksum.{nth}

drop-drop : (n m k : ℕ) (b : List ℕ) → k ≡ n + m → drop m (drop n b) ≡ drop k b
drop-drop zero m k b e = let e' : m ≡ k = omega arith in ap (λ k. drop k b) e'
drop-drop (suc n) m zero b e = absurd (omega arith)
drop-drop (suc n) zero (suc k) [] e = refl
drop-drop (suc n) (suc m) (suc k) [] e = refl
drop-drop (suc n) m (suc k) (x ∷ b) e = drop-drop n m k b (omega arith)

add_sub : (n m : ℕ) → m ≤ n → m + (n - m) ≡ n
add_sub n m h = omega arith

ip6_hdr-long : 20 ≤ 40
ip6_hdr-long = omega arith

-- The length that the header of a packet states.
abbrev pub packet_len : Domain → List ℕ → ℕ
packet_len ipv4 b = nth 2 b * 256 + nth 3 b
packet_len ipv6 b = 40 + (nth 4 b * 256 + nth 5 b)

-- The payload is what the packet holds from `off` on, up to the length that its header states.
pub record Accepted (k : Domain) (b : List ℕ) (cs : List ObfsCtx) (seg : Segment) : Type 0 where
  pub off : ℕ
  pub behind : 40 ≤ off
  pub ends : off + length seg.payload ≡ packet_len k b
  pub inside : packet_len k b ≤ length b
  pub slice : seg.payload ≡ take (length seg.payload) (drop off b)
  pub known : find_ctx seg.from cs ≢ none

-- A guard that returns NULL was passed.
passed :
    (b : Bool) (o : Obfs) (r : Opening) (seg : Segment)
    → (if b then (none, o) else r).0 ≡ some seg
    → (b ≡ false) × (r.0 ≡ some seg)
passed true o r seg h = ground arith
passed false o r seg h = (refl, h)

not-less : (n m : ℕ) → ltb n m ≡ false → m ≤ n
not-less n m h = ground arith

neither : (a b : Bool) → (a || b) ≡ false → (a ≡ false) × (b ≡ false)
neither true b h = ground arith
neither false b h = (refl, h)

module _ (debug : Bool) (ts : ℕ) where
  inbound-known :
      (from : SockAddr) (flow ecn : ℕ) (tcp payload : List ℕ) (o : Obfs) (seg : Segment)
      → (obfs_inbound debug ts from flow ecn tcp payload o).0 ≡ some seg
      → (seg.payload ≡ payload) × (find_ctx seg.from o.contexts ≢ none)
  unfolding obfs_inbound
  inbound-known from flow ecn tcp payload o seg h = ground arith

  open_tcp-accepted :
      (unchecked : Bool) (pseudo : List ℕ) (dest from : List ℕ → SockAddr) (flow ecn plen : ℕ)
      (b : List ℕ) (o : Obfs) (seg : Segment)
      → (obfs_open_tcp debug ts unchecked pseudo dest from flow ecn plen b o).0 ≡ some seg
      → (doff : ℕ) × (20 ≤ doff)
        × (doff ≤ plen)
        × (seg.payload ≡ take (plen - doff) (drop doff b))
        × (find_ctx seg.from o.contexts ≢ none)
  unfolding obfs_open_tcp
  open_tcp-accepted unchecked pseudo dest from flow ecn plen b o seg h =
      let tcp = take 20 b in
      let doff = nth 12 tcp / 16 * 4 in
      let (g1, h1) = passed (ltb doff 20 || ltb plen doff) o _ seg h in
      let (_, h2) = passed _ o _ seg h1 in
      let (_, h3) = passed _ o _ seg h2 in
      let (l, m) = neither (ltb doff 20) (ltb plen doff) g1 in
      let (p, k) =
        inbound-known (from (take 2 tcp)) flow ecn tcp (take (plen - doff) (drop doff b)) o seg
          h3 in
      (doff, not-less doff 20 l, not-less plen doff m, p, k)

  -- A slice of the rest behind a header is a slice of the packet.
  slice-Accepted :
      (k : Domain) (ihl plen doff : ℕ) (b : List ℕ) (o : Obfs) (seg : Segment)
      → 20 ≤ ihl
      → ihl + plen ≡ packet_len k b
      → packet_len k b ≤ length b
      → 20 ≤ doff
      → doff ≤ plen
      → seg.payload ≡ take (plen - doff) (drop doff (drop ihl b))
      → find_ctx seg.from o.contexts ≢ none
      → Accepted k b o.contexts seg
  slice-Accepted k ihl plen doff b o seg h e i l m p n =
      let q : seg.payload ≡ take (plen - doff) (drop (ihl + doff) b) =
        rw (sym (drop-drop ihl doff (ihl + doff) b refl)) p in
      let z : length seg.payload ≡ plen - doff = rw q (
        omega
          (arith, length-take (plen - doff) (drop (ihl + doff) b), length-drop (ihl + doff) b)) in
      record {
        off = ihl + doff;
        behind = omega arith;
        ends = omega arith;
        inside = i;
        slice = rw z q;
        known = n;
      }

  open_ipv4-Accepted :
      (b : List ℕ) (o : Obfs) (seg : Segment)
      → (obfs_open_ipv4 debug ts b o).0 ≡ some seg
      → Accepted ipv4 b o.contexts seg
  unfolding obfs_open_ipv4
  open_ipv4-Accepted b o seg h =
      let ihl = nth 0 b % 16 * 4 in
      let tot_len = nth 2 b * 256 + nth 3 b in
      let (_, h1) = passed _ o _ seg h in
      let (g2, h2) = passed (ltb ihl 20) o _ seg h1 in
      let (g3, h3) = passed (ltb tot_len ihl || ltb (length b) tot_len) o _ seg h2 in
      let (_, h4) = passed _ o _ seg h3 in
      let (l, m) = neither (ltb tot_len ihl) (ltb (length b) tot_len) g3 in
      let e1 = not-less ihl 20 g2 in
      let e2 = not-less tot_len ihl l in
      let e3 = not-less (length b) tot_len m in
      let (doff, d, q, p, k) =
        open_tcp-accepted _ _ _ _ _ _ (tot_len - ihl) (drop ihl b) o seg h4 in
      slice-Accepted ipv4 ihl (tot_len - ihl) doff b o seg e1 (add_sub tot_len ihl e2) e3 d q p k

  open_ipv6-Accepted :
      (b : List ℕ) (o : Obfs) (seg : Segment)
      → (obfs_open_ipv6 debug ts b o).0 ≡ some seg
      → Accepted ipv6 b o.contexts seg
  unfolding obfs_open_ipv6
  open_ipv6-Accepted b o seg h =
      let plen = nth 4 b * 256 + nth 5 b in
      let (_, h1) = passed _ o _ seg h in
      let (g2, h2) = passed (ltb plen 20 || ltb (length b) (40 + plen)) o _ seg h1 in
      let (_, m) = neither (ltb plen 20) (ltb (length b) (40 + plen)) g2 in
      let e3 = not-less (length b) (40 + plen) m in
      let (doff, d, q, p, k) = open_tcp-accepted _ _ _ _ _ _ plen (drop 40 b) o seg h2 in
      slice-Accepted ipv6 40 plen doff b o seg ip6_hdr-long refl e3 d q p k

  count_opened-result : (n : ℕ) (r : Option Segment) (o : Obfs) → (count_opened n r o).0 ≡ r
  unfolding count_opened
  count_opened-result n none o = refl
  count_opened-result n (some seg) o = refl

  opened-Accepted :
      (k : Domain) (b : List ℕ) (o : Obfs) (seg : Segment)
      → (elim k as (λ _. Opening) [
        | ipv4 ↦ obfs_open_ipv4 debug ts b o
        | ipv6 ↦ obfs_open_ipv6 debug ts b o
      ]).0
        ≡ some seg
      → Accepted k b o.contexts seg
  opened-Accepted ipv4 b o seg h = open_ipv4-Accepted b o seg h
  opened-Accepted ipv6 b o seg h = open_ipv6-Accepted b o seg h

  -- Whatever the bytes of a packet are, also those that state lengths: when a payload is let through,
  -- it stands in the packet behind at least 40 bytes of headers and ends where the IP header says that
  -- the packet ends, which is not behind the bytes received; and its sender has a context.
  pub obfs_open_inplace-Accepted :
      (b : List ℕ) (o : Obfs) (seg : Segment)
      → (obfs_open_inplace debug ts b o).0 ≡ some seg
      → Accepted o.domain b o.contexts seg
  unfolding obfs_open_inplace
  obfs_open_inplace-Accepted b o seg h =
      let st = o.stats in
      let o1 = record o {
        stats = record st { pkt_cap = st.pkt_cap + 1; byt_cap = st.byt_cap + length b };
      } in
      opened-Accepted o.domain b o1 seg (sym (count_opened-result (length b) _ _) ∙ h)
