-- ===== src/Tests/Segments.antt =====
-- Packets of the obfuscator between two hosts.
use kcptun_libev.Base.{Ends, ◌≡◌, ℕ, refl, true, false, List, [], ◌∷◌, none, some, arith}
use kcptun_libev.Address.{SockAddr, inet, inet6, sa_equals, sa_matches}
use kcptun_libev.Obfs.{Obfs, ObfsCtx, ObfsStats, Domain, ipv4, ipv6, find_ctx, update_ctx}
use kcptun_libev.Obfs.Packet.{
  obfs_open_inplace, obfs_open_ipv6, count_opened, obfs_open_ipv4, obfs_open_tcp, obfs_inbound,
  tcp_check,
}
use kcptun_libev.Obfs.Packet.Seal.{obfs_seal_inplace}
use kcptun_libev.Obfs.Packet.Checksum.{in_cksum, in_cksum_fin, cksum_words}
use kcptun_libev.Obfs.Packet.RoundTrip.{Route, via4, obfs_seal_inplace-open}
use kcptun_libev.Obfs.Packet.Accepted.{Accepted, obfs_open_inplace-Accepted}
use kcptun_libev.Obfs.Packet.Ecn.{Unmarked, obfs_open_ipv6-Unmarked}

abbrev pub zero_stats : ObfsStats
zero_stats = record {
  pkt_cap = 0;
  pkt_rx = 0;
  pkt_tx = 0;
  byt_cap = 0;
  byt_rx = 0;
  byt_tx = 0;
  byt_drop = 0;
}

-- A captured context of a connection.
abbrev pub context : SockAddr → SockAddr → ObfsCtx
context here there = record {
  laddr = here;
  raddr = there;
  created = some 1000;
  last_seen = some 1500;
  fd = some 7;
  in_table = true;
  captured = true;
  authenticated = false;
  http_keepalive = false;
  cap_ecn = false;
  cap_flow = 0;
  cap_seq = 100;
  cap_ack_seq = 200;
  num_ecn = 0;
  num_ece = 0;
  pkt_rx = 0;
  pkt_tx = 0;
  byt_rx = 0;
  byt_tx = 0;
  http_msg = none;
  http_nxt = 0;
  ready = true;
  reading = true;
  writing = false;
  rbuf = [];
  wbuf = [];
}

abbrev pub obfs : Domain → SockAddr → SockAddr → Obfs
obfs k here there = record {
  contexts = context here there ∷ [];
  domain = k;
  bind_addr = here;
  num_authenticated = 0;
  client = none;
  redial_count = 0;
  redial_active = false;
  redial_wait = 0;
  stats = zero_stats;
}

abbrev pub left : SockAddr
left = inet (10 ∷ 0 ∷ 0 ∷ 1 ∷ []) (31 ∷ 144 ∷ [])

abbrev pub right : SockAddr
right = inet (10 ∷ 0 ∷ 0 ∷ 2 ∷ []) (0 ∷ 80 ∷ [])

found_right : find_ctx right (obfs ipv4 left right).contexts ≡ some (context left right)
unfolding find_ctx sa_equals
found_right = refl

found_left : find_ctx left (obfs ipv4 right left).contexts ≡ some (context right left)
unfolding find_ctx sa_equals
found_left = refl

listens : sa_matches (obfs ipv4 right left).bind_addr right ≡ true
unfolding sa_matches
listens = refl

route : Route ipv4 left right
route = via4 (10 ∷ 0 ∷ 0 ∷ 1 ∷ []) (10 ∷ 0 ∷ 0 ∷ 2 ∷ []) 31 144 0 80 refl refl

obfs_seal_inplace-open_example :
    Ends
      (λ r.
        (r.0 ≡ true)
        × ((obfs_open_inplace true 2000 r.1.bytes (obfs ipv4 right left)).0
            ≡ some (record { from = left; payload = 1 ∷ 2 ∷ 3 ∷ [] })))
      (obfs_seal_inplace 9 (record { addr = right; bytes = 1 ∷ 2 ∷ 3 ∷ [] }) (obfs ipv4 left right))
obfs_seal_inplace-open_example =
    obfs_seal_inplace-open true 2000 9 ipv4 left right route (context left right)
      (context right left) (1 ∷ 2 ∷ 3 ∷ []) (obfs ipv4 left right) (obfs ipv4 right left) refl refl
      found_right refl refl (omega arith) (omega arith) listens found_left

-- The packet that `left` seals for `right`.
abbrev pub segment_bytes : List ℕ
segment_bytes =
    69 ∷ 2 ∷ 0 ∷ 43 ∷ 9 ∷ 0 ∷ 64 ∷ 0 ∷ 64 ∷ 6 ∷ 0 ∷ 0 ∷ 10 ∷ 0 ∷ 0 ∷ 1 ∷ 10 ∷ 0 ∷ 0 ∷ 2 ∷ 31 ∷ 144
    ∷ 0 ∷ 80 ∷ 0 ∷ 0 ∷ 6 ∷ 156 ∷ 0 ∷ 0 ∷ 0 ∷ 101 ∷ 80 ∷ 24 ∷ 127 ∷ 236 ∷ 240 ∷ 247 ∷ 0 ∷ 0 ∷ 1 ∷ 2
    ∷ 3 ∷ []

opened :
    (obfs_open_inplace true 2000 segment_bytes (obfs ipv4 right left)).0
    ≡ some (record { from = left; payload = 1 ∷ 2 ∷ 3 ∷ [] })
unfolding obfs_open_inplace obfs_open_ipv4 obfs_open_tcp obfs_inbound tcp_check in_cksum
    in_cksum_fin cksum_words find_ctx sa_equals sa_matches update_ctx count_opened
opened = refl

obfs_open_inplace-Accepted_example :
    Accepted ipv4 segment_bytes
      (obfs ipv4 right left).contexts
      (record { from = left; payload = 1 ∷ 2 ∷ 3 ∷ [] })
obfs_open_inplace-Accepted_example =
    obfs_open_inplace-Accepted true 2000 segment_bytes (obfs ipv4 right left)
      (record { from = left; payload = 1 ∷ 2 ∷ 3 ∷ [] }) opened

abbrev loopback : ℕ → ℕ → SockAddr
loopback p q =
    inet6 (0 ∷ 0 ∷ 0 ∷ 0 ∷ 0 ∷ 0 ∷ 0 ∷ 0 ∷ 0 ∷ 0 ∷ 0 ∷ 0 ∷ 0 ∷ 0 ∷ 0 ∷ 1 ∷ []) (p ∷ q ∷ []) 0 0

-- A packet of IPv6 that has met congestion, between two ports of one host.
abbrev congested : List ℕ
congested =
    96 ∷ 48 ∷ 0 ∷ 0 ∷ 0 ∷ 21 ∷ 6 ∷ 64 ∷ 0 ∷ 0 ∷ 0 ∷ 0 ∷ 0 ∷ 0 ∷ 0 ∷ 0 ∷ 0 ∷ 0 ∷ 0 ∷ 0 ∷ 0 ∷ 0 ∷ 0
    ∷ 1 ∷ 0 ∷ 0 ∷ 0 ∷ 0 ∷ 0 ∷ 0 ∷ 0 ∷ 0 ∷ 0 ∷ 0 ∷ 0 ∷ 0 ∷ 0 ∷ 0 ∷ 0 ∷ 1 ∷ 31 ∷ 144 ∷ 0 ∷ 80 ∷ 0 ∷ 0
    ∷ 6 ∷ 156 ∷ 0 ∷ 0 ∷ 0 ∷ 101 ∷ 80 ∷ 24 ∷ 127 ∷ 236 ∷ 0 ∷ 0 ∷ 0 ∷ 0 ∷ 1 ∷ []

congested_opens :
    (obfs_open_ipv6 false 2000 congested (obfs ipv6 (loopback 0 80) (loopback 31 144))).0
    ≡ some (record { from = loopback 31 144; payload = 1 ∷ [] })
unfolding obfs_open_ipv6 obfs_open_tcp obfs_inbound find_ctx sa_equals sa_matches
congested_opens = refl

obfs_open_ipv6-Unmarked_example :
    Unmarked
      (obfs_open_ipv6 false 2000 congested (obfs ipv6 (loopback 0 80) (loopback 31 144))).1.contexts
obfs_open_ipv6-Unmarked_example =
    obfs_open_ipv6-Unmarked false 2000 congested (obfs ipv6 (loopback 0 80) (loopback 31 144))
      (refl, tt)
