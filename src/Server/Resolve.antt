-- ===== src/Server/Resolve.antt =====
-- Addresses that are resolved again, and the size of a message that fits a packet (src/server.c,
-- server_mss and server_resolve; src/event_timer.c, resolve_cb).
pub mod Family
pub mod Laws
use kcptun_libev.Base.{
  ℕ, ◌+◌, ◌-◌, ◌%◌, ◌^◌, Bool, true, false, not, Option, none, some, if◌then◌else◌, ltb, List,
}
use kcptun_libev.Base.Int.{ℤ, pos, negsuc}
use kcptun_libev.Address.{SockAddr}
use kcptun_libev.Conf.{Config}
use kcptun_libev.Nonce.{Bloom, Nonce, Noncegen, noncegen_init}
use kcptun_libev.Obfs.{Domain, ipv4, ipv6}
use kcptun_libev.Obfs.Http.Write.{Host}
use kcptun_libev.Obfs.Dial.{obfs_resolve}
use kcptun_libev.Server.Keepalive.{remaining}
use kcptun_libev.Server.Sockets.Udp.{Pkt, UdpCalls, LocalCalls, udp_bind}

-- A family that was not set stops the process.
unfoldable pub udp_overhead : Option Domain → Option ℕ
udp_overhead none = none
udp_overhead (some ipv4) = some 28
udp_overhead (some ipv6) = some 48

unfoldable pub obfs_overhead : Domain → ℕ
obfs_overhead ipv4 = 40
obfs_overhead ipv6 = 60

-- `(size_t)` of an `int`
abbrev pub to_size : ℤ → ℕ
to_size (pos n) = n
to_size (negsuc n) = 2 ^ 64 - n - 1

-- `-=` on `size_t`
abbrev pub sub_size : ℕ → ℕ → ℕ
sub_size a b = (a + 2 ^ 64 - b) % 2 ^ 64

-- `struct crypto`: the sizes that it states.
pub record CryptoSizes : Type 0 where
  pub overhead : ℕ
  pub nonce_size : ℕ

abbrev pub less_crypto : Option CryptoSizes → ℕ → ℕ
less_crypto none mss = mss
less_crypto (some k) mss = sub_size mss (k.overhead + k.nonce_size)

-- The families of the obfuscator, where there is one, and of the socket.
unfoldable pub server_mss : Config → Option CryptoSizes → Option Domain → Option Domain → Option ℕ
unfolding udp_overhead obfs_overhead
server_mss c crypto (some domain) udp =
    some (less_crypto crypto (sub_size (to_size c.kcp_mtu) (obfs_overhead domain)))
server_mss c crypto none udp = elim (udp_overhead udp) [
  | none ↦ none
  | some n ↦ some (less_crypto crypto (sub_size (to_size c.kcp_mtu) n))
]

-- The parts of `struct server` and `struct pktqueue` that resolving changes.
pub record Net (K F : Type 0) : Type 0 where
  pub connect : SockAddr
  pub pkt : Pkt
  pub obfs : Option (Host K)
  pub noncegen : Option (Noncegen F)
  pub msg_offset : ℕ
  pub mss : ℕ
  pub last_resolve_time : Option ℕ
  pub last_recv_time : Option ℕ

-- How the resolver and the system answer.
pub record ResolveCalls : Type 0 where
  pub connect : Option SockAddr
  pub bind_calls : UdpCalls
  pub connect_calls : UdpCalls
  pub rendezvous_calls : UdpCalls
  pub local : LocalCalls

-- The result, the state and the descriptors that are open; `none` is a failed assertion.
abbrev pub Resolves : Type 0 → Type 0 → Type 0
Resolves K F = Option (Bool × Net K F × List ℕ)

module _ {K F : Type 0} (c : Config) (crypto : Option CryptoSizes) (calls : ResolveCalls) where
  -- `(uint16_t)server_mss(s)`
  abbrev pub set_mss : Option ℕ → Net K F → List ℕ → Resolves K F
  set_mss none s fds = none
  set_mss (some mss) s fds = some (true, record s { mss = mss % 2 ^ 16 }, fds)

  unfoldable pub resolve_obfs : Host K → Net K F → List ℕ → Resolves K F
  unfolding obfs_resolve server_mss obfs_overhead
  resolve_obfs h s fds =
      let h' = obfs_resolve h in
      set_mss (server_mss c crypto (some h'.obfs.domain) s.pkt.domain)
        (record s { obfs = some h'; msg_offset = obfs_overhead h'.obfs.domain % 2 ^ 16 }) fds

  unfoldable pub resolve_udp : Net K F → List ℕ → Resolves K F
  unfolding udp_bind server_mss
  resolve_udp s fds =
      let r =
        udp_bind c calls.bind_calls calls.connect_calls calls.rendezvous_calls calls.local
          (record s.pkt { connected = false }) fds in
      if not r.ok
      then some (false, record s { pkt = r.pkt }, r.fds)
      else set_mss (server_mss c crypto none r.pkt.domain) (record s { pkt = r.pkt }) r.fds

  unfoldable pub resolve_peer : Net K F → List ℕ → Resolves K F
  unfolding resolve_obfs resolve_udp
  resolve_peer s fds = elim s.obfs [ some h ↦ resolve_obfs h s fds | none ↦ resolve_udp s fds ]

  unfoldable pub server_resolve : Net K F → List ℕ → Resolves K F
  unfolding resolve_peer
  server_resolve s fds = elim c.connect [
    | none ↦ resolve_peer s fds
    | some name ↦ elim calls.connect [
      | none ↦ some (false, s, fds)
      | some addr ↦ resolve_peer (record s { connect = addr }) fds
    ]
  ]

abbrev pub renewed :
    (bl : Bloom) → Nonce → Option (Noncegen bl.Filter) → Option (Noncegen bl.Filter)
renewed bl fresh none = none
renewed bl fresh (some g) = some (noncegen_init bl fresh g)

module _ {K : Type 0} (bl : Bloom) (fresh : Nonce) (now timeout : ℕ) where
  open bl use {Filter}

  abbrev pub resolved : Resolves K Filter → Option (ℕ × Net K Filter × List ℕ)
  resolved none = none
  resolved (some (ok, s, fds)) = some (
    timeout,
    record s { noncegen = renewed bl fresh s.noncegen; last_resolve_time = some now },
    fds,
  )

  -- The new `repeat` of the timer, the state and the descriptors.
  unfoldable pub resolve_cb :
      Config
      → Option CryptoSizes
      → ResolveCalls
      → Net K Filter
      → List ℕ
      → Option (ℕ × Net K Filter × List ℕ)
  unfolding server_resolve
  resolve_cb c crypto calls s fds = elim (remaining now timeout s.last_resolve_time) [
    | some n ↦ some (n, s, fds)
    | none ↦ elim (remaining now timeout s.last_recv_time) [
      | some n ↦ some (n, s, fds)
      | none ↦ resolved (server_resolve c crypto calls s fds)
    ]
  ]
