-- ===== src/Server/Sockets/Udp.antt =====
-- The socket for packets (src/server.c, udp_init, addr_set_local, udp_bind, udp_start and udp_stop).
use Prim.Native.String.{String}
use kcptun_libev.Base.{
  ℕ, Bool, true, false, not, List, ◌∷◌, Option, none, some, if◌then◌else◌, replicate,
}
use kcptun_libev.Address.{SockAddr, inet, inet6}
use kcptun_libev.Conf.{Config}
use kcptun_libev.Obfs.{Domain, ipv4, ipv6}
use kcptun_libev.Server.Sockets.{close_fd, close_field}

abbrev pub family : SockAddr → Domain
family (inet _ _) = ipv4
family (inet6 _ _ _ _) = ipv6

-- `struct pktconn`, as far as its socket goes. `domain` is none where it was not set.
pub record Pkt : Type 0 where
  pub fd : Option ℕ
  pub domain : Option Domain
  pub connected : Bool
  pub kcp_connect : SockAddr
  pub rendezvous_server : SockAddr
  pub rendezvous_local : SockAddr
  pub reading : Bool
  pub writing : Bool

-- How `resolve_addr` and the calls of the system fare in one part of `udp_bind`; `attach` is `bind` or
-- `connect`.
pub record UdpCalls : Type 0 where
  pub resolve : Option SockAddr
  pub socket : Option ℕ
  pub nonblock : Bool
  pub attach : Bool

-- The same in `addr_set_local`.
pub record LocalCalls : Type 0 where
  pub socket : Option ℕ
  pub connect : Bool
  pub getsockname : Option SockAddr

-- The socket, the descriptors that are open, and whether it went well.
pub record Bound : Type 0 where
  pub ok : Bool
  pub pkt : Pkt
  pub fds : List ℕ

-- A descriptor that stays blocking is kept.
unfoldable pub udp_init : UdpCalls → Pkt → List ℕ → Bound
udp_init calls udp fds = elim calls.socket [
  | none ↦ record { ok = false; pkt = record udp { fd = none }; fds = fds }
  | some fd ↦ record { ok = calls.nonblock; pkt = record udp { fd = some fd }; fds = fd ∷ fds }
]

-- The part that `udp_bind` does three times: the family, and a socket unless there is one.
unfoldable pub udp_socket : SockAddr → UdpCalls → Pkt → List ℕ → Bound
unfolding udp_init
udp_socket addr calls udp fds =
    let udp1 = record udp { domain = some (family addr) } in
    elim udp.fd [
      | none ↦ udp_init calls udp1 fds
      | some fd ↦ record { ok = true; pkt = udp1; fds = fds }
    ]

unfoldable pub addr_set_any : Domain → SockAddr
addr_set_any ipv4 = inet (replicate 4 0) (replicate 2 0)
addr_set_any ipv6 = inet6 (replicate 16 0) (replicate 2 0) 0 0

-- The descriptor is only closed at the end.
unfoldable pub addr_set_local : LocalCalls → List ℕ → Option SockAddr × List ℕ
unfolding close_fd
addr_set_local calls fds = elim calls.socket [
  | none ↦ (none, fds)
  | some fd ↦ if not calls.connect then (none, fd ∷ fds) else elim calls.getsockname [
    | none ↦ (none, fd ∷ fds)
    | some addr ↦ (some addr, close_fd fd (fd ∷ fds))
  ]
]

unfoldable pub bind_part : Option String → UdpCalls → Pkt → List ℕ → Bound
unfolding udp_socket
bind_part none calls udp fds = record { ok = true; pkt = udp; fds = fds }
bind_part (some name) calls udp fds = elim calls.resolve [
  | none ↦ record { ok = false; pkt = udp; fds = fds }
  | some addr ↦
      let r = udp_socket addr calls udp fds in
      if not r.ok then r else record r { ok = calls.attach }
]

abbrev pub connected_to : SockAddr → Pkt → Pkt
connected_to addr udp = record udp { kcp_connect = addr; connected = true }

unfoldable pub connect_part : Option String → UdpCalls → Pkt → List ℕ → Bound
unfolding udp_socket
connect_part none calls udp fds = record { ok = true; pkt = udp; fds = fds }
connect_part (some name) calls udp fds = elim calls.resolve [
  | none ↦ record { ok = false; pkt = udp; fds = fds }
  | some addr ↦
      let r = udp_socket addr calls udp fds in
      if not r.ok
      then r
      else if not calls.attach
      then record r { ok = false }
      else record r { pkt = connected_to addr r.pkt }
]

-- The address of this side is asked for, or any.
abbrev pub rendezvous_at : SockAddr → Option SockAddr → Pkt → Pkt
rendezvous_at addr none udp = record udp {
  rendezvous_server = addr;
  rendezvous_local = addr_set_any (family addr);
}
rendezvous_at addr (some laddr) udp = record udp {
  rendezvous_server = addr;
  rendezvous_local = laddr;
}

unfoldable pub rendezvous_part : Bool → UdpCalls → LocalCalls → Pkt → List ℕ → Bound
unfolding udp_socket addr_set_local addr_set_any
rendezvous_part false calls local udp fds = record { ok = true; pkt = udp; fds = fds }
rendezvous_part true calls local udp fds = elim calls.resolve [
  | none ↦ record { ok = false; pkt = udp; fds = fds }
  | some addr ↦
      let r = udp_socket addr calls udp fds in
      if not r.ok
      then r
      else (let l = addr_set_local local r.fds in
          record { ok = true; pkt = rendezvous_at addr l.0 r.pkt; fds = l.1 })
]

module _ (c : Config) (bind_calls connect_calls rendezvous_calls : UdpCalls)
    (local : LocalCalls) where
  unfoldable pub udp_bind : Pkt → List ℕ → Bound
  unfolding bind_part connect_part rendezvous_part
  udp_bind udp fds =
      let r = bind_part c.kcp_bind bind_calls udp fds in
      if not r.ok
      then r
      else (let r2 = connect_part c.kcp_connect connect_calls r.pkt r.fds in
          if not r2.ok
          then r2
          else rendezvous_part c.mode.rendezvous rendezvous_calls local r2.pkt r2.fds)

  -- The watcher for writing is set up and does not run.
  unfoldable pub udp_start : Pkt → List ℕ → Bound
  unfolding udp_bind
  udp_start udp fds =
      let r = udp_bind udp fds in
      if not r.ok then r else record r { pkt = record r.pkt { reading = true } }

unfoldable pub udp_stop : Pkt → List ℕ → Pkt × List ℕ
unfolding close_field
udp_stop udp fds = elim udp.fd [
  | none ↦ (udp, fds)
  | some fd ↦ (record udp { fd = none; reading = false; writing = false }, close_fd fd fds)
]
