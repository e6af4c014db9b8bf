-- ===== src/Server/Resolve/Laws.antt =====
-- Resolving does not stop the process, and leaves a size that fits (src/server.c, server_mss and
-- server_resolve; src/event_timer.c, resolve_cb).
use Prim.Native.String.{String}
use kcptun_libev.Base.{
  ◌≡◌, ℕ, ◌+◌, ◌%◌, ◌^◌, ◌≤◌, ◌<◌, Bool, true, false, not, List, Option, none, some, arith, refl,
  inl, inr, Option-cases, if_cases, Ends, Ends-weaken, ◌∙◌,
}
use kcptun_libev.Base.Int.{ℤ, pos, negsuc}
use kcptun_libev.Address.{SockAddr}
use kcptun_libev.Conf.{Config, is_set, mode_of, conf_check}
use kcptun_libev.Conf.Check.{InRange, IsUsable, conf_check-IsUsable}
use kcptun_libev.Obfs.{Domain, ipv4, ipv6}
use kcptun_libev.Obfs.Http.Write.{Host}
use kcptun_libev.Obfs.Dial.{obfs_resolve}
use kcptun_libev.Server.Sockets.Udp.{Pkt, udp_bind}
use kcptun_libev.Nonce.{Bloom, Nonce}
use kcptun_libev.Server.Keepalive.{remaining}
use kcptun_libev.Server.Resolve.{
  resolved, resolve_cb, udp_overhead, obfs_overhead, to_size, sub_size, CryptoSizes, less_crypto,
  server_mss, Net, ResolveCalls, Resolves, set_mss, resolve_obfs, resolve_udp, resolve_peer,
  server_resolve,
}
use kcptun_libev.Server.Resolve.Family.{addressed, udp_bind-domain}

-- What a cipher adds to a packet.
abbrev pub crypto_size : Option CryptoSizes → ℕ
crypto_size none = 0
crypto_size (some k) = k.overhead + k.nonce_size

-- No subtraction wraps, and nothing of the size is lost where it is stored in 16 bits.
size-exact :
    (mtu : ℤ) (crypto : Option CryptoSizes) (o : ℕ)
    → InRange mtu 300 1500
    → crypto_size crypto ≤ 40
    → o ≤ 60
    → let n = less_crypto crypto (sub_size (to_size mtu) o) % 2 ^ 16 in
      (o + n + crypto_size crypto ≡ to_size mtu) × (200 ≤ n) × (to_size mtu ≤ 1500)
size-exact (negsuc m) crypto o r k l = absurd (omega (arith, r.0, r.1))
size-exact (pos m) none o r k l = omega (arith, r.0, r.1)
size-exact (pos m) (some c) o r k l = omega (arith, r.0, r.1)

-- The bytes in front of a message: those of the obfuscator, or of IP and UDP.
abbrev pub domain_size : Option Domain → ℕ
domain_size none = 0
domain_size (some ipv4) = 28
domain_size (some ipv6) = 48

abbrev pub header_size : {K F : Type 0} → Net K F → ℕ
header_size s = elim s.obfs [ some h ↦ s.msg_offset | none ↦ domain_size s.pkt.domain ]

-- A message of the greatest size makes, with all that is added, a packet of `kcp.mtu` bytes.
abbrev pub HasRoom : {K F : Type 0} → Config → Option CryptoSizes → Net K F → Type 0
HasRoom c crypto s =
    (header_size s + s.mss + crypto_size crypto ≡ to_size c.kcp_mtu)
    × (200 ≤ s.mss)
    × (to_size c.kcp_mtu ≤ 1500)

abbrev pub Settled :
    {K F : Type 0} → Config → Option CryptoSizes → Net K F → Bool → Net K F → Type 0
Settled c crypto s true s' = HasRoom c crypto s'
Settled c crypto s false s' = (s'.mss ≡ s.mss) × (s'.msg_offset ≡ s.msg_offset)

abbrev pub Settles : {K F : Type 0} → Config → Option CryptoSizes → Net K F → Resolves K F → Type 0
Settles {K} {F} c crypto s o = Ends (λ (r : Bool × Net K F × List ℕ). Settled c crypto s r.0 r.1) o

pub IsUsable-addressed : (c : Config) → IsUsable c → c.mode ≡ mode_of c → addressed c ≡ true
unfolding mode_of
IsUsable-addressed c u e = ground (arith, e, u.server_reachable, u.client_connects, u.relay_bound)

-- What is settled depends on the former sizes only.
Settled-trans :
    {K F : Type 0} (c : Config) (crypto : Option CryptoSizes) (s s1 : Net K F)
    → s1.mss ≡ s.mss
    → s1.msg_offset ≡ s.msg_offset
    → (r : Bool × Net K F × List ℕ) → Settled c crypto s1 r.0 r.1
    → Settled c crypto s r.0 r.1
Settled-trans c crypto s s1 e f (true, s', fds) h = h
Settled-trans c crypto s s1 e f (false, s', fds) h = (h.0 ∙ e, h.1 ∙ f)

obfs_overhead-le : (d : Domain) → obfs_overhead d ≤ 60
unfolding obfs_overhead
obfs_overhead-le ipv4 = omega arith
obfs_overhead-le ipv6 = omega arith

module _ {K F : Type 0} (c : Config) (crypto : Option CryptoSizes) (calls : ResolveCalls)
    (range : InRange c.kcp_mtu 300 1500) (small : crypto_size crypto ≤ 40) where
  resolve_obfs-Settles :
      (h : Host K) (s : Net K F) (fds : List ℕ)
      → Settles c crypto s (resolve_obfs c crypto calls h s fds)
  unfolding resolve_obfs server_mss
  resolve_obfs-Settles h s fds =
      let d = (obfs_resolve h).obfs.domain in
      let (t, f, l) =
        size-exact c.kcp_mtu crypto (obfs_overhead d) range small (obfs_overhead-le d) in
      (omega (arith, t, obfs_overhead-le d), f, l)

  mss-Settles :
      (s s1 : Net K F) (fds : List ℕ) (d : Option Domain)
      → s1.obfs ≡ none
      → s1.pkt.domain ≡ d
      → is_set d ≡ true
      → Settles c crypto s (set_mss c crypto calls (server_mss c crypto none d) s1 fds)
  unfolding server_mss udp_overhead
  mss-Settles s s1 fds none o e h = cc
  mss-Settles s s1 fds (some ipv4) o e h =
      let (t, f, l) = size-exact c.kcp_mtu crypto 28 range small (omega arith) in
      (rw (o, e) t, f, l)
  mss-Settles s s1 fds (some ipv6) o e h =
      let (t, f, l) = size-exact c.kcp_mtu crypto 48 range small (omega arith) in
      (rw (o, e) t, f, l)

  resolve_udp-Settles :
      (s : Net K F) (fds : List ℕ)
      → s.obfs ≡ none
      → addressed c ≡ true
      → Settles c crypto s (resolve_udp c crypto calls s fds)
  unfolding resolve_udp
  resolve_udp-Settles s fds o a =
      let udp : Pkt = record s.pkt { connected = false } in
      let r =
        udp_bind c calls.bind_calls calls.connect_calls calls.rendezvous_calls calls.local udp
          fds in
      if_cases (Settles c crypto s) (not r.ok) _ _ (λ e. (refl, refl))
        (λ e.
          mss-Settles s (record s { pkt = r.pkt }) r.fds r.pkt.domain o refl
            (udp_bind-domain c calls udp fds (ground (arith, e)) a))

  resolve_peer-Settles :
      (s : Net K F) (fds : List ℕ)
      → addressed c ≡ true
      → Settles c crypto s (resolve_peer c crypto calls s fds)
  unfolding resolve_peer
  resolve_peer-Settles s fds a = go s.obfs refl
    where
      go :
          (o : Option (Host K))
          → s.obfs ≡ o
          → Settles c crypto s (elim o [
            | some h ↦ resolve_obfs c crypto calls h s fds
            | none ↦ resolve_udp c crypto calls s fds
          ])
      go none e = resolve_udp-Settles s fds e a
      go (some h) e = resolve_obfs-Settles h s fds

  -- The first part of `server_resolve` changes another address only.
  resolve-Settles :
      (s : Net K F) (fds : List ℕ)
      → addressed c ≡ true
      → Settles c crypto s (server_resolve c crypto calls s fds)
  unfolding server_resolve
  resolve-Settles s fds a = named c.connect calls.connect
    where
      named :
          (name : Option String) (addr : Option SockAddr)
          → Settles c crypto s (elim name [
            | none ↦ resolve_peer c crypto calls s fds
            | some n ↦ elim addr [
              | none ↦ some (false, s, fds)
              | some x ↦ resolve_peer c crypto calls (record s { connect = x }) fds
            ]
          ])
      named none addr = resolve_peer-Settles s fds a
      named (some n) none = (refl, refl)
      named (some n) (some x) =
          Ends-weaken (Settled-trans c crypto s (record s { connect = x }) refl refl)
            (resolve_peer c crypto calls (record s { connect = x }) fds)
            (resolve_peer-Settles (record s { connect = x }) fds a)

module _ {K F : Type 0} (c : Config) (crypto : Option CryptoSizes) (calls : ResolveCalls)
    (s : Net K F) (fds : List ℕ) where
  -- With a configuration that was accepted, and a cipher that adds at most 40 bytes, resolving again
  -- never stops the process, whatever the resolver and the system answer. Where it goes well, no
  -- subtraction has wrapped: the greatest message, the headers in front of it and what the cipher adds
  -- are the bytes of `kcp.mtu`, at most 1500, and the message has 200 bytes at least. Otherwise the
  -- sizes are left alone.
  pub server_resolve-Settles :
      (conf_check c).0 ≡ true
      → crypto_size crypto ≤ 40
      → let c' = (conf_check c).1 in Settles c' crypto s (server_resolve c' crypto calls s fds)
  server_resolve-Settles h small =
      let c' = (conf_check c).1 in
      let (u, m) = conf_check-IsUsable c h in
      resolve-Settles c' crypto calls u.limits.mtu small s fds (IsUsable-addressed c' u m)

remaining-pos :
    (now timeout : ℕ) (last : Option ℕ) (n : ℕ) → remaining now timeout last ≡ some n → 0 < n
remaining-pos now timeout none n e = cc
remaining-pos now timeout (some t) n e = ground arith

module _ {K : Type 0} (bl : Bloom) (fresh : Nonce) (now timeout : ℕ) where
  open bl use {Filter}

  abbrev pub Rearms : Option (ℕ × Net K Filter × List ℕ) → Type 0
  Rearms o = Ends (λ (r : ℕ × Net K Filter × List ℕ). 0 < r.0) o

  resolved-Rearms :
      (c : Config) (crypto : Option CryptoSizes) (s : Net K Filter) (o : Resolves K Filter)
      → 0 < timeout
      → Settles c crypto s o
      → Rearms (resolved bl fresh now timeout o)
  resolved-Rearms c crypto s none t h = h
  resolved-Rearms c crypto s (some (ok, s', fds)) t h = t

  -- The timer of the resolver runs again after a time that is not 0, in every state: where an address
  -- was resolved or a packet received a short time ago, and where the addresses are resolved anew,
  -- however that ends. The configuration was accepted, the cipher adds at most 40 bytes, and the
  -- time-out is not 0.
  pub resolve_cb-Rearms :
      (c : Config) (crypto : Option CryptoSizes) (calls : ResolveCalls) (s : Net K Filter)
      (fds : List ℕ)
      → (conf_check c).0 ≡ true
      → crypto_size crypto ≤ 40
      → 0 < timeout
      → Rearms (resolve_cb bl fresh now timeout (conf_check c).1 crypto calls s fds)
  unfolding resolve_cb
  resolve_cb-Rearms c crypto calls s fds h small t =
      elim (Option-cases (remaining now timeout s.last_resolve_time)) [
        | inr (n, e) ↦ rw (resolve_cb, e) (remaining-pos now timeout s.last_resolve_time n e)
        | inl e ↦ elim (Option-cases (remaining now timeout s.last_recv_time)) [
          | inr (n, f) ↦ rw (resolve_cb, e, f) (remaining-pos now timeout s.last_recv_time n f)
          | inl f ↦
              let c' = (conf_check c).1 in
              rw (resolve_cb, e, f, Ends)
                (resolved-Rearms c' crypto s (server_resolve c' crypto calls s fds) t
                  (server_resolve-Settles c crypto calls s fds h small))
        ]
      ]
