-- ===== src/Obfs/Packet/Seal.antt =====
-- The packets that the obfuscator makes (src/obfs.c): headers put in front of the payload. A failed
-- assertion is `none`.
use kcptun_libev.Base.{
  ℕ, ◌+◌, ◌*◌, ◌/◌, ◌%◌, ◌^◌, Bool, true, false, List, [], ◌∷◌, ◌++◌, Option, none, some, length,
  if◌then◌else◌,
}
use kcptun_libev.Address.{SockAddr, inet, inet6}
use kcptun_libev.Server.{Frame}
use kcptun_libev.Obfs.{Obfs, ObfsCtx, ipv4, ipv6, find_ctx, update_ctx}
use kcptun_libev.Obfs.Packet.{pseudo_iphdr, pseudo_ip6hdr}
use kcptun_libev.Obfs.Packet.Checksum.{in_cksum, in_cksum_fin, be16, be32}

-- The TCP header, which is the same for both: `check` is in the order of the host.
unfoldable pub tcphdr : List ℕ → List ℕ → ObfsCtx → ℕ → List ℕ
tcphdr source dest ctx check =
    source
    ++ (dest
        ++ (be32 ((ctx.cap_ack_seq + 1492) % 2 ^ 32)
            ++ (be32 ((ctx.cap_seq + 1) % 2 ^ 32)
                ++ (80
                    ∷ (if ctx.cap_ecn then 88 else 24)
                    ∷ 127
                    ∷ 236
                    ∷ (check % 256)
                    ∷ (check / 256 % 256)
                    ∷ 0
                    ∷ 0
                    ∷ []))))

-- The sum over the pseudo header, the TCP header with a zero in its place, and the payload.
unfoldable pub seal_check : List ℕ → List ℕ → List ℕ → ℕ
unfolding in_cksum
seal_check pseudo tcp payload = in_cksum_fin (in_cksum (in_cksum 0 pseudo) tcp) payload

unfoldable pub seal_tcp : List ℕ → List ℕ → List ℕ → ObfsCtx → List ℕ → List ℕ
unfolding tcphdr seal_check
seal_tcp pseudo source dest ctx payload =
    tcphdr source dest ctx (seal_check pseudo (tcphdr source dest ctx 0) payload) ++ payload

abbrev pub clear_ecn : ObfsCtx → ObfsCtx
clear_ecn ctx = record ctx { cap_ecn = false }

-- `id` is what `rand64` gives.
unfoldable pub obfs_seal_ipv4 : ℕ → ObfsCtx → Frame → Option (ObfsCtx × Frame)
unfolding seal_tcp
obfs_seal_ipv4 id ctx msg = elim ctx.laddr [
  | inet6 _ _ _ _ ↦ none
  | inet saddr source ↦ elim msg.addr [
    | inet6 _ _ _ _ ↦ none
    | inet daddr dest ↦
        let plen = (20 + length msg.bytes) % 2 ^ 16 in
        some (
          clear_ecn ctx,
          record {
            addr = inet daddr (0 ∷ 0 ∷ []);
            bytes =
                69
                ∷ 2
                ∷ (be16 (20 + plen)
                    ++ ((id % 256)
                        ∷ (id / 256 % 256)
                        ∷ 64
                        ∷ 0
                        ∷ 64
                        ∷ 6
                        ∷ 0
                        ∷ 0
                        ∷ (saddr
                            ++ (daddr
                                ++ seal_tcp (pseudo_iphdr saddr daddr plen) source dest ctx
                                    msg.bytes))));
          },
        )
  ]
]

-- The first four bytes hold the version 6, ECN_ECT0 at bit 20, and the flow, which has 20 bits.
unfoldable pub obfs_seal_ipv6 : ObfsCtx → Frame → Option (ObfsCtx × Frame)
unfolding seal_tcp
obfs_seal_ipv6 ctx msg = elim ctx.laddr [
  | inet _ _ ↦ none
  | inet6 src source _ _ ↦ elim msg.addr [
    | inet _ _ ↦ none
    | inet6 dst dest flow scope ↦
        let plen = (20 + length msg.bytes) % 2 ^ 16 in
        some (
          clear_ecn ctx,
          record {
            addr = inet6 dst (0 ∷ 0 ∷ []) flow scope;
            bytes =
                be32 (6 * 2 ^ 28 + 2 * 2 ^ 20 + ctx.cap_flow)
                ++ (be16 plen
                    ++ (6
                        ∷ 64
                        ∷ (src
                            ++ (dst
                                ++ seal_tcp (pseudo_ip6hdr src dst plen) source dest ctx
                                    msg.bytes))));
          },
        )
  ]
]

abbrev pub count_ctx_tx : ℕ → ObfsCtx → ObfsCtx
count_ctx_tx n c = record c { pkt_tx = c.pkt_tx + 1; byt_tx = c.byt_tx + n }

unfoldable pub obfs_seal_inplace : ℕ → Frame → Obfs → Option (Bool × Frame × Obfs)
unfolding obfs_seal_ipv4 obfs_seal_ipv6 update_ctx
obfs_seal_inplace id msg o = elim (find_ctx msg.addr o.contexts) [
  | none ↦ some (false, msg, o)
  | some ctx ↦
      if ctx.captured
      then (let sealed : Option (ObfsCtx × Frame) = elim o.domain [
        | ipv4 ↦ obfs_seal_ipv4 id ctx msg
        | ipv6 ↦ obfs_seal_ipv6 ctx msg
      ] in
          elim sealed [
            | none ↦ none
            | some r ↦
                let n = length r.1.bytes in
                let st = o.stats in
                some (
                  true,
                  r.1,
                  record o {
                    contexts = update_ctx msg.addr (count_ctx_tx n r.0) o.contexts;
                    stats = record st { pkt_tx = st.pkt_tx + 1; byt_tx = st.byt_tx + n };
                  },
                )
          ])
      else some (false, msg, o)
]

-- A context is told whether its peer holds the password.
unfoldable pub obfs_ctx_auth : Bool → SockAddr → Obfs → Obfs
unfolding update_ctx
obfs_ctx_auth ok sa o = elim (find_ctx sa o.contexts) [
  | none ↦ o
  | some ctx ↦ elim ctx.authenticated [
    | true ↦
        if ok
        then o
        else record o { contexts = update_ctx sa (record ctx { authenticated = false }) o.contexts }
    | false ↦
        if ok
        then record o {
          num_authenticated = o.num_authenticated + 1;
          contexts = update_ctx sa (record ctx { authenticated = true }) o.contexts;
        }
        else o
  ]
]
