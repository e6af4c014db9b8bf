-- ===== src/Obfs/Packet/Ecn.antt =====
-- The mark of congestion on packets of IPv6 (src/obfs.c, obfs_open_ipv6 and obfs_capture).
use kcptun_libev.Base.{
  ◌≡◌, ℕ, ◌/◌, ◌%◌, ◌^◌, Bool, true, false, List, [], ◌∷◌, none, some, arith, if◌then◌else◌, inl,
  inr, Bool-cases, Option-cases,
}
use kcptun_libev.Address.{SockAddr, sa_equals}
use kcptun_libev.Obfs.{Obfs, ObfsCtx, find_ctx, update_ctx}
use kcptun_libev.Obfs.Packet.{
  Opening, obfs_capture, obfs_inbound, obfs_open_tcp, obfs_open_ipv6, rd32,
}

-- No context has seen the mark.
abbrev pub Unmarked : List ObfsCtx → Type 0
Unmarked [] = Unit
Unmarked (c ∷ cs) = (c.cap_ecn ≡ false) × Unmarked cs

find_ctx-Unmarked :
    (sa : SockAddr) (cs : List ObfsCtx) (c : ObfsCtx)
    → find_ctx sa cs ≡ some c
    → Unmarked cs
    → c.cap_ecn ≡ false
unfolding find_ctx
find_ctx-Unmarked sa [] c e u = ground arith
find_ctx-Unmarked sa (d ∷ cs) c e u = ground (arith, find_ctx-Unmarked sa cs c)

update_ctx-Unmarked :
    (sa : SockAddr) (c : ObfsCtx) (cs : List ObfsCtx)
    → c.cap_ecn ≡ false
    → Unmarked cs
    → Unmarked (update_ctx sa c cs)
unfolding update_ctx
update_ctx-Unmarked sa c [] e u = u
update_ctx-Unmarked sa c (d ∷ cs) e u = elim (Bool-cases (sa_equals d.raddr sa)) [
  | inl h ↦ rw h (e, u.1)
  | inr h ↦ rw h (u.0, update_ctx-Unmarked sa c cs e u.1)
]

capture-cap_ecn :
    (c : ObfsCtx) (flow ecn : ℕ) (tcp : List ℕ)
    → ecn ≡ 0
    → c.cap_ecn ≡ false
    → (obfs_capture c flow ecn tcp).cap_ecn ≡ false
unfolding obfs_capture
capture-cap_ecn c flow ecn tcp z e = ground arith

module _ (debug : Bool) (ts : ℕ) where
  inbound-Unmarked :
      (from : SockAddr) (flow ecn : ℕ) (tcp payload : List ℕ) (o : Obfs)
      → ecn ≡ 0
      → Unmarked o.contexts
      → Unmarked (obfs_inbound debug ts from flow ecn tcp payload o).1.contexts
  unfolding obfs_inbound
  inbound-Unmarked from flow ecn tcp payload o z u =
      elim (Option-cases (find_ctx from o.contexts)) [
        | inl e ↦ rw (obfs_inbound, e) u
        | inr (c, e) ↦
            let k = capture-cap_ecn c flow ecn tcp z (find_ctx-Unmarked from o.contexts c e u) in
            let w = update_ctx-Unmarked from (obfs_capture c flow ecn tcp) o.contexts k u in
            let w' =
              update_ctx-Unmarked from
                (record (obfs_capture c flow ecn tcp) { last_seen = some ts }) o.contexts k u in
            ground (arith, e, w, w')
      ]

  guard-Unmarked :
      (b : Bool) (o : Obfs) (r : Opening)
      → Unmarked o.contexts
      → Unmarked r.1.contexts
      → Unmarked (if b then (none, o) else r).1.contexts
  guard-Unmarked true o r u v = u
  guard-Unmarked false o r u v = v

  open_tcp-Unmarked :
      (unchecked : Bool) (pseudo : List ℕ) (dest from : List ℕ → SockAddr) (flow ecn plen : ℕ)
      (b : List ℕ) (o : Obfs)
      → ecn ≡ 0
      → Unmarked o.contexts
      → Unmarked (obfs_open_tcp debug ts unchecked pseudo dest from flow ecn plen b o).1.contexts
  unfolding obfs_open_tcp
  open_tcp-Unmarked unchecked pseudo dest from flow ecn plen b o z u =
      search (guard-Unmarked, inbound-Unmarked)

  -- A packet of IPv6 never marks a context, whatever its headers say: where no context is marked, none
  -- is after it, also when the packet states that it met congestion.
  pub obfs_open_ipv6-Unmarked :
      (b : List ℕ) (o : Obfs)
      → Unmarked o.contexts
      → Unmarked (obfs_open_ipv6 debug ts b o).1.contexts
  unfolding obfs_open_ipv6
  obfs_open_ipv6-Unmarked b o u =
      let z : rd32 b % 2 ^ 20 / 2 ^ 20 % 4 ≡ 0 = omega arith in
      search (guard-Unmarked, open_tcp-Unmarked)
