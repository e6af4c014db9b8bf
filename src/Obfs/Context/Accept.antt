-- ===== src/Obfs/Context/Accept.antt =====
-- Connections that the obfuscator accepts (src/obfs.c, obfs_accept_one and is_startup_limited), and
-- peers that prove to hold the password.
use kcptun_libev.Base.{
  ◌≡◌, ℕ, ◌+◌, ◌≤◌, ◌<◌, Bool, true, false, List, [], ◌∷◌, Option, none, some, length, arith, refl,
  Ends, inl, inr, Bool-cases, Option-cases, length-append,
}
use kcptun_libev.Address.{SockAddr}
use kcptun_libev.Conf.{Mode}
use kcptun_libev.Obfs.{Obfs, ObfsCtx, find_ctx, update_ctx}
use kcptun_libev.Obfs.Packet.Seal.{obfs_ctx_auth}
use kcptun_libev.Obfs.Context.{
  ObfsWorld, obfs_ctx_new, obfs_ctx_del, started, with_contexts, replaced, obfs_ctx_start,
  start_end, obfs_accept_one, is_startup_limited,
}
use kcptun_libev.Obfs.Context.Laws.{
  auth_bit, num_auth, Counted, num_auth-append, num_auth-update_ctx, ctx_del-counts,
}

-- There are at most OBFS_MAX_CONTEXTS contexts, and at most OBFS_STARTUP_LIMIT_FULL that are not
-- authenticated.
pub record WithinLimits (o : Obfs) : Type 0 where
  pub counted : Counted o
  pub few : length o.contexts ≤ 4095
  pub few_halfopen : length o.contexts ≤ num_auth o.contexts + 60

auth_bit-le : (c : ObfsCtx) → auth_bit c ≤ 1
auth_bit-le c = ground arith

num_auth-length : (cs : List ObfsCtx) → num_auth cs ≤ length cs
num_auth-length [] = omega arith
num_auth-length (c ∷ cs) = ground (arith, num_auth-length cs)

length-update_ctx :
    (sa : SockAddr) (c : ObfsCtx) (cs : List ObfsCtx) → length (update_ctx sa c cs) ≡ length cs
unfolding update_ctx
length-update_ctx sa c [] = refl
length-update_ctx sa c (d ∷ cs) = ground (arith, length-update_ctx sa c cs)

not_limited :
    (percent : ℕ) (o : Obfs)
    → Counted o
    → is_startup_limited percent o ≡ false
    → (length o.contexts < 4095) × (length o.contexts < num_auth o.contexts + 60)
unfolding is_startup_limited
not_limited percent o n h = ground (arith, num_auth-length o.contexts)

module _ {K : Type 0} (m : Mode) where
  -- What is left where contexts are deleted that are not in the table.
  deleted-WithinLimits :
      (c : ObfsCtx) (w : ObfsWorld K) (o : Option (ObfsWorld K))
      → Ends
          (λ w'.
            (w'.obfs.contexts ≡ w.obfs.contexts)
            × (w'.obfs.num_authenticated + auth_bit c ≡ w.obfs.num_authenticated))
          o
      → w.obfs.num_authenticated ≡ num_auth w.obfs.contexts + auth_bit c
      → length w.obfs.contexts ≤ 4095
      → length w.obfs.contexts ≤ num_auth w.obfs.contexts + 60
      → Ends (λ w'. WithinLimits w'.obfs) o
  deleted-WithinLimits c w none h n f g = h
  deleted-WithinLimits c w (some w') (e, k) n f g = record {
    counted = rw e (omega arith);
    few = rw e f;
    few_halfopen = rw e g;
  }

  replaced-end :
      (ctx : ObfsCtx) (o : Option (ObfsWorld K))
      → Ends (λ w'. WithinLimits w'.obfs) o
      → Ends
          (λ w'. WithinLimits w'.obfs)
          (start_end m ctx (elim o [ none ↦ none | some w' ↦ some (true, w') ]))
  unfolding start_end
  replaced-end ctx none h = h
  replaced-end ctx (some w') h = h

  start-WithinLimits :
      (laddr raddr : SockAddr) (now fd : ℕ) (w : ObfsWorld K)
      → Counted w.obfs
      → length w.obfs.contexts < 4095
      → length w.obfs.contexts < num_auth w.obfs.contexts + 60
      → let ctx = obfs_ctx_new false laddr raddr in
        Ends (λ w'. WithinLimits w'.obfs) (start_end m ctx (obfs_ctx_start m now ctx fd w))
  unfolding start_end obfs_ctx_start replaced obfs_ctx_new
  start-WithinLimits laddr raddr now fd w n f g =
      let ctx = obfs_ctx_new false laddr raddr in
      elim (Option-cases (find_ctx raddr w.obfs.contexts)) [
        | inl e ↦
            let c = started now fd ctx in
            let cs = w.obfs.contexts in
            rw (obfs_ctx_start, e, Ends)
              (record {
                counted = omega (arith, num_auth-append cs c);
                few = omega (arith, length-append cs (c ∷ []));
                few_halfopen = omega (arith, num_auth-append cs c, length-append cs (c ∷ []));
              })
        | inr (old, e) ↦ elim (Bool-cases m.server) [
          | inl h ↦
              rw (obfs_ctx_start, e, h, start_end)
                (deleted-WithinLimits ctx w (obfs_ctx_del m ctx w)
                  (ctx_del-counts m ctx w refl (omega arith)) (omega arith) (omega arith)
                  (omega arith))
          | inr h ↦
              let c = started now fd ctx in
              let cs = w.obfs.contexts in
              let w1 = with_contexts m (update_ctx raddr c cs) w in
              let old' : ObfsCtx = record old { in_table = false } in
              let u = num_auth-update_ctx raddr c old cs e in
              let l = length-update_ctx raddr c cs in
              rw (obfs_ctx_start, e, h, replaced)
                (replaced-end ctx (obfs_ctx_del m old' w1) (
                  deleted-WithinLimits old' w1 (obfs_ctx_del m old' w1)
                    (ctx_del-counts m old' w1 refl (omega (arith, u))) (omega (arith, u))
                    (omega (arith, l)) (omega (arith, u, l, auth_bit-le old))))
        ]
      ]

  -- Where the counter of authenticated contexts is right and the limit on connections is not reached,
  -- whatever comes of a connection that is accepted (no memory, no name, an address that has a context
  -- already, or a new context), nothing faults, the counter is right afterwards, and there are at most
  -- 4095 contexts and at most 60 that are not authenticated. The memory of a new context is taken to
  -- hold a zero in the bit that is not set.
  pub obfs_accept_one-WithinLimits :
      (percent : ℕ) (memory : Bool) (laddr : Option SockAddr) (raddr : SockAddr) (fd now : ℕ)
      (w : ObfsWorld K)
      → Counted w.obfs
      → is_startup_limited percent w.obfs ≡ false
      → Ends (λ w'. WithinLimits w'.obfs) (obfs_accept_one m memory false laddr raddr fd now w)
  unfolding obfs_accept_one
  obfs_accept_one-WithinLimits percent memory none raddr fd now w n h =
      let (f, g) = not_limited percent w.obfs n h in
      record { counted = n; few = omega arith; few_halfopen = omega arith }
  obfs_accept_one-WithinLimits percent true (some laddr) raddr fd now w n h =
      let (f, g) = not_limited percent w.obfs n h in start-WithinLimits laddr raddr now fd w n f g
  obfs_accept_one-WithinLimits percent false (some laddr) raddr fd now w n h =
      let (f, g) = not_limited percent w.obfs n h in
      record { counted = n; few = omega arith; few_halfopen = omega arith }

-- When a peer proves to hold the password, a counter that is right stays right, also when it has done
-- so before and where it has no context.
pub obfs_ctx_auth-Counted :
    (sa : SockAddr) (o : Obfs) → Counted o → Counted (obfs_ctx_auth true sa o)
unfolding obfs_ctx_auth
obfs_ctx_auth-Counted sa o n = elim (Option-cases (find_ctx sa o.contexts)) [
  | inl e ↦ ground (arith, e)
  | inr (c, e) ↦
      let u = num_auth-update_ctx sa (record c { authenticated = true }) c o.contexts e in
      ground (arith, e, u)
]
