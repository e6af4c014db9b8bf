-- ===== src/Obfs/Context/Laws.antt =====
-- The number of authenticated contexts is right, and the contexts do not become too many.
use kcptun_libev.Base.{
  ◌≡◌, ℕ, ◌+◌, ◌≤◌, false, List, [], ◌∷◌, ◌++◌, Option, none, some, if◌then◌else◌, arith, refl,
  Ends, Ends-weaken, inl, inr, Bool-cases,
}
use kcptun_libev.Address.{SockAddr, sa_equals}
use kcptun_libev.Conf.{Mode}
use kcptun_libev.Obfs.{Obfs, ObfsCtx, find_ctx, update_ctx}
use kcptun_libev.Obfs.Context.{
  ObfsWorld, obfs_sched_redial, unauth, obfs_ctx_del, with_contexts, seen_late, expired,
  obfs_ctx_timeout_filt, Filtered, kept, filter_rest, filter_contexts, obfs_timeout_cb,
}

abbrev pub auth_bit : ObfsCtx → ℕ
auth_bit c = if c.authenticated then 1 else 0

abbrev pub num_auth : List ObfsCtx → ℕ
num_auth [] = 0
num_auth (c ∷ cs) = auth_bit c + num_auth cs

-- The counter of the obfuscator is the number of its authenticated contexts.
abbrev pub Counted : Obfs → Type 0
Counted o = o.num_authenticated ≡ num_auth o.contexts

pub num_auth-append :
    (cs : List ObfsCtx) (c : ObfsCtx) → num_auth (cs ++ c ∷ []) ≡ num_auth cs + auth_bit c
num_auth-append [] c = omega arith
num_auth-append (d ∷ cs) c = omega (arith, num_auth-append cs c)

pub num_auth-update_ctx :
    (sa : SockAddr) (c old : ObfsCtx) (cs : List ObfsCtx)
    → find_ctx sa cs ≡ some old
    → num_auth (update_ctx sa c cs) + auth_bit old ≡ num_auth cs + auth_bit c
unfolding find_ctx update_ctx
num_auth-update_ctx sa c old [] e = ground arith
num_auth-update_ctx sa c old (d ∷ cs) e = elim (Bool-cases (sa_equals d.raddr sa)) [
  | inl h ↦ ground (arith, h)
  | inr h ↦ ground (arith, h, num_auth-update_ctx sa c old cs)
]

-- Nothing that the table holds has timed out.
abbrev pub AllFresh : ℕ → ℕ → ℕ → List ObfsCtx → Type 0
AllFresh timeout dial_timeout now [] = Unit
AllFresh timeout dial_timeout now (c ∷ cs) =
    (expired timeout dial_timeout now c ≡ false) × AllFresh timeout dial_timeout now cs

-- Nothing was seen after `now`.
abbrev pub AllSeen : ℕ → List ObfsCtx → Type 0
AllSeen now [] = Unit
AllSeen now (c ∷ cs) = (seen_late now c.last_seen ≡ false) × AllSeen now cs

module _ {K : Type 0} (m : Mode) where
  -- Deleting a context that is not in the table changes the counter only.
  pub ctx_del-counts :
      (c : ObfsCtx) (w : ObfsWorld K)
      → c.in_table ≡ false
      → auth_bit c ≤ w.obfs.num_authenticated
      → Ends
          (λ w'.
            (w'.obfs.contexts ≡ w.obfs.contexts)
            × (w'.obfs.num_authenticated + auth_bit c ≡ w.obfs.num_authenticated))
          (obfs_ctx_del m c w)
  unfolding obfs_ctx_del unauth obfs_sched_redial
  ctx_del-counts c w f h = ground arith

  module _ (timeout dial_timeout now : ℕ) where
    abbrev Filters : List ObfsCtx → ObfsWorld K → Filtered K → Type 0
    Filters cs w o =
        Ends
          (λ (r : List ObfsCtx × ObfsWorld K).
            (r.1.obfs.num_authenticated + num_auth cs ≡ w.obfs.num_authenticated + num_auth r.0)
            × AllFresh timeout dial_timeout now r.0)
          o

    kept-Filters :
        (c : ObfsCtx) (cs : List ObfsCtx) (w : ObfsWorld K) (o : Filtered K)
        → expired timeout dial_timeout now c ≡ false
        → Filters cs w o
        → Filters (c ∷ cs) w (kept c o)
    kept-Filters c cs w none e h = h
    kept-Filters c cs w (some (ds, w')) e (h, f) = (omega arith, (e, f))

    dropped-Filters :
        (next : ObfsWorld K → Filtered K) (c : ObfsCtx) (cs : List ObfsCtx) (w : ObfsWorld K)
        (o : Option (ObfsWorld K))
        → num_auth (c ∷ cs) ≤ w.obfs.num_authenticated
        → Ends
            (λ w'.
              (w'.obfs.contexts ≡ w.obfs.contexts)
              × (w'.obfs.num_authenticated + auth_bit c ≡ w.obfs.num_authenticated))
            o
        → ((w' : ObfsWorld K) → num_auth cs ≤ w'.obfs.num_authenticated → Filters cs w' (next w'))
        → Filters
            (c ∷ cs)
            w
            (filter_rest m next c (elim o [ none ↦ none | some w' ↦ some (false, w') ]))
    unfolding filter_rest
    dropped-Filters next c cs w none l h f = h
    dropped-Filters next c cs w (some w') l (_, h) f =
        Ends-weaken
          (λ r (e, g).
            let e' : r.1.obfs.num_authenticated + num_auth (c ∷ cs)
                ≡ w.obfs.num_authenticated + num_auth r.0 =
              omega arith in
            (e', g))
          (next w') (f w' (omega arith))

    filter_contexts-Filters :
        (cs : List ObfsCtx) (w : ObfsWorld K)
        → num_auth cs ≤ w.obfs.num_authenticated
        → AllSeen now cs
        → Filters cs w (filter_contexts m timeout dial_timeout now cs w)
    unfolding filter_contexts filter_rest obfs_ctx_timeout_filt
    filter_contexts-Filters [] w l s = (refl, tt)
    filter_contexts-Filters (c ∷ cs) w l (s, ss) =
        elim (Bool-cases (expired timeout dial_timeout now c)) [
          | inl e ↦
              rw (s, e)
                (dropped-Filters (filter_contexts m timeout dial_timeout now cs) c cs w
                  (obfs_ctx_del m (record c { in_table = false }) w) l
                  (ctx_del-counts (record c { in_table = false }) w refl (omega arith))
                  (λ w' l'. filter_contexts-Filters cs w' l' ss))
          | inr e ↦
              rw (s, e)
                (kept-Filters c cs w (filter_contexts m timeout dial_timeout now cs w) e
                  (filter_contexts-Filters cs w (omega arith) ss))
        ]

    filtered-Counted :
        (w : ObfsWorld K) (o : Filtered K)
        → Counted w.obfs
        → Filters w.obfs.contexts w o
        → Ends
            (λ w'. Counted w'.obfs × AllFresh timeout dial_timeout now w'.obfs.contexts)
            (elim o [ none ↦ none | some (cs, w') ↦ some (with_contexts m cs w') ])
    filtered-Counted w none n h = h
    filtered-Counted w (some (cs, w')) n (e, f) = (omega arith, f)

  -- Where the counter of authenticated contexts is right and no context was seen after the present,
  -- the round of the time-out does not fault, in particular not when it takes from that counter; the
  -- counter is right afterwards, and no context that has timed out is left.
  pub obfs_timeout_cb-Counted :
      (timeout dial_timeout now : ℕ) (w : ObfsWorld K)
      → Counted w.obfs
      → AllSeen now w.obfs.contexts
      → Ends
          (λ w'. Counted w'.obfs × AllFresh timeout dial_timeout now w'.obfs.contexts)
          (obfs_timeout_cb m timeout dial_timeout now w)
  unfolding obfs_timeout_cb
  obfs_timeout_cb-Counted timeout dial_timeout now w n s =
      filtered-Counted timeout dial_timeout now w
        (filter_contexts m timeout dial_timeout now w.obfs.contexts w) n
        (filter_contexts-Filters timeout dial_timeout now w.obfs.contexts w (omega arith) s)
