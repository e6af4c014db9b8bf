-- ===== src/Obfs/Context/TimeOut.antt =====
-- The round of the time-out leaves the obfuscator well-formed (src/obfs.c, obfs_timeout_cb).
use kcptun_libev.Base.{
  ℕ, false, List, [], ◌∷◌, Option, none, some, refl, inl, inr, Bool-cases, Ends,
}
use kcptun_libev.Address.{SockAddr}
use kcptun_libev.Conf.{Mode}
use kcptun_libev.Obfs.{Obfs, ObfsCtx}
use kcptun_libev.Obfs.Context.{
  ObfsWorld, obfs_ctx_del, with_contexts, expired, seen_late, obfs_ctx_timeout_filt, Filtered, kept,
  filter_rest, filter_contexts, obfs_timeout_cb,
}
use kcptun_libev.Obfs.Context.Sane.{AllSound, Known, IsSane}
use kcptun_libev.Obfs.Context.Laws.{AllSeen, AllFresh, Counted, obfs_timeout_cb-Counted}
use kcptun_libev.Obfs.Context.Kept.{
  Maybe, Ends-Maybe, Idle, Deletes, Leaves, kept-Leaves, dropped-Leaves, ctx_del-Deletes,
}

-- What else there is to being well-formed than the counter.
record SaneBut (m : Mode) (o : Obfs) : Type 0 where
  sound : AllSound o.contexts
  client_lives : Known o.client o.contexts
  idle : Idle m o

module _ {K : Type 0} (m : Mode) (timeout dial_timeout now : ℕ) where
  abbrev LeavesIn : List ObfsCtx → Option SockAddr → Filtered K → Type 0
  LeavesIn cs client o =
      Maybe (λ (r : List ObfsCtx × ObfsWorld K). Leaves m cs client r.0 r.1.obfs) o

  kept-LeavesIn :
      (c : ObfsCtx) (cs : List ObfsCtx) (client : Option SockAddr) (o : Filtered K)
      → LeavesIn cs client o
      → LeavesIn (c ∷ cs) client (kept c o)
  kept-LeavesIn c cs client none h = tt
  kept-LeavesIn c cs client (some (cs', w')) h = kept-Leaves m c cs client cs' w'.obfs h

  dropped-LeavesIn :
      (c : ObfsCtx) (cs : List ObfsCtx) (client : Option SockAddr) (o1 : Obfs) (o : Filtered K)
      → Deletes m c.raddr client o1
      → LeavesIn cs o1.client o
      → LeavesIn (c ∷ cs) client o
  dropped-LeavesIn c cs client o1 none d h = tt
  dropped-LeavesIn c cs client o1 (some (cs', w')) d h =
      dropped-Leaves m c cs client o1 cs' w'.obfs d h

  deleted-LeavesIn :
      (next : ObfsWorld K → Filtered K) (c : ObfsCtx) (cs : List ObfsCtx) (client : Option SockAddr)
      (o : Option (ObfsWorld K))
      → Maybe (λ w'. Deletes m c.raddr client w'.obfs) o
      → ((w' : ObfsWorld K) → Idle m w'.obfs → LeavesIn cs w'.obfs.client (next w'))
      → LeavesIn
          (c ∷ cs)
          client
          (filter_rest m next c (elim o [ none ↦ none | some w' ↦ some (false, w') ]))
  unfolding filter_rest
  deleted-LeavesIn next c cs client none h f = tt
  deleted-LeavesIn next c cs client (some w') d f =
      dropped-LeavesIn c cs client w'.obfs (next w') d (f w' d.idle)

  filter_contexts-Leaves :
      (cs : List ObfsCtx) (w : ObfsWorld K)
      → Idle m w.obfs
      → LeavesIn cs w.obfs.client (filter_contexts m timeout dial_timeout now cs w)
  unfolding filter_contexts obfs_ctx_timeout_filt
  filter_contexts-Leaves [] w i = record {
    still = inr refl;
    lives = λ h. h;
    idle = i;
    sound = λ s. s;
  }
  filter_contexts-Leaves (c ∷ cs) w i =
      let next = filter_contexts m timeout dial_timeout now cs in
      elim (Bool-cases (seen_late now c.last_seen)) [
        | inl e ↦ rw (e, filter_rest) tt
        | inr e ↦ elim (Bool-cases (expired timeout dial_timeout now c)) [
          | inl f ↦
              let c1 : ObfsCtx = record c { in_table = false } in
              rw (e, f)
                (deleted-LeavesIn next c cs w.obfs.client (obfs_ctx_del m c1 w)
                  (ctx_del-Deletes m c1 w refl i) (λ w' i'. filter_contexts-Leaves cs w' i'))
          | inr f ↦
              rw (e, f, filter_rest)
                (kept-LeavesIn c cs w.obfs.client (next w) (filter_contexts-Leaves cs w i))
        ]
      ]

  filtered-SaneBut :
      (w : ObfsWorld K) (o : Filtered K)
      → IsSane m w.obfs
      → LeavesIn w.obfs.contexts w.obfs.client o
      → Maybe
          (λ w'. SaneBut m w'.obfs)
          (elim o [ none ↦ none | some (cs, w') ↦ some (with_contexts m cs w') ])
  filtered-SaneBut w none s h = tt
  filtered-SaneBut w (some (cs, w')) s h = record {
    sound = h.sound s.sound;
    client_lives = h.lives s.client_lives;
    idle = h.idle;
  }

  -- A well-formed obfuscator of which no context was seen after the present stays so in the round of
  -- the time-out, and no context that has timed out is left.
  pub obfs_timeout_cb-IsSane :
      (w : ObfsWorld K)
      → IsSane m w.obfs
      → AllSeen now w.obfs.contexts
      → Ends
          (λ w'. IsSane m w'.obfs × AllFresh timeout dial_timeout now w'.obfs.contexts)
          (obfs_timeout_cb m timeout dial_timeout now w)
  unfolding obfs_timeout_cb
  obfs_timeout_cb-IsSane w s seen =
      Ends-Maybe (λ w'. Counted w'.obfs × AllFresh timeout dial_timeout now w'.obfs.contexts)
        (λ w'. SaneBut m w'.obfs)
        (λ w'. IsSane m w'.obfs × AllFresh timeout dial_timeout now w'.obfs.contexts)
        (λ w' (n, f) b. (
          record { counted = n; sound = b.sound; client_lives = b.client_lives; idle = b.idle },
          f,
        ))
        (obfs_timeout_cb m timeout dial_timeout now w)
        (obfs_timeout_cb-Counted m timeout dial_timeout now w s.counted seen)
        (filtered-SaneBut w (filter_contexts m timeout dial_timeout now w.obfs.contexts w) s
          (filter_contexts-Leaves w.obfs.contexts w s.idle))
