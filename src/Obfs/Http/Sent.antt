-- ===== src/Obfs/Http/Sent.antt =====
-- Sending what a context has to say (src/obfs.c, obfs_ctx_write) leaves the obfuscator well-formed.
use native.Mathlib.Nat.{zero-add}
use kcptun_libev.Base.{
  ◌≡◌, ℕ, ◌+◌, ◌≤◌, ◌<◌, Bool, true, false, not, List, [], ◌++◌, Option, none, some, length, take,
  ltb, arith, if_cases, Ends, drop, drop-append_of_le, subst, Ends-weaken, ap, sym, ◌∙◌,
  append_assoc, length-append, length-drop, length-take, take-append_at, append-nil, refl,
  take-append-drop,
}
use kcptun_libev.Library.{Serialize}
use kcptun_libev.Library.Http.{Http}
use kcptun_libev.Session.Step.{SendOut}
use kcptun_libev.Obfs.{ObfsCtx, find_ctx}
use kcptun_libev.Session.{is_set}
use kcptun_libev.Obfs.Context.Sane.{find_ctx-update_ctx}
use kcptun_libev.Obfs.Http.{silent}
use kcptun_libev.Obfs.Http.Write.{
  Host, keep_ctx, drop_ctx, SendEnd, after, failed, send_loop, Wrote, wrote, write_end,
  obfs_ctx_write,
}
use kcptun_libev.Obfs.Http.Keep.{HostIsSane, Holds, keep_ctx-HostIsSane, drop_ctx-HostIsSane}
use kcptun_libev.Obfs.Http.Bounds.{SendsAtMost, send_loop-SendsAtMost}

-- What a callback leaves is well-formed, and it does not fault.
abbrev pub EndsSane : {K : Type 0} → Option (Host K) → Type 0
EndsSane o = Ends (λ h. HostIsSane h) o

abbrev pub WritesSane : {K : Type 0} → Option (Wrote K) → Type 0
WritesSane o = Ends (λ r. HostIsSane r.host) o

take_all : (xs : List ℕ) → take (length xs) xs ≡ xs
take_all xs = ap (take (length xs)) (sym (append-nil xs)) ∙ take-append_at (length xs) xs [] refl

module _ {K : Type 0} where
  pub wrote-WritesSane :
      (sent : List ℕ) (o : Option (Host K)) → EndsSane o → WritesSane (wrote sent o)
  wrote-WritesSane sent none h = h
  wrote-WritesSane sent (some h') h = h

  pub silent-WritesSane :
      (ser : Serialize) (http : Http) (time : ℕ) (o : Option (Host K))
      → EndsSane o
      → WritesSane (silent ser http time o)
  silent-WritesSane ser http time none h = h
  silent-WritesSane ser http time (some h') h = h

  write_end-EndsSane :
      (memory : List ℕ) (ctx : ObfsCtx) (h : Host K) (n : ℕ)
      → HostIsSane h
      → Holds h.obfs ctx
      → n ≤ length ctx.wbuf
      → length ctx.wbuf ≤ 2048
      → EndsSane (write_end memory ctx h n)
  unfolding write_end
  write_end-EndsSane memory ctx h n s p l b =
      let keep : (wbuf : List ℕ) (writing : Bool)
          → HostIsSane (keep_ctx (record ctx { wbuf = wbuf; writing = writing }) h) =
        λ wbuf writing.
          keep_ctx-HostIsSane (record ctx { wbuf = wbuf; writing = writing }) h s
            (record { old = p.old; found = p.found; same_auth = p.same_auth; sound = p.sound }) in
      if_cases EndsSane (ltb n (length ctx.wbuf)) _ _
        (λ _.
          if_cases EndsSane (ltb 4096 (length ctx.wbuf + n)) none _ (λ e. ground arith)
            (λ _. keep _ true))
        (λ _.
          if_cases EndsSane (not ctx.http_keepalive) _ _ (λ _. drop_ctx-HostIsSane ctx h s p)
            (λ _. keep _ false))

  sent-WritesSane :
      (memory : List ℕ) (ctx : ObfsCtx) (h : Host K) (e : SendEnd)
      → HostIsSane h
      → Holds h.obfs ctx
      → length ctx.wbuf ≤ 2048
      → SendsAtMost (length ctx.wbuf) e
      → WritesSane (elim e [
        | failed n ↦ wrote (take n ctx.wbuf) (drop_ctx ctx h)
        | after n ↦ wrote (take n ctx.wbuf) (write_end memory ctx h n)
      ])
  sent-WritesSane memory ctx h (failed n) s p b l =
      wrote-WritesSane (take n ctx.wbuf) (drop_ctx ctx h) (drop_ctx-HostIsSane ctx h s p)
  sent-WritesSane memory ctx h (after n) s p b l =
      wrote-WritesSane (take n ctx.wbuf) (write_end memory ctx h n)
        (write_end-EndsSane memory ctx h n s p l b)

  -- However `send` answers, writing what a context has to say, at most half of the buffer, ends
  -- without a fault, and the obfuscator is well-formed afterwards, whether the context is kept,
  -- closed, or lost with its connection.
  pub obfs_ctx_write-WritesSane :
      (memory : List ℕ) (ctx : ObfsCtx) (h : Host K) (sends : List SendOut)
      → HostIsSane h
      → Holds h.obfs ctx
      → length ctx.wbuf ≤ 2048
      → WritesSane (obfs_ctx_write memory ctx h sends)
  unfolding obfs_ctx_write
  obfs_ctx_write-WritesSane memory ctx h sends s p b =
      sent-WritesSane memory ctx h (send_loop sends (length ctx.wbuf) 0) s p b (
        subst (λ k. SendsAtMost k (send_loop sends (length ctx.wbuf) 0)) (zero-add _)
          (send_loop-SendsAtMost sends (length ctx.wbuf) 0))

  -- What is kept of the buffer where a part of it was sent.
  obfs_ctx_write-repeats :
      (memory : List ℕ) (ctx : ObfsCtx) (h : Host K) (sends : List SendOut) (n : ℕ)
      → send_loop sends (length ctx.wbuf) 0 ≡ after n
      → n < length ctx.wbuf
      → length ctx.wbuf + n ≤ 4096
      → obfs_ctx_write memory ctx h sends
        ≡ some (record {
          sent = take n ctx.wbuf;
          host =
              keep_ctx (record ctx { wbuf = drop n ctx.wbuf ++ take n memory; writing = true }) h;
        })
  unfolding obfs_ctx_write write_end
  obfs_ctx_write-repeats memory ctx h sends n e l f =
      let a : ltb n (length ctx.wbuf) ≡ true = ground arith in
      let b : ltb 4096 (length ctx.wbuf + n) ≡ false = ground arith in
      rw (
        obfs_ctx_write,
        e,
        write_end,
        a,
        b,
        drop-append_of_le n ctx.wbuf (take n memory) (omega arith),
      )

  kept :
      (c : ObfsCtx) (h : Host K)
      → is_set (find_ctx c.raddr h.obfs.contexts) ≡ true
      → find_ctx c.raddr (keep_ctx c h).obfs.contexts ≡ some c
  unfolding keep_ctx
  kept c h t = find_ctx-update_ctx c h.obfs.contexts t

  obfs_ctx_write-all :
      (memory : List ℕ) (ctx : ObfsCtx) (h : Host K) (sends : List SendOut)
      → send_loop sends (length ctx.wbuf) 0 ≡ after (length ctx.wbuf)
      → ctx.http_keepalive ≡ true
      → Ends (λ r. r.sent ≡ ctx.wbuf) (obfs_ctx_write memory ctx h sends)
  unfolding obfs_ctx_write write_end
  obfs_ctx_write-all memory ctx h sends e k =
      let a : ltb (length ctx.wbuf) (length ctx.wbuf) ≡ false = ground arith in
      rw (obfs_ctx_write, e, write_end, a, k) (take_all ctx.wbuf)

  -- A fault of the code: where a part of what a context has to say was sent, and the rest is sent the
  -- next time that the socket can be written, on a connection that is kept, the peer gets it all, and
  -- behind it as many bytes as the first part had of what happened to stand behind the content of the
  -- buffer.
  pub obfs_ctx_write-junk :
      (memory later : List ℕ) (ctx : ObfsCtx) (h : Host K) (sends sends' : List SendOut) (n : ℕ)
      → send_loop sends (length ctx.wbuf) 0 ≡ after n
      → n < length ctx.wbuf
      → length ctx.wbuf + n ≤ 4096
      → n ≤ length memory
      → send_loop sends' (length ctx.wbuf) 0 ≡ after (length ctx.wbuf)
      → ctx.http_keepalive ≡ true
      → is_set (find_ctx ctx.raddr h.obfs.contexts) ≡ true
      → Ends
          (λ first.
            (c : ObfsCtx) × ((find_ctx ctx.raddr first.host.obfs.contexts ≡ some c)
              × Ends
                  (λ second. first.sent ++ second.sent ≡ ctx.wbuf ++ take n memory)
                  (obfs_ctx_write later c first.host sends')))
          (obfs_ctx_write memory ctx h sends)
  obfs_ctx_write-junk memory later ctx h sends sends' n e l f m e' k t =
      let rest = drop n ctx.wbuf ++ take n memory in
      let c : ObfsCtx = record ctx { wbuf = rest; writing = true } in
      let z : length rest ≡ length ctx.wbuf = omega (
        arith,
        length-append (drop n ctx.wbuf) (take n memory),
        length-drop n ctx.wbuf,
        length-take n memory,
      ) in
      let e2 : send_loop sends' (length rest) 0 ≡ after (length rest) = rw z e' in
      rw (obfs_ctx_write-repeats memory ctx h sends n e l f) (
        c,
        (
          kept c h t,
          Ends-weaken
              (λ r q.
                ap (λ o. take n ctx.wbuf ++ o) q
                ∙ sym (append_assoc (take n ctx.wbuf) (drop n ctx.wbuf) (take n memory))
                ∙ ap (λ o. o ++ take n memory) (take-append-drop n ctx.wbuf))
              (obfs_ctx_write later c (keep_ctx c h) sends')
              (obfs_ctx_write-all later c (keep_ctx c h) sends' e2 k),
        ),
      )
