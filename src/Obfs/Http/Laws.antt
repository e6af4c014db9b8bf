-- ===== src/Obfs/Http/Laws.antt =====
-- The callbacks for reading from a context's socket (src/obfs.c, obfs_server_read_cb and
-- obfs_client_read_cb) leave the obfuscator well-formed.
use kcptun_libev.Base.{
  ◌≡◌, ◌≢◌, ℕ, ◌≤◌, ◌==◌, true, not, List, ◌++◌, Option, none, some, length, take, arith, if_cases,
  if_both, length-append, length-take, subst, sym,
}
use kcptun_libev.Library.{Serialize, is_transient_error}
use kcptun_libev.Library.Http.{Http, HttpMessage}
use kcptun_libev.Session.{is_set}
use kcptun_libev.Session.Step.{RecvOut, got, recv_error, SendOut}
use kcptun_libev.Server.{Server}
use kcptun_libev.Server.Keepalive.{server_ping}
use kcptun_libev.Obfs.{Obfs, ObfsCtx, find_ctx}
use kcptun_libev.Obfs.Http.{
  obfs_ctx_stop, no_content, recv_room, reply, obfs_on_ready, obfs_fail_cb, wait_for_more, answer,
  serve_request, server_parsed, obfs_server_read_cb, client_parsed, obfs_client_read_cb,
}
use kcptun_libev.Obfs.Context.Sane.{IsSane}
use kcptun_libev.Obfs.Http.Parse.{Parsed, complete, unfinished, broken}
use kcptun_libev.Obfs.Http.Write.{Host, codes, keep_ctx, drop_ctx, Wrote}
use kcptun_libev.Obfs.Http.Keep.{
  HostIsSane, Holds, sched_redial-IsSane, keep_ctx-HostIsSane, keep_ctx-Holds, drop_ctx-HostIsSane,
}
use kcptun_libev.Obfs.Http.Bounds.{Reparsed, Reparses, obfs_parse_http-Reparses}
use kcptun_libev.Obfs.Http.Sent.{EndsSane, WritesSane, silent-WritesSane, obfs_ctx_write-WritesSane}

-- The context as it was received, with what the parser has moved.
Reparsed-Holds :
    (o : Obfs) (ctx c' : ObfsCtx) (rbuf : List ℕ)
    → Holds o ctx
    → length rbuf ≤ 4095
    → Reparsed (record ctx { rbuf = rbuf }) c'
    → Holds o c'
Reparsed-Holds o ctx c' rbuf p l r = record {
  old = p.old;
  found = subst (λ a. find_ctx a o.contexts ≡ some p.old) (sym r.same_raddr) p.found;
  same_auth = ground (arith, r.same_auth, p.same_auth);
  sound =
      (ground (arith, r.same_table, p.sound.0), rw (r.same_rbuf) l, rw (r.same_rbuf) (r.within));
}

-- What is received stays in the buffer, with a byte to spare.
received-fits :
    (ctx : ObfsCtx) (bytes : List ℕ)
    → length ctx.rbuf ≤ 4095
    → ctx.http_nxt ≤ length ctx.rbuf
    → (length (ctx.rbuf ++ take (recv_room ctx) bytes) ≤ 4095)
      × (ctx.http_nxt ≤ length (ctx.rbuf ++ take (recv_room ctx) bytes))
received-fits ctx bytes l n =
    let bs = take (recv_room ctx) bytes in
    (
      omega (arith, length-append ctx.rbuf bs, length-take (recv_room ctx) bytes),
      omega (arith, length-append ctx.rbuf bs),
    )

-- A first line that was parsed is there.
request-WritesSane :
    {K : Type 0} (f : HttpMessage → Option (Wrote K)) (m : Option HttpMessage)
    → is_set m ≡ true
    → ((msg : HttpMessage) → WritesSane (f msg))
    → WritesSane (elim m [ none ↦ none | some msg ↦ f msg ])
request-WritesSane f none e h = cc
request-WritesSane f (some msg) e h = h msg

answered-EndsSane :
    {K : Type 0} (f : HttpMessage → Option (Host K)) (m : Option HttpMessage)
    → is_set m ≡ true
    → ((msg : HttpMessage) → EndsSane (f msg))
    → EndsSane (elim m [ none ↦ none | some msg ↦ f msg ])
answered-EndsSane f none e h = cc
answered-EndsSane f (some msg) e h = h msg

server_ping-mode :
    {K : Type 0} (ser : Serialize) (time : ℕ) (s : Server K)
    → (server_ping ser time s).mode ≡ s.mode
unfolding server_ping
server_ping-mode ser time s = ground arith

-- A page that is there, and fits half of the buffer.
abbrev pub HasPage : Http → ℕ → Type 0
HasPage http code = (length (http.http_error code) ≢ 0) × (length (http.http_error code) ≤ 2048)

module _ {K : Type 0} (ser : Serialize) (http : Http) (time : ℕ) where
  on_ready-HostIsSane :
      (ctx : ObfsCtx) (h : Host K)
      → HostIsSane h
      → Holds h.obfs ctx
      → HostIsSane (obfs_on_ready ser http time ctx h)
        × Holds (obfs_on_ready ser http time ctx h).obfs ctx
  unfolding obfs_on_ready
  on_ready-HostIsSane ctx h s p =
      let ctx1 : ObfsCtx = record ctx { ready = true } in
      let p1 : Holds h.obfs ctx1 = record {
        old = p.old;
        found = p.found;
        same_auth = p.same_auth;
        sound = p.sound;
      } in
      let t = keep_ctx-HostIsSane ctx1 h s p1 in
      let q = keep_ctx-Holds ctx1 h p1 in
      if_cases (λ (k : Host K). HostIsSane k × Holds k.obfs ctx) (not h.server.mode.client) _ _
        (λ _.
          (t, record { old = q.old; found = q.found; same_auth = q.same_auth; sound = q.sound }))
        (λ _. (
          subst (λ m. IsSane m (record (keep_ctx ctx1 h).obfs { redial_count = 0 }))
              (sym (server_ping-mode ser time (record h.server { connected = true })))
              (record {
                counted = t.counted;
                sound = t.sound;
                client_lives = t.client_lives;
                idle = t.idle;
              }),
          record { old = q.old; found = q.found; same_auth = q.same_auth; sound = q.sound },
        ))

  answer-WritesSane :
      (sends : List SendOut) (memory page : List ℕ) (ctx : ObfsCtx) (h : Host K)
      → HostIsSane h
      → Holds h.obfs ctx
      → length page ≢ 0
      → length page ≤ 2048
      → WritesSane (answer ser http time sends memory page ctx h)
  unfolding answer
  answer-WritesSane sends memory page ctx h s p n b =
      if_cases WritesSane (length page == 0) none _ (λ e. ground arith)
        (λ _.
          obfs_ctx_write-WritesSane memory (reply page ctx) h sends s
            (record { old = p.old; found = p.found; same_auth = p.same_auth; sound = p.sound }) b)

  wait_for_more-EndsSane :
      (ctx : ObfsCtx) (h : Host K)
      → HostIsSane h
      → Holds h.obfs ctx
      → EndsSane (wait_for_more ser http time ctx h)
  unfolding wait_for_more
  wait_for_more-EndsSane ctx h s p =
      if_cases EndsSane (recv_room ctx == 0) _ _ (λ _. drop_ctx-HostIsSane ctx h s p)
        (λ _. keep_ctx-HostIsSane ctx h s p)

  fail_cb-HostIsSane :
      (ctx : ObfsCtx) (h : Host K)
      → HostIsSane h
      → Holds h.obfs ctx
      → HostIsSane (obfs_fail_cb ser http time ctx h)
  unfolding obfs_fail_cb
  fail_cb-HostIsSane ctx h s p =
      sched_redial-IsSane h.server.mode (keep_ctx (obfs_ctx_stop ctx) h).obfs (
        keep_ctx-HostIsSane (obfs_ctx_stop ctx) h s
          (record { old = p.old; found = p.found; same_auth = p.same_auth; sound = p.sound }))

  serve_request-WritesSane :
      (date : List ℕ) (sends : List SendOut) (memory : List ℕ) (msg : HttpMessage) (ctx : ObfsCtx)
      (h : Host K)
      → HostIsSane h
      → Holds h.obfs ctx
      → HasPage http 400
      → HasPage http 404
      → length date ≤ 32
      → WritesSane (serve_request ser http time date sends memory msg ctx h)
  unfolding serve_request
  serve_request-WritesSane date sends memory msg ctx h s p bad missing d =
      let l =
        length-append date (codes "\r\nContent-Length: 0\r\nConnection: keep-alive\r\n\r\n") in
      let gone = silent-WritesSane ser http time (drop_ctx ctx h) (drop_ctx-HostIsSane ctx h s p) in
      let ctx1 : ObfsCtx = record ctx { http_keepalive = true; ready = true } in
      let r =
        on_ready-HostIsSane ctx1 h s
          (record { old = p.old; found = p.found; same_auth = p.same_auth; sound = p.sound }) in
      let served =
        answer-WritesSane sends memory (no_content date) ctx1 (obfs_on_ready ser http time ctx1 h)
          r.0 r.1 (omega (arith, l)) (omega (arith, l)) in
      let found =
        answer-WritesSane sends memory (http.http_error 404) ctx h s p missing.0 missing.1 in
      let asked = answer-WritesSane sends memory (http.http_error 400) ctx h s p bad.0 bad.1 in
      search (if_both WritesSane, gone, served, found, asked)

  server_parsed-WritesSane :
      (date : List ℕ) (sends : List SendOut) (memory rbuf : List ℕ) (ctx : ObfsCtx) (h : Host K)
      (o : Option (Parsed × ObfsCtx))
      → HostIsSane h
      → Holds h.obfs ctx
      → length rbuf ≤ 4095
      → Reparses http (record ctx { rbuf = rbuf }) o
      → HasPage http 400
      → HasPage http 404
      → length date ≤ 32
      → WritesSane (server_parsed ser http time date sends memory h o)
  unfolding server_parsed
  server_parsed-WritesSane date sends memory rbuf ctx h none s p l r bad missing d = r
  server_parsed-WritesSane date sends memory rbuf ctx h (some (complete, c)) s p l (r, line) bad
        missing d =
      request-WritesSane (λ msg. serve_request ser http time date sends memory msg c h) c.http_msg
        line
        (λ msg.
          serve_request-WritesSane date sends memory msg c h s
            (Reparsed-Holds h.obfs ctx c rbuf p l r) bad missing d)
  server_parsed-WritesSane date sends memory rbuf ctx h (some (unfinished, c)) s p l (r, line) bad
        missing d =
      silent-WritesSane ser http time (wait_for_more ser http time c h)
        (wait_for_more-EndsSane c h s (Reparsed-Holds h.obfs ctx c rbuf p l r))
  server_parsed-WritesSane date sends memory rbuf ctx h (some (broken, c)) s p l (r, line) bad
        missing d =
      silent-WritesSane ser http time (drop_ctx c h)
        (drop_ctx-HostIsSane c h s (Reparsed-Holds h.obfs ctx c rbuf p l r))

  -- Whatever `recv` gives to a server (nothing, an error, or a part of a request), wherever the parser
  -- stands and however `send` answers, a well-formed obfuscator stays so, and nothing faults: the
  -- request stays in its buffer, the counter is right, and no context is left that the table does not
  -- hold. The pages for the errors 400 and 404 are there and fit half of a buffer, and the date has at
  -- most 32 bytes.
  pub obfs_server_read_cb-IsSane :
      (date : List ℕ) (sends : List SendOut) (memory : List ℕ) (r : RecvOut) (ctx : ObfsCtx)
      (h : Host K)
      → HostIsSane h
      → Holds h.obfs ctx
      → HasPage http 400
      → HasPage http 404
      → length date ≤ 32
      → WritesSane (obfs_server_read_cb ser http time date sends memory r ctx h)
  unfolding obfs_server_read_cb
  obfs_server_read_cb-IsSane date sends memory (recv_error e) ctx h s p bad missing d =
      if_cases WritesSane (is_transient_error e) _ _ (λ _. s)
        (λ _. silent-WritesSane ser http time (drop_ctx ctx h) (drop_ctx-HostIsSane ctx h s p))
  obfs_server_read_cb-IsSane date sends memory (got bytes) ctx h s p bad missing d =
      let bs = take (recv_room ctx) bytes in
      let (fits, within) = received-fits ctx bytes p.sound.1 p.sound.2 in
      if_cases WritesSane (length bs == 0) _ _
        (λ _. silent-WritesSane ser http time (drop_ctx ctx h) (drop_ctx-HostIsSane ctx h s p))
        (λ _.
          server_parsed-WritesSane date sends memory (ctx.rbuf ++ bs) ctx h _ s p fits
            (obfs_parse_http-Reparses http (record ctx { rbuf = ctx.rbuf ++ bs }) within) bad
            missing d)

  client_parsed-EndsSane :
      (rbuf : List ℕ) (ctx : ObfsCtx) (h : Host K) (o : Option (Parsed × ObfsCtx))
      → HostIsSane h
      → Holds h.obfs ctx
      → length rbuf ≤ 4095
      → Reparses http (record ctx { rbuf = rbuf }) o
      → EndsSane (client_parsed ser http time h o)
  unfolding client_parsed
  client_parsed-EndsSane rbuf ctx h none s p l r = r
  client_parsed-EndsSane rbuf ctx h (some (complete, c)) s p l (r, line) =
      let q = Reparsed-Holds h.obfs ctx c rbuf p l r in
      let gone = drop_ctx-HostIsSane c h s q in
      let ready : EndsSane (some (obfs_on_ready ser http time c h)) =
        (on_ready-HostIsSane c h s q).0 in
      answered-EndsSane _ c.http_msg line (λ msg. search (if_both EndsSane, gone, ready))
  client_parsed-EndsSane rbuf ctx h (some (unfinished, c)) s p l (r, line) =
      wait_for_more-EndsSane c h s (Reparsed-Holds h.obfs ctx c rbuf p l r)
  client_parsed-EndsSane rbuf ctx h (some (broken, c)) s p l (r, line) =
      drop_ctx-HostIsSane c h s (Reparsed-Holds h.obfs ctx c rbuf p l r)

  -- Whatever `recv` gives to a client (nothing, an error, or a part of an answer) and wherever the
  -- parser stands, a well-formed obfuscator stays so, and nothing faults, also where the redial is
  -- scheduled.
  pub obfs_client_read_cb-IsSane :
      (r : RecvOut) (ctx : ObfsCtx) (h : Host K)
      → HostIsSane h
      → Holds h.obfs ctx
      → EndsSane (obfs_client_read_cb ser http time r ctx h)
  unfolding obfs_client_read_cb
  obfs_client_read_cb-IsSane (recv_error e) ctx h s p =
      if_cases EndsSane (is_transient_error e) _ _ (λ _. s) (λ _. fail_cb-HostIsSane ctx h s p)
  obfs_client_read_cb-IsSane (got bytes) ctx h s p =
      let bs = take (recv_room ctx) bytes in
      let (fits, within) = received-fits ctx bytes p.sound.1 p.sound.2 in
      if_cases EndsSane (length bs == 0) _ _ (λ _. fail_cb-HostIsSane ctx h s p)
        (λ _.
          client_parsed-EndsSane (ctx.rbuf ++ bs) ctx h _ s p fits
            (obfs_parse_http-Reparses http (record ctx { rbuf = ctx.rbuf ++ bs }) within))
