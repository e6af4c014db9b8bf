-- ===== src/Obfs/Http/Bounds.antt =====
-- The parser ends and stays in the request; no more is sent than there is (src/obfs.c,
-- obfs_parse_http and obfs_ctx_write).
use kcptun_libev.Base.{
  ◌≡◌, ℕ, zero, suc, ◌+◌, ◌-◌, ◌≤◌, ◌<◌, Bool, true, false, List, [], ◌∷◌, Option, none, some,
  length, drop, min, arith, refl, Ends, Ends-weaken, length-drop, Bool-cases, inl, inr, subst,
}
use kcptun_libev.Library.{Errno, is_transient_error}
use kcptun_libev.Library.Http.{Http, HttpOut, invalid, more, moved, MovesWithin, HttpMessage}
use kcptun_libev.Session.{is_set}
use kcptun_libev.Session.Step.{SendOut, took, send_error}
use kcptun_libev.Obfs.{ObfsCtx}
use kcptun_libev.Obfs.Http.Parse.{
  Parsed, complete, unfinished, broken, parse_headers, at_position, parse_rest, obfs_parse_http,
}
use kcptun_libev.Obfs.Http.Write.{SendEnd, after, failed, send_loop, count_error}

-- A request that is complete has had its first line parsed.
abbrev pub HasLine : Parsed → ObfsCtx → Type 0
HasLine complete c = is_set c.http_msg ≡ true
HasLine unfinished c = Unit
HasLine broken c = Unit

-- The parser has moved the position only, and not behind the end.
pub record Reparsed (c c' : ObfsCtx) : Type 0 where
  pub same_raddr : c'.raddr ≡ c.raddr
  pub same_auth : c'.authenticated ≡ c.authenticated
  pub same_table : c'.in_table ≡ c.in_table
  pub same_rbuf : c'.rbuf ≡ c.rbuf
  pub within : c'.http_nxt ≤ length c.rbuf

Reparsed-refl : (c : ObfsCtx) → c.http_nxt ≤ length c.rbuf → Reparsed c c
Reparsed-refl c l = record {
  same_raddr = refl;
  same_auth = refl;
  same_table = refl;
  same_rbuf = refl;
  within = l;
}

module _ (http : Http) where
  open http use {http_parse, http_parsehdr, http_parse-within, http_parsehdr-within}

  abbrev pub InBuffer : List ℕ → Option (Parsed × ℕ) → Type 0
  InBuffer rbuf o = Ends (λ (r : Parsed × ℕ). r.1 ≤ length rbuf) o

  parsed_header-InBuffer :
      (f : ℕ) (rbuf : List ℕ) (next : ℕ) (o : HttpOut Bool)
      → next ≤ length rbuf
      → MovesWithin (drop next rbuf) o
      → ((n : ℕ)
          → 0 < n
          → next + n ≤ length rbuf
          → InBuffer rbuf (parse_headers http f rbuf (next + n)))
      → InBuffer rbuf (elim o [
        | invalid ↦ some (broken, next)
        | more ↦ some (unfinished, next)
        | moved n true ↦ parse_headers http f rbuf (next + n)
        | moved n false ↦ some (complete, next + n)
      ])
  parsed_header-InBuffer f rbuf next invalid l w go = l
  parsed_header-InBuffer f rbuf next more l w go = l
  parsed_header-InBuffer f rbuf next (moved n true) l w go =
      go n w.0 (omega (arith, w.1, length-drop next rbuf))
  parsed_header-InBuffer f rbuf next (moved n false) l w go =
      omega (arith, w.1, length-drop next rbuf)

  pub parse_headers-InBuffer :
      (f : ℕ) (rbuf : List ℕ) (next : ℕ)
      → next ≤ length rbuf
      → length rbuf < next + f
      → InBuffer rbuf (parse_headers http f rbuf next)
  unfolding parse_headers
  parse_headers-InBuffer zero rbuf next l e = absurd (omega arith)
  parse_headers-InBuffer (suc f) rbuf next l e =
      parsed_header-InBuffer f rbuf next (http_parsehdr (drop next rbuf)) l
        (http_parsehdr-within (drop next rbuf))
        (λ n p q. parse_headers-InBuffer f rbuf (next + n) q (omega arith))

  abbrev pub Reparses : ObfsCtx → Option (Parsed × ObfsCtx) → Type 0
  Reparses c o = Ends (λ (r : Parsed × ObfsCtx). Reparsed c r.1 × HasLine r.0 r.1) o

  has_line : (ret : Parsed) (c : ObfsCtx) → is_set c.http_msg ≡ true → HasLine ret c
  has_line complete c h = h
  has_line unfinished c h = tt
  has_line broken c h = tt

  at_position-Reparses :
      (c : ObfsCtx) (o : Option (Parsed × ℕ))
      → is_set c.http_msg ≡ true
      → InBuffer c.rbuf o
      → Reparses c (at_position http c o)
  at_position-Reparses c none m h = h
  at_position-Reparses c (some (ret, next)) m h = (
    record { same_raddr = refl; same_auth = refl; same_table = refl; same_rbuf = refl; within = h },
    has_line ret (record c { http_nxt = next }) m,
  )

  parse_rest-Reparses :
      (c : ObfsCtx)
      → is_set c.http_msg ≡ true
      → c.http_nxt ≤ length c.rbuf
      → Reparses c (parse_rest http c)
  unfolding parse_rest
  parse_rest-Reparses c m l =
      at_position-Reparses c (parse_headers http (suc (length c.rbuf)) c.rbuf c.http_nxt) m
        (parse_headers-InBuffer (suc (length c.rbuf)) c.rbuf c.http_nxt l (omega arith))

  parse_end-Reparses :
      (c : ObfsCtx) (o : HttpOut HttpMessage)
      → c.http_nxt ≤ length c.rbuf
      → MovesWithin (drop c.http_nxt c.rbuf) o
      → Reparses c (elim o [
        | invalid ↦ some (broken, c)
        | more ↦ some (unfinished, c)
        | moved n msg ↦
            parse_rest http (record c { http_msg = some msg; http_nxt = c.http_nxt + n })
      ])
  parse_end-Reparses c invalid l w = (Reparsed-refl c l, tt)
  parse_end-Reparses c more l w = (Reparsed-refl c l, tt)
  parse_end-Reparses c (moved n msg) l w =
      let c1 : ObfsCtx = record c { http_msg = some msg; http_nxt = c.http_nxt + n } in
      Ends-weaken
        (λ r (p, q). (
          record {
            same_raddr = p.same_raddr;
            same_auth = p.same_auth;
            same_table = p.same_table;
            same_rbuf = p.same_rbuf;
            within = p.within;
          },
          q,
        ))
        (parse_rest http c1)
        (parse_rest-Reparses c1 refl (omega (arith, w.1, length-drop c.http_nxt c.rbuf)))

  parse_line-Reparses :
      (c : ObfsCtx) (o : Option HttpMessage)
      → c.http_msg ≡ o
      → c.http_nxt ≤ length c.rbuf
      → Reparses c (elim o [
        | some msg ↦ parse_rest http c
        | none ↦ elim (http_parse (drop c.http_nxt c.rbuf)) [
          | invalid ↦ some (broken, c)
          | more ↦ some (unfinished, c)
          | moved n msg ↦
              parse_rest http (record c { http_msg = some msg; http_nxt = c.http_nxt + n })
        ]
      ])
  parse_line-Reparses c none e l =
      parse_end-Reparses c (http_parse (drop c.http_nxt c.rbuf)) l
        (http_parse-within (drop c.http_nxt c.rbuf))
  parse_line-Reparses c (some msg) e l = parse_rest-Reparses c (rw e) l

  -- Whatever the bytes of a request are, and wherever the parser stands in them, parsing ends, with
  -- the position in the request, and with the first line where it is complete.
  pub obfs_parse_http-Reparses :
      (c : ObfsCtx) → c.http_nxt ≤ length c.rbuf → Reparses c (obfs_parse_http http c)
  unfolding obfs_parse_http
  obfs_parse_http-Reparses c l = parse_line-Reparses c c.http_msg refl l

-- No more is sent than there is.
abbrev pub SendsAtMost : ℕ → SendEnd → Type 0
SendsAtMost k (after n) = n ≤ k
SendsAtMost k (failed n) = n ≤ k

count_error-SendsAtMost : (e : Errno) (n k : ℕ) → n ≤ k → SendsAtMost k (count_error e n)
count_error-SendsAtMost e n k h = elim (Bool-cases (is_transient_error e)) [
  | inl t ↦ rw t h
  | inr t ↦ rw t h
]

pub send_loop-SendsAtMost :
    (rs : List SendOut) (len nbsend : ℕ) → SendsAtMost (nbsend + len) (send_loop rs len nbsend)
unfolding send_loop
send_loop-SendsAtMost [] len nbsend = omega arith
send_loop-SendsAtMost (r ∷ rs) zero nbsend = omega arith
send_loop-SendsAtMost (send_error e ∷ rs) (suc len) nbsend =
    count_error-SendsAtMost e nbsend (nbsend + suc len) (omega arith)
send_loop-SendsAtMost (took n ∷ rs) (suc len) nbsend =
    let m = min n (suc len) in
    let e : nbsend + m + (suc len - m) ≡ nbsend + suc len = omega arith in
    subst (λ k. SendsAtMost k (send_loop rs (suc len - m) (nbsend + m))) e
      (send_loop-SendsAtMost rs (suc len - m) (nbsend + m))
