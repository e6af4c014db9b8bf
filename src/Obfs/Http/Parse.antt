-- ===== src/Obfs/Http/Parse.antt =====
-- The parser of a request or an answer, as far as it has come (src/obfs.c, obfs_parse_http).
use kcptun_libev.Base.{ℕ, zero, suc, ◌+◌, true, false, List, Option, none, some, length, drop}
use kcptun_libev.Library.Http.{Http, invalid, more, moved}
use kcptun_libev.Obfs.{ObfsCtx}

-- OBFS_MAX_REQUEST, the size of both buffers.
abbrev pub obfs_max_request : ℕ
obfs_max_request = 4096

-- The results 0, 1 and -1.
pub data Parsed : Type 0 where
  complete unfinished broken : Parsed

module _ (http : Http) where
  open http use {http_parse, http_parsehdr}

  -- The loop over the headers, on fuel: each round moves on, or ends.
  unfoldable pub parse_headers : ℕ → List ℕ → ℕ → Option (Parsed × ℕ)
  parse_headers zero rbuf next = none
  parse_headers (suc f) rbuf next = elim (http_parsehdr (drop next rbuf)) [
    | invalid ↦ some (broken, next)
    | more ↦ some (unfinished, next)
    | moved n true ↦ parse_headers f rbuf (next + n)
    | moved n false ↦ some (complete, next + n)
  ]

  abbrev pub at_position : ObfsCtx → Option (Parsed × ℕ) → Option (Parsed × ObfsCtx)
  at_position ctx none = none
  at_position ctx (some (ret, next)) = some (ret, record ctx { http_nxt = next })

  unfoldable pub parse_rest : ObfsCtx → Option (Parsed × ObfsCtx)
  unfolding parse_headers
  parse_rest ctx = at_position ctx (parse_headers (suc (length ctx.rbuf)) ctx.rbuf ctx.http_nxt)

  unfoldable pub obfs_parse_http : ObfsCtx → Option (Parsed × ObfsCtx)
  unfolding parse_rest
  obfs_parse_http ctx = elim ctx.http_msg [
    | some msg ↦ parse_rest ctx
    | none ↦ elim (http_parse (drop ctx.http_nxt ctx.rbuf)) [
      | invalid ↦ some (broken, ctx)
      | more ↦ some (unfinished, ctx)
      | moved n msg ↦ parse_rest (record ctx { http_msg = some msg; http_nxt = ctx.http_nxt + n })
    ]
  ]
