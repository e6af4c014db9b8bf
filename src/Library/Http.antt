-- ===== src/Library/Http.antt =====
-- What the program takes from the HTTP parser and writer of contrib/csnippets (net/http.h). Each is a
-- parameter, with the facts that the header documents.
use Prim.Native.String.{String}
use kcptun_libev.Base.{ℕ, ◌≤◌, ◌<◌, Bool, List, length}

-- `struct http_message`, once a line has been parsed.
pub record HttpMessage : Type 0 where
  pub field1 : String
  pub field2 : String
  pub field3 : String

-- A parser is handed the bytes that are left. It fails, waits for more data, or moves on by so many
-- bytes with a result.
pub data HttpOut (A : Type 0) : Type 0 where
  invalid more : HttpOut A
  moved : ℕ → A → HttpOut A

-- A position that has moved is behind the old one and not behind the end of the data.
abbrev pub MovesWithin : {A : Type 0} → List ℕ → HttpOut A → Type 0
MovesWithin rest invalid = Unit
MovesWithin rest more = Unit
MovesWithin rest (moved n a) = (0 < n) × (n ≤ length rest)

-- The result of `http_parsehdr` is whether there was a header, which is not so at their end. The
-- answer with 204 depends on what `http_date` gives, the request on the name of the host.
pub record Http : Type 0 where
  pub http_parse : List ℕ → HttpOut HttpMessage
  pub http_parsehdr : List ℕ → HttpOut Bool
  pub http_error : ℕ → List ℕ
  pub http_parse-within : (rest : List ℕ) → MovesWithin rest (http_parse rest)
  pub http_parsehdr-within : (rest : List ℕ) → MovesWithin rest (http_parsehdr rest)
