-- ===== src/HttpService/Laws.antt =====
-- What becomes of a request, by its URL, and what becomes of an answer that is sent in parts
-- (src/event_http.c, http_handle_request and http_ctx_write).
use Prim.Native.String.{String}
use text.Mathlib.Text.{◌==◌ as str_eq}
use kcptun_libev.Base.{
  ◌≡◌, ℕ, zero, suc, ◌+◌, ◌-◌, ◌≤◌, ◌<◌, Bool, true, false, List, Option, none, some, length, take,
  ltb, ◌==◌, if◌then◌else◌, arith, refl, if_cases, if_both, Ends, length-drop, length-take,
}
use kcptun_libev.Library.Http.{HttpMessage}
use kcptun_libev.Session.Step.{SendOut}
use kcptun_libev.Obfs.Http.Write.{after, send_loop}
use kcptun_libev.HttpService.{
  HttpCtx, Served, Query, Url, Pages, with_component, http_resp_errpage, query_loop, stats_page,
  rounds, http_serve_stats, healthy_page, http_handle_request, consumed, write_rest, http_ctx_write,
}

-- There is a page where there is memory for one.
abbrev pub IsPage : Bool → Option (List ℕ) → Type 0
IsPage false o = o ≡ none
IsPage true o = (page : List ℕ) × (o ≡ some page)

abbrev pub Answers : Bool → Option (Option (List ℕ)) → Type 0
Answers memory o = Ends (IsPage memory) o

-- The URL is refused, or it has a path.
abbrev pub HasPath : Option (Option (List ℕ) × Option (List ℕ)) → Type 0
HasPath (some (none, query)) = ⊥
HasPath _ = Unit

-- What becomes of a request, by what `url_parse` makes of its URL.
abbrev pub Outcome :
    Bool → Option (Option (List ℕ) × Option (List ℕ)) → Option (Option (List ℕ)) → Type 0
Outcome memory none r = Answers memory r
Outcome memory (some (none, query)) r = r ≡ none
Outcome memory (some (some path, query)) r = Answers memory r

http_error-IsPage :
    (header : List ℕ) (o : Option (List ℕ))
    → IsPage true (elim o [ none ↦ some header | some page ↦ some page ])
http_error-IsPage header none = (header, refl)
http_error-IsPage header (some page) = (page, refl)

module _ (pages : Pages) (url : Url) where
  http_resp_errpage-IsPage :
      (memory : Bool) (code : ℕ) → IsPage memory (http_resp_errpage pages url memory code)
  unfolding http_resp_errpage
  http_resp_errpage-IsPage false code = refl
  http_resp_errpage-IsPage true code = http_error-IsPage (pages.header code) (pages.http_error code)

  stats_page-IsPage :
      (memory : Bool) (method : String) (q : Query)
      → IsPage memory (stats_page pages url memory method q)
  unfolding stats_page
  stats_page-IsPage false method q = refl
  stats_page-IsPage true method q =
      if_both (IsPage true) (str_eq method "GET") _ _ (_, refl)
        (if_both (IsPage true) (str_eq method "POST") _ _ (_, refl)
          (http_resp_errpage-IsPage true 405))

  healthy_page-IsPage :
      (memory : Bool) (path : Option (List ℕ)) → IsPage memory (healthy_page pages url memory path)
  unfolding healthy_page
  healthy_page-IsPage memory (some path) = http_resp_errpage-IsPage memory 404
  healthy_page-IsPage false none = refl
  healthy_page-IsPage true none = (_, refl)

  open url use {url_query_component, url_query_component-shorter}

  -- What is left of a query takes fewer rounds.
  rounds_left :
      (memory : Bool) (f : ℕ) (query : List ℕ) (key value : String) (rest : Option (List ℕ))
      → url_query_component query ≡ some (key, value, rest)
      → length query + 2 ≤ suc f
      → rounds pages url memory rest ≤ f
  rounds_left memory f query key value none e l = omega arith
  rounds_left memory f query key value (some rest) e l =
      omega (arith, url_query_component-shorter query key value rest e)

  query_step :
      (memory : Bool) (f : ℕ) (query : List ℕ) (q : Query)
      (o : Option (String × String × Option (List ℕ)))
      → url_query_component query ≡ o
      → length query + 2 ≤ suc f
      → ((rest : Option (List ℕ)) (q : Query)
          → rounds pages url memory rest ≤ f
          → Ends (λ _. Unit) (query_loop pages url memory f rest q))
      → Ends
          (λ _. Unit)
          (elim o [
            | none ↦ some none
            | some (key, value, rest) ↦
                query_loop pages url memory f rest (with_component key value q)
          ])
  query_step memory f query q none e l go = tt
  query_step memory f query q (some (key, value, rest)) e l go =
      go rest _ (rounds_left memory f query key value rest e l)

  query_loop-Ends :
      (memory : Bool) (f : ℕ) (rest : Option (List ℕ)) (q : Query)
      → rounds pages url memory rest ≤ f
      → Ends (λ _. Unit) (query_loop pages url memory f rest q)
  unfolding query_loop
  query_loop-Ends memory zero none q l = absurd (omega arith)
  query_loop-Ends memory zero (some query) q l = absurd (omega arith)
  query_loop-Ends memory (suc f) none q l = tt
  query_loop-Ends memory (suc f) (some query) q l =
      query_step memory f query q (url_query_component query) refl l (query_loop-Ends memory f)

  query_end-Answers :
      (memory : Bool) (method : String) (o : Option (Option Query))
      → Ends (λ _. Unit) o
      → Answers memory (elim o [
        | none ↦ none
        | some none ↦ some (http_resp_errpage pages url memory 400)
        | some (some q) ↦ some (stats_page pages url memory method q)
      ])
  query_end-Answers memory method none h = h
  query_end-Answers memory method (some none) h = http_resp_errpage-IsPage memory 400
  query_end-Answers memory method (some (some q)) h = stats_page-IsPage memory method q

  http_serve_stats-Answers :
      (memory : Bool) (msg : HttpMessage) (path query : Option (List ℕ))
      → Answers memory (http_serve_stats pages url memory msg path query)
  unfolding http_serve_stats
  http_serve_stats-Answers memory msg (some path) query = http_resp_errpage-IsPage memory 404
  http_serve_stats-Answers memory msg none query =
      query_end-Answers memory msg.field1 _ (query_loop-Ends memory _ query _ (omega arith))

  segment-Answers :
      (memory : Bool) (msg : HttpMessage) (query : Option (List ℕ))
      (o : Option (String × Option (List ℕ)))
      → Answers memory (elim o [
        | none ↦ some (http_resp_errpage pages url memory 400)
        | some (segment, rest) ↦
            if str_eq segment "stats"
            then http_serve_stats pages url memory msg rest query
            else if str_eq segment "healthy"
            then some (healthy_page pages url memory rest)
            else some (http_resp_errpage pages url memory 404)
      ])
  segment-Answers memory msg query none = http_resp_errpage-IsPage memory 400
  segment-Answers memory msg query (some (segment, rest)) =
      if_both (Answers memory) (str_eq segment "stats") _ _
        (http_serve_stats-Answers memory msg rest query)
        (if_both (Answers memory) (str_eq segment "healthy") _ _ (healthy_page-IsPage memory rest)
          (http_resp_errpage-IsPage memory 404))

  uri-Outcome :
      (memory : Bool) (msg : HttpMessage) (o : Option (Option (List ℕ) × Option (List ℕ)))
      → Outcome memory o (elim o [
        | none ↦ some (http_resp_errpage pages url memory 400)
        | some (none, query) ↦ none
        | some (some path, query) ↦ elim (url.url_path_segment path) [
          | none ↦ some (http_resp_errpage pages url memory 400)
          | some (segment, rest) ↦
              if str_eq segment "stats"
              then http_serve_stats pages url memory msg rest query
              else if str_eq segment "healthy"
              then some (healthy_page pages url memory rest)
              else some (http_resp_errpage pages url memory 404)
        ]
      ])
  uri-Outcome memory msg none = http_resp_errpage-IsPage memory 400
  uri-Outcome memory msg (some (none, query)) = refl
  uri-Outcome memory msg (some (some path, query)) =
      segment-Answers memory msg query (url.url_path_segment path)

  -- A request whose URL is refused or has a path has its answer: the loop over the components of the
  -- query ends, and there is a page in the end, of an error where something was wrong, provided that
  -- there is memory for it; without memory there is none. A fault of the code: a URL that is accepted
  -- and has no path stops the process.
  pub http_handle_request-Outcome :
      (memory : Bool) (msg : HttpMessage)
      → Outcome memory (url.url_parse msg.field2) (http_handle_request pages url memory msg)
  unfolding http_handle_request
  http_handle_request-Outcome memory msg = uri-Outcome memory msg (url.url_parse msg.field2)

  outcome_with_path :
      (memory : Bool) (o : Option (Option (List ℕ) × Option (List ℕ)))
      (r : Option (Option (List ℕ)))
      → HasPath o
      → Outcome memory o r
      → Answers memory r
  outcome_with_path memory none r p h = h
  outcome_with_path memory (some (none, query)) r p h = absurd p
  outcome_with_path memory (some (some path, query)) r p h = h

  pub http_handle_request-Answers :
      (memory : Bool) (msg : HttpMessage)
      → HasPath (url.url_parse msg.field2)
      → Answers memory (http_handle_request pages url memory msg)
  http_handle_request-Answers memory msg p =
      outcome_with_path memory (url.url_parse msg.field2) _ p
        (http_handle_request-Outcome memory msg)

-- An answer that is kept for later lacks as many bytes as were sent, or the process has stopped, which
-- it does where more was sent than is left.
abbrev pub IsShortBy : ℕ → List ℕ → Option Served → Type 0
IsShortBy n wbuf none = length wbuf < n + n
IsShortBy n wbuf (some served) =
    (left : List ℕ) × (served.sent ≡ take n wbuf)
    × (Ends (λ c. c.wbuf ≡ some left) served.ctx)
    × (length served.sent + length left + n ≡ length wbuf)

write_rest-IsShortBy :
    (n : ℕ) (wbuf : List ℕ) (ctx : HttpCtx)
    → 0 < n
    → n < length wbuf
    → IsShortBy n wbuf (write_rest n wbuf ctx)
unfolding write_rest
write_rest-IsShortBy n wbuf ctx p l =
    if_cases (IsShortBy n wbuf) (n == 0) _ _ (λ e. absurd (ground arith))
      (λ _.
        if_cases (IsShortBy n wbuf) (ltb (length wbuf - n) n) _ _ (λ e. ground arith)
          (λ e.
            let b : n ≤ length wbuf - n = ground arith in
            (
              consumed n wbuf,
              refl,
              refl,
              omega (
                arith,
                b,
                length-take n wbuf,
                length-drop n (take (length wbuf - n) wbuf),
                length-take (length wbuf - n) wbuf,
              ),
            )))

-- A fault of the code: where a part of an answer was sent, what is kept of it for the next time lacks
-- as many bytes as were sent, since they are taken off the length twice; where that is more than what
-- is left, an assertion stops the process.
pub http_ctx_write-loses :
    (sends : List SendOut) (wbuf : List ℕ) (ctx : HttpCtx) (n : ℕ)
    → send_loop sends (length wbuf) 0 ≡ after n
    → 0 < n
    → n < length wbuf
    → IsShortBy n wbuf (http_ctx_write sends wbuf ctx)
unfolding http_ctx_write
http_ctx_write-loses sends wbuf ctx n e p l =
    let a : ltb n (length wbuf) ≡ true = ground arith in
    rw (e, a) (write_rest-IsShortBy n wbuf ctx p l)
