-- ===== src/Server/Sockets/Laws.antt =====
-- What a server opens, it closes (src/server.c).
use Prim.Native.String.{String}
use kcptun_libev.Base.{
  ◌≡◌, ℕ, Bool, true, false, not, ◌&&◌, ◌||◌, List, [], ◌∷◌, Option, none, some, if◌then◌else◌,
  arith, refl, ◌∙◌, ap, inl, inr, Bool-cases,
}
use kcptun_libev.Conf.{Config, is_set}
use kcptun_libev.Server.Sockets.{
  close_fd, close_field, ListenCalls, tcp_listen, Listener, Listening, listen_tcp, listen_http,
  listener_start, listener_stop,
}

pub close_fd-head : (fd : ℕ) (fds : List ℕ) → close_fd fd (fd ∷ fds) ≡ fds
unfolding close_fd
close_fd-head fd fds = ground arith

-- The calls of the system for a listener all succeed.
abbrev pub opens : ListenCalls → Bool
opens calls =
    is_set calls.resolve && is_set calls.socket && calls.nonblock && calls.bind && calls.listen

-- A descriptor more is open where `tcp_listen` gives one, and none where it fails.
pub tcp_listen-open :
    (calls : ListenCalls) (fds : List ℕ)
    → (tcp_listen calls fds).1 ≡ elim (tcp_listen calls fds).0 [ none ↦ fds | some fd ↦ fd ∷ fds ]
unfolding tcp_listen close_fd
tcp_listen-open calls fds = ground arith

close_fd-two : (a b : ℕ) (fds : List ℕ) → close_fd a (close_fd b (a ∷ b ∷ fds)) ≡ fds
unfolding close_fd
close_fd-two a b fds = ground arith

-- What `listener_start` does where both listeners are wanted or not, without its stages.
abbrev pub tcp_listens : Config → ListenCalls → Bool
tcp_listens c calls = not (is_set c.listen) || opens calls

abbrev pub http_listens : Config → ListenCalls → ListenCalls → Bool
http_listens c calls http_calls = tcp_listens c calls && is_set c.http_listen && opens http_calls

abbrev pub opened : Option ℕ → List ℕ → List ℕ
opened none fds = fds
opened (some fd) fds = fd ∷ fds

tcp_listen-opens :
    (calls : ListenCalls) (fds : List ℕ)
    → is_set calls.resolve ≡ true
    → opens calls ≡ is_set (tcp_listen calls fds).0
unfolding tcp_listen
tcp_listen-opens calls fds h = ground arith

-- The first listener is open exactly where it was wanted and all went well.
record TcpOpened (name : Option String) (calls : ListenCalls) (l : Listener) (fds : List ℕ)
    (r : Listening) : Type 0 where
  ok : r.ok ≡ (not (is_set name) || opens calls)
  fds_open : r.fds ≡ opened r.listener.fd fds
  same_http : r.listener.fd_http ≡ l.fd_http

listen_tcp-TcpOpened :
    (name : Option String) (calls : ListenCalls) (l : Listener) (fds : List ℕ)
    → l.fd ≡ none
    → TcpOpened name calls l fds (listen_tcp name calls l fds)
unfolding listen_tcp
listen_tcp-TcpOpened none calls l fds e = ground arith
listen_tcp-TcpOpened (some name) calls l fds e =
    ground (arith, tcp_listen-open calls fds, tcp_listen-opens calls fds)

record HttpOpened (name : Option String) (calls : ListenCalls) (l : Listener) (fds : List ℕ)
    (r : Listening) : Type 0 where
  same_fd : r.listener.fd ≡ l.fd
  closed :
      close_field r.listener.fd_http r.fds
      ≡ (if is_set name && opens calls then fds else close_field l.fd_http fds)

listen_http-HttpOpened :
    (name : Option String) (calls : ListenCalls) (l : Listener) (fds : List ℕ)
    → HttpOpened name calls l fds (listen_http name calls l fds)
unfolding listen_http close_field
listen_http-HttpOpened none calls l fds = ground arith
listen_http-HttpOpened (some name) calls l fds =
    ground (arith, tcp_listen-open calls fds, tcp_listen-opens calls fds)

close_fd_comm : (a b : ℕ) (xs : List ℕ) → close_fd a (close_fd b xs) ≡ close_fd b (close_fd a xs)
unfolding close_fd
close_fd_comm a b [] = refl
close_fd_comm a b (x ∷ xs) = ground (arith, close_fd_comm a b xs)

pub close_field_comm :
    (a b : Option ℕ) (xs : List ℕ)
    → close_field a (close_field b xs) ≡ close_field b (close_field a xs)
unfolding close_field
close_field_comm none b xs = refl
close_field_comm (some a) none xs = refl
close_field_comm (some a) (some b) xs = close_fd_comm a b xs

pub close_field-opened : (fd : Option ℕ) (fds : List ℕ) → close_field fd (opened fd fds) ≡ fds
unfolding close_field
close_field-opened none fds = refl
close_field-opened (some fd) fds = close_fd-head fd fds

-- The HTTP listener is closed first here.
both_closed :
    (b : Bool) (fd http : Option ℕ) (fds : List ℕ)
    → close_field fd (if b then opened fd fds else close_field http (opened fd fds))
      ≡ (if b then fds else close_field http fds)
both_closed true fd http fds = close_field-opened fd fds
both_closed false fd http fds =
    close_field_comm fd http (opened fd fds) ∙ ap (close_field http) (close_field-opened fd fds)

-- Whatever the resolver and the system answer to the start of the listeners, a server that had no TCP
-- listener has, once it stops them, the descriptors open that it had before. Only where the HTTP
-- listener was not opened, the descriptor that stood in its field is closed too; in a new server that
-- is 0.
pub listener_stop-start :
    (c : Config) (calls http_calls : ListenCalls) (l : Listener) (fds : List ℕ)
    → l.fd ≡ none
    → let r = listener_start c calls http_calls l fds in
      (listener_stop r.listener r.fds).1
      ≡ (if http_listens c calls http_calls then fds else close_field l.fd_http fds)
unfolding listener_start listener_stop
listener_stop-start c calls http_calls l fds e =
    let t = listen_tcp-TcpOpened c.listen calls l fds e in
    let r = listen_tcp c.listen calls l fds in
    elim (Bool-cases r.ok) [
      | inl f ↦
          let h = listen_http-HttpOpened c.http_listen http_calls r.listener r.fds in
          let r2 = listen_http c.http_listen http_calls r.listener r.fds in
          let b = is_set c.http_listen && opens http_calls in
          ground (
            arith,
            f,
            t.ok,
            t.fds_open,
            t.same_http,
            h.same_fd,
            h.closed,
            close_field_comm r2.listener.fd_http r2.listener.fd r2.fds,
            both_closed b r.listener.fd l.fd_http fds,
          )
      | inr f ↦
          ground (arith, f, t.ok, t.fds_open, t.same_http, close_field-opened r.listener.fd fds)
    ]
