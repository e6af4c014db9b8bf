-- ===== src/Session/Valid.antt =====
-- What holds of a session between two operations: the buffers live as long as KCP does, a session
-- that is closing has given up its socket or has nothing left for it, and the part of the receive
-- buffer that is to be flushed lies inside it.
use kcptun_libev.Base.{
  ℕ, ◌≤◌, ◌≡◌, ◌≢◌, ◌⊎◌, true, List, [], Option, none, some, length, arith, refl, ◌∙◌,
}
use kcptun_libev.Session.{
  connect, connected, linger, time_wait, rank, Session, is_set, session_buf_size, tlv_header_size,
  tlv_max_length,
}
use kcptun_libev.Session.Step.{World, M, Returns, Ret, ok, wait, fail, next_round}
use Prim.Native.Nat.{◌-◌}

-- How many bytes a buffer holds; none once it is freed.
abbrev pub size : Option (List ℕ) → ℕ
size none = 0
size (some xs) = length xs

pub record IsValid {K : Type 0} (s : Session K) : Type 0 where
  pub buffers : is_set s.kcp ≡ true → (is_set s.rbuf ≡ true) × (is_set s.wbuf ≡ true)
  pub alive : s.kcp_state ≢ time_wait → is_set s.kcp ≡ true
  pub socket : (s.tcp_state ≡ connect) ⊎ (s.tcp_state ≡ connected) → is_set s.fd ≡ true
  pub closing :
      (s.kcp_state ≡ linger) ⊎ (s.kcp_state ≡ time_wait)
      → (s.tcp_state ≡ linger) ⊎ (s.tcp_state ≡ time_wait)
  pub lingering : s.tcp_state ≡ linger → (s.kcp_state ≡ linger) ⊎ (s.kcp_state ≡ time_wait)
  pub flushed : s.tcp_state ≡ linger → s.wbuf_flush ≡ s.wbuf_next
  pub window : s.wbuf_flush ≤ s.wbuf_next
  pub inside : is_set s.wbuf ≡ true → s.wbuf_next ≤ size s.wbuf
  pub wbuf_fits : size s.wbuf ≤ session_buf_size
  pub rbuf_fits : size s.rbuf ≤ tlv_max_length - tlv_header_size

-- The session that an operation leaves is valid, is the same session, and is no further from its
-- end than before; no answer of the system comes back.
pub record Follows {K : Type 0} (w w' : World K) : Type 0 where
  pub valid : IsValid w'.ss
  pub forward : rank w.ss.kcp_state ≤ rank w'.ss.kcp_state
  pub same_conv : w'.ss.conv ≡ w.ss.conv
  pub same_peer : w'.ss.raddr ≡ w.ss.raddr
  pub recvs_le : length w'.recvs ≤ length w.recvs
  pub sends_le : length w'.sends ≤ length w.sends

pub Follows-trans :
    {K : Type 0} {w w' w'' : World K} → Follows w w' → Follows w' w'' → Follows w w''
Follows-trans p q = ground arith

module _ {K : Type 0} (content : K → List ℕ) where
  -- What KCP still holds for the session.
  abbrev pub held : Option K → List ℕ
  held none = []
  held (some k) = content k

  -- Unless the session leaves the connected state, what it has received is left alone too.
  pub record Keeps (w w' : World K) : Type 0 where
    pub follows : Follows w w'
    pub calm :
        w'.ss.kcp_state ≡ connected
        → (w.ss.kcp_state ≡ connected)
          × (w'.ss.wbuf ≡ w.ss.wbuf)
          × (w'.ss.wbuf_next ≡ w.ss.wbuf_next)
          × (w.ss.wbuf_flush ≤ w'.ss.wbuf_flush)
          × (held w'.ss.kcp ≡ held w.ss.kcp)

  pub Keeps-trans : (w w' w'' : World K) → Keeps w w' → Keeps w' w'' → Keeps w w''
  Keeps-trans w w' w'' p q = record {
    follows = Follows-trans p.follows q.follows;
    calm = λ e.
        let (c, b, n, f, h) = q.calm e in
        let (c', b', n', f', h') = p.calm c in (c', b ∙ b', n ∙ n', omega arith, h ∙ h');
  }

  module _ {w w' : World K} (k : Keeps w w') where
    pub Keeps-Returns :
        {A : Type 0} (o : Option (A × World K))
        → Returns (λ _ w''. Keeps w' w'') o
        → Returns (λ _ w''. Keeps w w'') o
    Keeps-Returns none r = r
    Keeps-Returns (some (a, w'')) r = Keeps-trans w w' w'' k r

    pub next_round-Keeps :
        (ret : Ret) (more close : M K (Unit {0}))
        → (ret ≡ ok → Returns (λ _ w''. Keeps w' w'') (more w'))
        → Returns (λ _ w''. Keeps w' w'') (close w')
        → Returns (λ _ w''. Keeps w w'') (next_round ret more close w')
    next_round-Keeps ok more close m c = Keeps-Returns (more w') (m refl)
    next_round-Keeps wait more close m c = k
    next_round-Keeps fail more close m c = Keeps-Returns (close w') c
