-- ===== src/Session/Step.antt =====
-- Steps of a session: its state with what the system will answer, and a fault for an access
-- through a freed buffer, a failed assertion, or a loop that the bound on its rounds cuts off.
use kcptun_libev.Base.{ℕ, ◌≡◌, List, [], ◌∷◌, Option, none, some, Bool, true, false}
use kcptun_libev.Library.{Errno, eagain}
use kcptun_libev.Session.{Session, LinkStats}

-- What a call of `recv` finds: bytes (no byte is the end of the stream) or an error.
pub data RecvOut : Type 0 where
  got : List ℕ → RecvOut
  recv_error : Errno → RecvOut

-- What a call of `send` does: it takes at most so many bytes, or fails.
pub data SendOut : Type 0 where
  took : ℕ → SendOut
  send_error : Errno → SendOut

-- How `forward_dial` fares with `socket`, `fcntl` and `connect`.
pub data DialOut : Type 0 where
  no_socket : Errno → DialOut
  no_connect : Errno → ℕ → DialOut
  dialled : ℕ → DialOut

-- A session with the server's counters (`s->stats`), the loop's time, and the answers of the
-- system. Where a list of answers is used up, the call would block (EAGAIN). `out` is what the
-- socket has taken so far, in order.
pub record World (K : Type 0) : Type 0 where
  pub ss : Session K
  pub total : LinkStats
  pub now : ℕ
  pub recvs : List RecvOut
  pub sends : List SendOut
  pub out : List ℕ
  pub dial : DialOut
  pub sockerr : Option Errno

abbrev pub M : Type 0 → Type 0 → Type 0
M K A = World K → Option (A × World K)

infixl 5 ◌>>=◌ ◌>>◌
abbrev pub ◌>>=◌ : {K A B : Type 0} → M K A → (A → M K B) → M K B
◌>>=◌ m f w = elim (m w) [ none ↦ none | some (a, w') ↦ f a w' ]

abbrev pub ◌>>◌ : {K B : Type 0} → M K (Unit {0}) → M K B → M K B
m >> k = m >>= λ _. k

abbrev pub pure : {K A : Type 0} → A → M K A
pure a w = some (a, w)

abbrev pub modify : {K : Type 0} → (Session K → Session K) → M K (Unit {0})
modify f w = some (tt, record w { ss = f w.ss })

abbrev pub reads : {K A : Type 0} → (World K → A) → M K A
reads f w = some (f w, w)

-- The run does not fault, and what it returns satisfies `P`.
abbrev pub Returns : {K A : Type 0} → (A → World K → Type 0) → Option (A × World K) → Type 0
Returns P none = ⊥
Returns P (some (a, w)) = P a w

module _ {K A B : Type 0} (P : A → World K → Type 0) (Q : B → World K → Type 0) (f : A → M K B)
    (next : (a : A) (w : World K) → P a w → Returns Q (f a w)) where
  pub Returns-then :
      (o : Option (A × World K))
      → Returns P o
      → Returns Q (elim o [ none ↦ none | some (a, w) ↦ f a w ])
  Returns-then none p = p
  Returns-then (some (a, w)) p = next a w p

pub Returns-weaken :
    {K A : Type 0} (P Q : A → World K → Type 0)
    → ((a : A) (w : World K) → P a w → Q a w)
    → (o : Option (A × World K)) → Returns P o
    → Returns Q o
Returns-weaken P Q f none p = p
Returns-weaken P Q f (some (a, w)) p = f a w p

-- A pointer that is followed, and an assertion.
abbrev pub deref : {K A : Type 0} → (Session K → Option A) → M K A
deref f w = elim (f w.ss) [ none ↦ none | some a ↦ some (a, w) ]

pub deref_lem :
    {K A B : Type 0} (f : Session K → Option A) (m : A → M K B) (w : World K) {a : A}
    → f w.ss ≡ some a
    → (deref f >>= m) w ≡ m a w
deref_lem f m w e = rw (e, deref, ◌>>=◌)

abbrev pub check : {K : Type 0} → Bool → M K (Unit {0})
check true w = some (tt, w)
check false w = none

-- `recv` and `send` on the session's socket.
unfoldable pub sys_recv : {K : Type 0} → M K RecvOut
sys_recv w = elim w.recvs [
  | [] ↦ some (recv_error eagain, w)
  | r ∷ rs ↦ some (r, record w { recvs = rs })
]

unfoldable pub sys_send : {K : Type 0} → M K SendOut
sys_send w = elim w.sends [
  | [] ↦ some (send_error eagain, w)
  | r ∷ rs ↦ some (r, record w { sends = rs })
]

-- The results of the functions that are run in a loop: OK = 0, wait = 1, closed or error = -1.
pub data Ret : Type 0 where
  ok wait fail : Ret

-- What a loop does with such a result: another round, an end, or the closing.
abbrev pub next_round : {K : Type 0} → Ret → M K (Unit {0}) → M K (Unit {0}) → M K (Unit {0})
next_round ok more close = more
next_round wait more close = pure tt
next_round fail more close = close

abbrev pub while_ok : {K : Type 0} → Ret → M K Ret → M K Ret
while_ok ok more = more
while_ok wait more = pure wait
while_ok fail more = pure fail
