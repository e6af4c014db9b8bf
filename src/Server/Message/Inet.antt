-- ===== src/Server/Message/Inet.antt =====
-- Addresses on the wire: what is written is read back, alone and as the pair that introduces the
-- two sides of a rendezvous to each other.
use kcptun_libev.Base.{
  ℕ, ◌-◌, ◌≤◌, ◌≡◌, List, ◌∷◌, ◌++◌, some, length, take, drop, arith, append_assoc, sym, ◌∙◌, subst,
  length-append, drop-append_at, take-append_at, refl,
}
use kcptun_libev.Address.{SockAddr, inet, inet6}
use kcptun_libev.Server.Message.{inetaddr_read, inetaddr_write, inetaddr_write2}

-- An address and a port of the right sizes.
unfoldable pub IsAddr : SockAddr → Type 0
IsAddr (inet a p) = (length a ≡ 4) × (length p ≡ 2)
IsAddr (inet6 a p _ _) = (length a ≡ 16) × (length p ≡ 2)

-- What of an address goes over the wire: its flow and its scope do not.
unfoldable pub wire_addr : SockAddr → SockAddr
wire_addr (inet a p) = inet a p
wire_addr (inet6 a p _ _) = inet6 a p 0 0

unfoldable pub wire_length : SockAddr → ℕ
wire_length (inet _ _) = 7
wire_length (inet6 _ _ _ _) = 19

cut :
    (a p rest : List ℕ) (n : ℕ)
    → length a ≡ n
    → length p ≡ 2
    → (take n (a ++ (p ++ rest)) ≡ a) × (take 2 (drop n (a ++ (p ++ rest))) ≡ p)
cut a p rest n ha hp = (
  take-append_at n a (p ++ rest) ha,
  rw (drop-append_at n a (p ++ rest) ha) (take-append_at 2 p rest hp),
)

-- The bytes of an address.
unfoldable pub wire : SockAddr → List ℕ
wire (inet a p) = 0 ∷ a ++ p
wire (inet6 a p _ _) = 1 ∷ a ++ p

pub length-wire : (sa : SockAddr) → IsAddr sa → length (wire sa) ≡ wire_length sa
unfolding wire wire_length IsAddr
length-wire (inet a p) h = omega (arith, length-append a p, h.0, h.1)
length-wire (inet6 a p f s) h = omega (arith, length-append a p, h.0, h.1)

pub inetaddr_write-wire : (sa : SockAddr) (n : ℕ) → 19 ≤ n → inetaddr_write n sa ≡ some (wire sa)
unfolding inetaddr_write wire
inetaddr_write-wire (inet a p) n h = ground arith
inetaddr_write-wire (inet6 a p f s) n h = ground arith

pub inetaddr_read-wire :
    (sa : SockAddr) (rest : List ℕ)
    → IsAddr sa
    → inetaddr_read (wire sa ++ rest) ≡ some (wire_addr sa, wire_length sa)
unfolding inetaddr_read IsAddr wire_addr wire_length wire
inetaddr_read-wire (inet a p) rest (ha, hp) =
    rw append_assoc
      (ground (arith, cut a p rest 4 ha hp, length-append a (p ++ rest), length-append p rest))
inetaddr_read-wire (inet6 a p f s) rest (ha, hp) =
    rw append_assoc
      (ground (arith, cut a p rest 16 ha hp, length-append a (p ++ rest), length-append p rest))

some-injective : {A : Type 0} {x y : A} → some x ≡ some y → x ≡ y
some-injective e = cc

pub wire-wire_addr : (sa : SockAddr) → wire (wire_addr sa) ≡ wire sa
unfolding wire wire_addr
wire-wire_addr (inet a p) = refl
wire-wire_addr (inet6 a p f s) = refl

wire_length_le : (sa : SockAddr) → wire_length sa ≤ 19
unfolding wire_length
wire_length_le (inet a p) = omega arith
wire_length_le (inet6 a p f s) = omega arith

pub IsAddr-wire_addr : (sa : SockAddr) → IsAddr sa → IsAddr (wire_addr sa)
unfolding wire_addr IsAddr
IsAddr-wire_addr (inet a p) h = h
IsAddr-wire_addr (inet6 a p f s) h = h

pub inetaddr_write2-wire :
    (sa sb : SockAddr) → IsAddr sa → inetaddr_write2 sa sb ≡ some (wire sa ++ wire sb)
unfolding inetaddr_write2
inetaddr_write2-wire sa sb h = ground (
  arith,
  inetaddr_write-wire sa 38 (omega arith),
  inetaddr_write-wire sb (38 - length (wire sa))
      (omega (arith, length-wire sa h, wire_length_le sa)),
)

-- An address of the right size that is written, to a buffer with room for any, is read back but
-- for its flow and its scope, with the length that was written, whatever follows it.
pub inetaddr_read-write :
    (sa : SockAddr) (n : ℕ) (b rest : List ℕ)
    → IsAddr sa
    → 19 ≤ n
    → inetaddr_write n sa ≡ some b
    → inetaddr_read (b ++ rest) ≡ some (wire_addr sa, length b)
inetaddr_read-write sa n b rest a h e =
    let b-wire : wire sa ≡ b = some-injective (sym (inetaddr_write-wire sa n h) ∙ e) in
    subst (λ bs. inetaddr_read (bs ++ rest) ≡ some (wire_addr sa, length bs)) b-wire
      (rw (length-wire sa a) (inetaddr_read-wire sa rest a))
