-- ===== src/Obfs/Filter.antt =====
-- The program that the kernel runs to capture packets (src/obfs.c, filter_compile), and what the
-- kernel makes of it.
pub mod Kernel
pub mod Laws
pub mod Refine
use kcptun_libev.Base.{
  ℕ, suc, ◌+◌, ◌-◌, ◌*◌, ◌%◌, ◌^◌, Bool, List, [], ◌∷◌, ◌++◌, Option, none, some, length, take,
  drop, if◌then◌else◌, ltb, leb,
}
use kcptun_libev.Address.{SockAddr, inet, inet6, all_zero}
use kcptun_libev.Obfs.Packet.Checksum.{nth}

-- The operations that the program uses: loads of a byte, a half and a whole word at an offset, of a
-- half behind the index register, of the length of an IP header; a mask, two jumps and the result.
pub data Code : Type 0 where
  ld_b_abs ld_h_abs ld_w_abs ld_h_ind ldx_b_msh alu_and jmp_jeq jmp_jset ret_k : Code

-- `struct sock_filter` of linux/filter.h; `jt` and `jf` are of 8 bits.
pub record SockFilter : Type 0 where
  pub code : Code
  pub jt : ℕ
  pub jf : ℕ
  pub k : ℕ

abbrev pub bpf_stmt : Code → ℕ → SockFilter
bpf_stmt code k = record { code = code; jt = 0; jf = 0; k = k }

abbrev pub bpf_jump : Code → ℕ → ℕ → ℕ → SockFilter
bpf_jump code k jt jf = record { code = code; jt = jt; jf = jf; k = k }

infixl 5 ◌>>=◌
abbrev ◌>>=◌ :
    Option (List SockFilter)
    → (List SockFilter → Option (List SockFilter))
    → Option (List SockFilter)
none >>= f = none
some p >>= f = f p

-- FILTER_GENCODE; `none` is `return false`.
unfoldable pub filter_gencode : ℕ → List SockFilter → List SockFilter → Option (List SockFilter)
filter_gencode room fragment filter =
    if ltb room (length filter + length fragment) then none else some (filter ++ fragment)

-- ntohs and ntohl
abbrev pub word16 : List ℕ → ℕ
word16 b = nth 0 b * 256 + nth 1 b

abbrev pub word32 : List ℕ → ℕ
word32 b = nth 0 b * 16777216 + nth 1 b * 65536 + nth 2 b * 256 + nth 3 b

-- A jump of -1 is 255.
abbrev pub tcpip4 : List SockFilter
tcpip4 =
    bpf_stmt ld_b_abs 0
    ∷ bpf_stmt alu_and 240
    ∷ bpf_jump jmp_jeq 64 0 255
    ∷ bpf_stmt ld_b_abs 9
    ∷ bpf_jump jmp_jeq 6 0 255
    ∷ bpf_stmt ld_h_abs 6
    ∷ bpf_jump jmp_jset 8191 255 0
    ∷ []

abbrev pub ipv4_port : ℕ → List SockFilter
ipv4_port port = bpf_stmt ldx_b_msh 0 ∷ bpf_stmt ld_h_ind 2 ∷ bpf_jump jmp_jeq port 0 255 ∷ []

abbrev pub ipv4_addr : ℕ → List SockFilter
ipv4_addr addr = bpf_stmt ld_w_abs 16 ∷ bpf_jump jmp_jeq addr 0 255 ∷ []

unfoldable pub filter_compile_inet :
    ℕ → List ℕ → List ℕ → List SockFilter → Option (List SockFilter)
unfolding filter_gencode
filter_compile_inet room addr port filter = do
  f1 ← filter_gencode room tcpip4 filter
  f2 ← if all_zero port then some f1 else filter_gencode room (ipv4_port (word16 port)) f1
  if all_zero addr then some f2 else filter_gencode room (ipv4_addr (word32 addr)) f2

abbrev pub tcpip6 : List SockFilter
tcpip6 =
    bpf_stmt ld_b_abs 0
    ∷ bpf_stmt alu_and 240
    ∷ bpf_jump jmp_jeq 96 0 255
    ∷ bpf_stmt ld_b_abs 6
    ∷ bpf_jump jmp_jeq 6 0 255
    ∷ []

abbrev pub ipv6_port : ℕ → List SockFilter
ipv6_port port = bpf_stmt ld_h_abs 42 ∷ bpf_jump jmp_jeq port 0 255 ∷ []

abbrev pub ipv6_addr : List ℕ → List SockFilter
ipv6_addr addr =
    bpf_stmt ld_w_abs 24
    ∷ bpf_jump jmp_jeq (word32 addr) 0 255
    ∷ bpf_stmt ld_w_abs 28
    ∷ bpf_jump jmp_jeq (word32 (drop 4 addr)) 0 255
    ∷ bpf_stmt ld_w_abs 32
    ∷ bpf_jump jmp_jeq (word32 (drop 8 addr)) 0 255
    ∷ bpf_stmt ld_w_abs 36
    ∷ bpf_jump jmp_jeq (word32 (drop 12 addr)) 0 255
    ∷ []

unfoldable pub filter_compile_inet6 :
    ℕ → List ℕ → List ℕ → List SockFilter → Option (List SockFilter)
unfolding filter_gencode
filter_compile_inet6 room addr port filter = do
  f1 ← filter_gencode room tcpip6 filter
  f2 ← if all_zero port then some f1 else filter_gencode room (ipv6_port (word16 port)) f1
  if all_zero addr then some f2 else filter_gencode room (ipv6_addr addr) f2

-- A jump that is negative as an `int8_t` is moved to the last instruction.
abbrev pub link_jump : ℕ → ℕ → ℕ
link_jump off j = if leb 128 j then (j + off) % 2 ^ 8 else j

-- The loop; `off` is `ctx.len - (i + 1u)`, the number of instructions behind this one.
unfoldable pub link : List SockFilter → List SockFilter
link [] = []
link (f ∷ fs) =
    let off = length fs % 2 ^ 8 in
    record f { jt = link_jump off f.jt; jf = link_jump off f.jf } ∷ link fs

-- `room` is `ctx.cap`, which is `fprog->len`.
unfoldable pub filter_compile : SockAddr → ℕ → Option (List SockFilter)
unfolding filter_gencode filter_compile_inet filter_compile_inet6 link
filter_compile sa room = do
  f1 ← elim sa [
    | inet addr port ↦ filter_compile_inet room addr port []
    | inet6 addr port _ _ ↦ filter_compile_inet6 room addr port []
  ]
  f2 ← filter_gencode room (bpf_stmt ret_k 4294967295 ∷ bpf_stmt ret_k 0 ∷ []) f1
  some (link f2)
