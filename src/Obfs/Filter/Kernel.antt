-- ===== src/Obfs/Filter/Kernel.antt =====
-- What the kernel does with a filter, as it documents it: a parameter.
use Prim.Native.Nat.{bit_and}
use kcptun_libev.Base.{
  ◌≡◌, ℕ, zero, suc, ◌+◌, ◌*◌, ◌%◌, List, [], ◌∷◌, Option, none, some, get_elem?, drop,
  if◌then◌else◌, ◌==◌, refl,
}
use kcptun_libev.Obfs.Filter.{
  SockFilter, bpf_stmt, bpf_jump, ld_b_abs, ld_h_abs, ld_w_abs, ld_h_ind, ldx_b_msh, alu_and,
  jmp_jeq, jmp_jset, ret_k,
}

-- Loads in network order, from inside of the packet.
abbrev pub load_b : List ℕ → ℕ → Option ℕ
load_b b i = get_elem? b i

abbrev pub load_h : List ℕ → ℕ → Option ℕ
load_h b i = elim (load_b b i) [
  | none ↦ none
  | some h ↦ elim (load_b b (i + 1)) [ none ↦ none | some l ↦ some (h * 256 + l) ]
]

abbrev pub load_w : List ℕ → ℕ → Option ℕ
load_w b i = elim (load_h b i) [
  | none ↦ none
  | some h ↦ elim (load_h b (i + 2)) [ none ↦ none | some l ↦ some (h * 65536 + l) ]
]

-- A load outside the packet ends the program with 0.
abbrev pub loaded : Option ℕ → (ℕ → ℕ) → ℕ
loaded none go = 0
loaded (some v) go = go v

-- `exec p b a x` is the result of the instructions `p` on the packet `b` with the two registers. A
-- jump leaves out as many instructions as it says.
pub record Bpf : Type 0 where
  pub exec : List SockFilter → List ℕ → ℕ → ℕ → ℕ
  pub exec-ld_b_abs :
      (k : ℕ) (p : List SockFilter) (b : List ℕ) (a x : ℕ)
      → exec (bpf_stmt ld_b_abs k ∷ p) b a x ≡ loaded (load_b b k) (λ v. exec p b v x)
  pub exec-ld_h_abs :
      (k : ℕ) (p : List SockFilter) (b : List ℕ) (a x : ℕ)
      → exec (bpf_stmt ld_h_abs k ∷ p) b a x ≡ loaded (load_h b k) (λ v. exec p b v x)
  pub exec-ld_w_abs :
      (k : ℕ) (p : List SockFilter) (b : List ℕ) (a x : ℕ)
      → exec (bpf_stmt ld_w_abs k ∷ p) b a x ≡ loaded (load_w b k) (λ v. exec p b v x)
  pub exec-ld_h_ind :
      (k : ℕ) (p : List SockFilter) (b : List ℕ) (a x : ℕ)
      → exec (bpf_stmt ld_h_ind k ∷ p) b a x ≡ loaded (load_h b (x + k)) (λ v. exec p b v x)
  pub exec-ldx_b_msh :
      (k : ℕ) (p : List SockFilter) (b : List ℕ) (a x : ℕ)
      → exec (bpf_stmt ldx_b_msh k ∷ p) b a x ≡ loaded (load_b b k) (λ v. exec p b a (v % 16 * 4))
  pub exec-alu_and :
      (k : ℕ) (p : List SockFilter) (b : List ℕ) (a x : ℕ)
      → exec (bpf_stmt alu_and k ∷ p) b a x ≡ exec p b (bit_and a k) x
  pub exec-jmp_jeq :
      (k jt jf : ℕ) (p : List SockFilter) (b : List ℕ) (a x : ℕ)
      → exec (bpf_jump jmp_jeq k jt jf ∷ p) b a x ≡ exec (drop (if a == k then jt else jf) p) b a x
  pub exec-jmp_jset :
      (k jt jf : ℕ) (p : List SockFilter) (b : List ℕ) (a x : ℕ)
      → exec (bpf_jump jmp_jset k jt jf ∷ p) b a x
        ≡ exec (drop (if bit_and a k == 0 then jf else jt) p) b a x
  pub exec-ret_k :
      (k : ℕ) (p : List SockFilter) (b : List ℕ) (a x : ℕ) → exec (bpf_stmt ret_k k ∷ p) b a x ≡ k

-- An instance: the number of instructions that are left out is counted down.
abbrev pub run : ℕ → List SockFilter → List ℕ → ℕ → ℕ → ℕ
run n [] b a x = 0
run (suc n) (f ∷ p) b a x = run n p b a x
run zero (f ∷ p) b a x = elim f.code [
  | ld_b_abs ↦ loaded (load_b b f.k) (λ v. run 0 p b v x)
  | ld_h_abs ↦ loaded (load_h b f.k) (λ v. run 0 p b v x)
  | ld_w_abs ↦ loaded (load_w b f.k) (λ v. run 0 p b v x)
  | ld_h_ind ↦ loaded (load_h b (x + f.k)) (λ v. run 0 p b v x)
  | ldx_b_msh ↦ loaded (load_b b f.k) (λ v. run 0 p b a (v % 16 * 4))
  | alu_and ↦ run 0 p b (bit_and a f.k) x
  | jmp_jeq ↦ run (if a == f.k then f.jt else f.jf) p b a x
  | jmp_jset ↦ run (if bit_and a f.k == 0 then f.jf else f.jt) p b a x
  | ret_k ↦ f.k
]

pub run-drop :
    (n : ℕ) (p : List SockFilter) (b : List ℕ) (a x : ℕ) → run n p b a x ≡ run 0 (drop n p) b a x
run-drop zero p b a x = refl
run-drop (suc n) [] b a x = refl
run-drop (suc n) (f ∷ p) b a x = run-drop n p b a x

abbrev pub kernel : Bpf
kernel = record {
  exec = run 0;
  exec-ld_b_abs = λ k p b a x. refl;
  exec-ld_h_abs = λ k p b a x. refl;
  exec-ld_w_abs = λ k p b a x. refl;
  exec-ld_h_ind = λ k p b a x. refl;
  exec-ldx_b_msh = λ k p b a x. refl;
  exec-alu_and = λ k p b a x. refl;
  exec-jmp_jeq = λ k jt jf p b a x. run-drop (if a == k then jt else jf) p b a x;
  exec-jmp_jset = λ k jt jf p b a x. run-drop (if bit_and a k == 0 then jf else jt) p b a x;
  exec-ret_k = λ k p b a x. refl;
}
