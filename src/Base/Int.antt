-- ===== src/Base/Int.antt =====
-- Signed integers over the native numbers, for Rust's `i32` and `i64`.
use Prim.Native.Nat.{ℕ, zero, suc, ◌+◌}
use mathlib.Core.Path.{◌≡◌, refl}
use mathlib.Core.Logic.{◌↔◌}
use mathlib.Core.Bool.{Bool, true, false}
use native.Mathlib.Omega.{arith}
use bindizr.Base.Tests.{ltb, nat_beq, PartialEq}

-- `negsuc n` is -(n + 1).
pub data ℤ : Type 0 where
  pos : ℕ → ℤ
  negsuc : ℕ → ℤ

abbrev pub int_beq : ℤ → ℤ → Bool
int_beq (pos a) (pos b) = nat_beq a b
int_beq (negsuc a) (negsuc b) = nat_beq a b
int_beq _ _ = false

pub int_beq_iff : (a b : ℤ) → (int_beq a b ≡ true) ↔ (a ≡ b)
int_beq_iff (pos a) (pos b) = ground arith
int_beq_iff (pos a) (negsuc b) = ground arith
int_beq_iff (negsuc a) (pos b) = ground arith
int_beq_iff (negsuc a) (negsuc b) = ground arith

instance abbrev pub int_eq : PartialEq ℤ
int_eq = record { same = int_beq; decides = int_beq_iff }

-- `a < b`
abbrev pub int_ltb : ℤ → ℤ → Bool
int_ltb (pos a) (pos b) = ltb a b
int_ltb (pos a) (negsuc b) = false
int_ltb (negsuc a) (pos b) = true
int_ltb (negsuc a) (negsuc b) = ltb b a

-- `a + 1`
abbrev pub int_suc : ℤ → ℤ
int_suc (pos a) = pos (a + 1)
int_suc (negsuc n) = elim n [ ℕ.zero ↦ pos 0 | ℕ.suc m ↦ negsuc m ]

pub int_ltb_irrefl : (a : ℤ) → int_ltb a a ≡ false
int_ltb_irrefl (pos a) = ground arith
int_ltb_irrefl (negsuc a) = ground arith

-- `p ≤ b` gives `p < b + 1`.
pub int_ltb-suc : (p b : ℤ) → int_ltb b p ≡ false → int_ltb p (int_suc b) ≡ true
int_ltb-suc (pos p) (pos b) h = ground arith
int_ltb-suc (pos p) (negsuc b) h = cc
int_ltb-suc (negsuc p) (pos b) h = refl
int_ltb-suc (negsuc p) (negsuc zero) h = refl
int_ltb-suc (negsuc p) (negsuc (suc b)) h = ground arith

pub int_ltb-suc_false : (p b : ℤ) → int_ltb b p ≡ false → int_ltb (int_suc b) p ≡ false
int_ltb-suc_false (pos p) (pos b) h = ground arith
int_ltb-suc_false (pos p) (negsuc b) h = cc
int_ltb-suc_false (negsuc p) (pos b) h = refl
int_ltb-suc_false (negsuc p) (negsuc zero) h = refl
int_ltb-suc_false (negsuc p) (negsuc (suc b)) h = ground arith

pub int_ltb_asym : (a b : ℤ) → int_ltb a b ≡ true → int_ltb b a ≡ false
int_ltb_asym (pos a) (pos b) h = ground arith
int_ltb_asym (pos a) (negsuc b) h = cc
int_ltb_asym (negsuc a) (pos b) h = refl
int_ltb_asym (negsuc a) (negsuc b) h = ground arith

-- `c ≤ b` and `p < c` give `p < b`.
pub int_ltb-leq : (p c b : ℤ) → int_ltb p c ≡ true → int_ltb b c ≡ false → int_ltb p b ≡ true
int_ltb-leq (pos p) (pos c) (pos b) h k = ground arith
int_ltb-leq (pos p) (pos c) (negsuc b) h k = cc
int_ltb-leq (pos p) (negsuc c) b h k = cc
int_ltb-leq (negsuc p) (pos c) (pos b) h k = refl
int_ltb-leq (negsuc p) (pos c) (negsuc b) h k = cc
int_ltb-leq (negsuc p) (negsuc c) (pos b) h k = refl
int_ltb-leq (negsuc p) (negsuc c) (negsuc b) h k = ground arith
