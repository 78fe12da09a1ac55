-- ===== src/Prelude/Word.antt =====
-- Go's `int64`: an integer with the wrap-around of two's complement written out. A value of the
-- model is a ℤ; `IsInt64` says that it is one that an `int64` can hold.
use Prim.Native.Nat.{ℕ, ◌-◌, ◌%◌, ◌^◌, ◌≤◌, ◌<◌}
use mathlib.Core.Path.{◌≡◌, ◌∙◌}
use native.Mathlib.Omega.{arith}
use ridematch.Prelude.Tests.{ltb, if◌then◌else◌}
use ridematch.Prelude.Int.{
  ℤ, pos, negsuc, pos_part, neg_part, ◌+ℤ◌, ◌-ℤ◌, ◌*ℤ◌, zero_+ℤ, one_sign, int_laws,
}

abbrev pub IsInt64 : ℤ → Type 0
IsInt64 z = (pos_part z < 2 ^ 63) × (neg_part z ≤ 2 ^ 63)

-- The integer that a 64-bit pattern stands for.
abbrev of_bits : ℕ → ℤ
of_bits r = if ltb r (2 ^ 63) then pos r else negsuc (2 ^ 64 - 1 - r)

-- The value left of an exact result once it is cut to 64 bits.
unfoldable pub wrap64 : ℤ → ℤ
wrap64 (pos n) = of_bits (n % 2 ^ 64)
wrap64 (negsuc n) = of_bits (2 ^ 64 - 1 - n % 2 ^ 64)

-- `a + b`, `a - b`, `-a` and `a * b` on int64.
unfoldable pub add64 : ℤ → ℤ → ℤ
add64 a b = wrap64 (a +ℤ b)

unfoldable pub sub64 : ℤ → ℤ → ℤ
sub64 a b = wrap64 (a -ℤ b)

unfoldable pub neg64 : ℤ → ℤ
neg64 a = wrap64 (pos 0 -ℤ a)

unfoldable pub mul64 : ℤ → ℤ → ℤ
mul64 a b = wrap64 (a *ℤ b)

pub wrap64-exact : (z : ℤ) → IsInt64 z → wrap64 z ≡ z
unfolding wrap64
wrap64-exact (pos n) h = ground arith
wrap64-exact (negsuc n) h = ground arith

pub wrap64-IsInt64 : (z : ℤ) → IsInt64 (wrap64 z)
unfolding wrap64
wrap64-IsInt64 (pos n) = ground arith
wrap64-IsInt64 (negsuc n) = ground arith

-- A sum of money: an int64 that is not negative.
abbrev pub IsAmount : ℤ → Type 0
IsAmount z = (neg_part z ≡ 0) × (pos_part z < 2 ^ 63)

pub IsAmount-IsInt64 : (z : ℤ) → IsAmount z → IsInt64 z
IsAmount-IsInt64 z h = omega arith

pub neg64-IsInt64 : (z : ℤ) → IsInt64 (neg64 z)
unfolding neg64
neg64-IsInt64 z = wrap64-IsInt64 (pos 0 -ℤ z)

pub sub64-IsInt64 : (a b : ℤ) → IsInt64 (sub64 a b)
unfolding sub64
sub64-IsInt64 a b = wrap64-IsInt64 (a -ℤ b)

pub neg64-exact : (z : ℤ) → IsAmount z → neg64 z ≡ pos 0 -ℤ z
unfolding neg64
neg64-exact z h = wrap64-exact (pos 0 -ℤ z) (omega (int_laws, one_sign (pos 0 -ℤ z)))

pub sub64-exact : (a b : ℤ) → IsAmount a → IsAmount b → sub64 a b ≡ a -ℤ b
unfolding sub64
sub64-exact a b ha hb = wrap64-exact (a -ℤ b) (omega (int_laws, one_sign (a -ℤ b)))

pub add64-exact : (a b : ℤ) → IsInt64 (a +ℤ b) → add64 a b ≡ a +ℤ b
unfolding add64
add64-exact a b h = wrap64-exact (a +ℤ b) h

-- Added to a sum of money, an int64 either gives the exact result or comes out negative.
wrap64-nonneg :
    (z : ℤ)
    → pos_part z < 2 ^ 64
    → neg_part z ≤ 2 ^ 63
    → neg_part (wrap64 z) ≡ 0
    → (wrap64 z ≡ z) × IsAmount z
unfolding wrap64
wrap64-nonneg (pos n) h k p = ground arith
wrap64-nonneg (negsuc n) h k p = ground arith

pub add64-nonneg :
    (a b : ℤ)
    → IsAmount a
    → IsInt64 b
    → neg_part (add64 a b) ≡ 0
    → (add64 a b ≡ a +ℤ b) × IsAmount (a +ℤ b)
unfolding add64
add64-nonneg a b ha hb p =
    let s = one_sign (a +ℤ b) in
    wrap64-nonneg (a +ℤ b) (omega (int_laws, one_sign b)) (omega int_laws) p

-- Only multiples of 2^64 wrap to zero.
wrap64-eq-zero : (z : ℤ) → pos_part z < 2 ^ 64 → neg_part z < 2 ^ 64 → wrap64 z ≡ pos 0 → z ≡ pos 0
unfolding wrap64
wrap64-eq-zero (pos n) h k p = ground arith
wrap64-eq-zero (negsuc n) h k p = ground arith

-- A debit and two credits that are sums of money: if their sum is zero in int64, it is zero.
pub split_exact :
    (a n f : ℤ)
    → IsAmount a
    → IsAmount n
    → IsAmount f
    → add64 (add64 (add64 (pos 0) (neg64 a)) n) f ≡ pos 0
    → pos 0 -ℤ a +ℤ n +ℤ f ≡ pos 0
split_exact a n f ha hn hf e =
    let debit = one_sign (pos 0 -ℤ a) in
    let start = one_sign (pos 0 +ℤ (pos 0 -ℤ a)) in
    let middle = one_sign (pos 0 -ℤ a +ℤ n) in
    let total = one_sign (pos 0 -ℤ a +ℤ n +ℤ f) in
    let first : add64 (pos 0) (neg64 a) ≡ pos 0 -ℤ a =
      rw (neg64-exact a ha)
        (add64-exact (pos 0) (pos 0 -ℤ a) (omega int_laws) ∙ zero_+ℤ (pos 0 -ℤ a)) in
    let second : add64 (pos 0 -ℤ a) n ≡ pos 0 -ℤ a +ℤ n =
      add64-exact (pos 0 -ℤ a) n (omega int_laws) in
    wrap64-eq-zero (pos 0 -ℤ a +ℤ n +ℤ f) (omega int_laws) (omega int_laws)
      (unfold add64 in (rw (first, second) at e))
