-- ===== src/Money/Fees.antt =====
-- The arithmetic behind the fees of internal/money/money.go, on numbers.
use ridematch.Prelude.{
  ℕ, zero, suc, ◌+◌, ◌-◌, ◌*◌, ◌/◌, ◌^◌, ◌≤◌, ◌<◌, ◌≡◌, ◌∙◌, sym, ap, false, arith,
}
use native.Mathlib.Nat.{
  mul-zero, mul-le-mul_right, mul-le-mul_left, mul-add, div-mul-le_self, lt-div-mul-add,
}
use ridematch.Prelude.Int.{pos, leb_ℤ, ◌+ℤ◌, ◌-ℤ◌, ◌*ℤ◌}
use ridematch.Prelude.Word.{add64, sub64, mul64, wrap64}
use ridematch.Money.{quot64, collection_fee, net_after_fee}

pub mul64-pos : (a b : ℕ) → a * b < 2 ^ 63 → mul64 (pos a) (pos b) ≡ pos (a * b)
unfolding mul64 ◌*ℤ◌ wrap64
mul64-pos a b h = rw (mul-zero a) (ground arith)

pub add64-pos : (a b : ℕ) → a + b < 2 ^ 63 → add64 (pos a) (pos b) ≡ pos (a + b)
unfolding add64 ◌+ℤ◌ wrap64
add64-pos a b h = ground arith

pub sub64-pos : (a b : ℕ) → b ≤ a → a < 2 ^ 63 → sub64 (pos a) (pos b) ≡ pos (a - b)
unfolding sub64 ◌-ℤ◌ wrap64
sub64-pos a b h k = ground arith

pub quot64-pos : (a b : ℕ) → a / b < 2 ^ 63 → quot64 (pos a) (pos b) ≡ pos (a / b)
unfolding quot64 wrap64
quot64-pos a b h = ground arith

pub collection_fee-pos :
    (x b : ℕ)
    → x * b + 9999 < 2 ^ 63
    → collection_fee (pos x) (pos b) ≡ pos ((x * b + 9999) / 10000)
unfolding collection_fee
collection_fee-pos zero b h = ground arith
collection_fee-pos (suc x) zero h = ground (arith, mul-zero (suc x))
collection_fee-pos (suc x) (suc b) h =
    let px : leb_ℤ (pos (suc x)) (pos 0) ≡ false = ground arith in
    let pb : leb_ℤ (pos (suc b)) (pos 0) ≡ false = ground arith in
    rw (px, pb, mul64-pos (suc x) (suc b) (omega arith), add64-pos (suc x * suc b) 9999 h)
      (quot64-pos (suc x * suc b + 9999) 10000 (omega arith))

-- Rounding up: the quotient is the least number of whole steps that reach m.
ceil_above : (m q : ℕ) → 0 < q → m ≤ (m + q - 1) / q * q
ceil_above m q h = omega (arith, lt-div-mul-add {a = m + q - 1} {b = q} h)

ceil_below : (m q : ℕ) → 0 < q → (m + q - 1) / q * q < m + q
ceil_below m q h = omega (arith, div-mul-le_self (m + q - 1) q)

pub net_after_fee-pos :
    (x b : ℕ)
    → b ≤ 10000
    → x * 10000 + 9999 < 2 ^ 63
    → net_after_fee (pos x) (pos b) ≡ pos (x - (x * b + 9999) / 10000)
unfolding net_after_fee
net_after_fee-pos x b h k =
    let p : x * b ≤ x * 10000 = mul-le-mul_left x h in
    rw (collection_fee-pos x b (omega arith))
      (sub64-pos x ((x * b + 9999) / 10000) (omega arith) (omega arith))

-- What is left of x is its share in whole kobo.
left_of : (x b q : ℕ) → b + q ≡ 10000 → x * b + x * q ≡ x * 10000
left_of x b q h = sym (mul-add x b q) ∙ ap (λ k. x * k) h

module _ (n b q : ℕ) (pos_n : 0 < n) (pos_q : 0 < q) (parts : b + q ≡ 10000) where
  abbrev pub least : ℕ
  least = (n * 10000 + q - 1) / q

  pub least-enough : n ≤ least - (least * b + 9999) / 10000
  least-enough = omega (arith, left_of least b q parts, ceil_above (n * 10000) q pos_q)

  pub below-short : (x : ℕ) → x < least → x - (x * b + 9999) / 10000 < n
  below-short x h =
      let step : suc x * q ≤ least * q = mul-le-mul_right q h in
      omega (arith, step, left_of x b q parts, ceil_below (n * 10000) q pos_q)

  pub least-bound : least ≤ n * 10000 + q
  least-bound =
      let step : least * 1 ≤ least * q = mul-le-mul_left least pos_q in
      omega (arith, step, ceil_below (n * 10000) q pos_q)
