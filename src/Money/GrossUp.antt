-- ===== src/Money/GrossUp.antt =====
-- `CollectionFee` and `GrossUp` of internal/money/money.go on amounts in range.
use ridematch.Prelude.{
  ℕ, suc, ◌+◌, ◌-◌, ◌*◌, ◌/◌, ◌^◌, ◌≤◌, ◌<◌, ◌≡◌, refl, ◌∙◌, sym, ap, true, false, some, arith,
}
use ridematch.Prelude.Int.{pos, ltb_ℤ, leb_ℤ, eqb_ℤ}
use ridematch.Prelude.Word.{sub64}
use ridematch.Money.{collection_fee, net_after_fee, estimate, walk_down, walk_up, gross_up}
use ridematch.Money.Fees.{
  mul64-pos, add64-pos, sub64-pos, quot64-pos, collection_fee-pos, net_after_fee-pos, least,
  least-enough, below-short, least-bound,
}

-- Where the product of amount and basis points fits in int64 with the rounding, `CollectionFee`
-- is the exact share rounded up to the next kobo.
pub collection_fee-rounds :
    (x b : ℕ)
    → x * b + 9999 < 2 ^ 63
    → (f : ℕ) × (collection_fee (pos x) (pos b) ≡ pos f)
      × (x * b ≤ f * 10000)
      × (f * 10000 < x * b + 10000)
collection_fee-rounds x b h =
    ((x * b + 9999) / 10000, collection_fee-pos x b h, omega arith, omega arith)

module _ (n b q : ℕ) (pos_n : 0 < n) (pos_b : 0 < b) (pos_q : 0 < q) (parts : b + q ≡ 10000)
    (fits : n ≤ 90000000000) where
  abbrev g : ℕ
  g = least n b q pos_n pos_q parts

  estimate-pos : estimate (pos n) (pos b) ≡ pos g
  unfolding estimate
  estimate-pos =
      let bound = least-bound n b q pos_n pos_q parts in
      let kept : 10000 - b ≡ q = omega arith in
      let top : n * 10000 + q < 2 ^ 63 = omega arith in
      rw
        (
          sub64-pos 10000 b (omega arith) (omega arith),
          kept,
          mul64-pos n 10000 (omega arith),
          add64-pos (n * 10000) q top,
          sub64-pos (n * 10000 + q) 1 (omega arith) top,
        )
        (quot64-pos (n * 10000 + q - 1) q (omega arith))

  net-exact : (x : ℕ) → x ≤ g → net_after_fee (pos x) (pos b) ≡ pos (x - (x * b + 9999) / 10000)
  net-exact x h =
      let bound = least-bound n b q pos_n pos_q parts in
      net_after_fee-pos x b (omega arith) (omega arith)

  walk_down-stays : (fuel : ℕ) → walk_down (suc fuel) (pos n) (pos b) (pos g) ≡ some (pos g)
  unfolding walk_down
  walk_down-stays fuel =
      let enough = least-enough n b q pos_n pos_q parts in
      let bound = least-bound n b q pos_n pos_q parts in
      let one_less : sub64 (pos g) (pos 1) ≡ pos (g - 1) =
        sub64-pos g 1 (omega arith) (omega arith) in
      let short : leb_ℤ (pos n) (net_after_fee (pos (g - 1)) (pos b)) ≡ false =
        rw (net-exact (g - 1) (omega arith))
          (ground (arith, below-short n b q pos_n pos_q parts (g - 1))) in
      rw (one_less, short) (ground arith)

  walk_up-stays : (fuel : ℕ) → walk_up (suc fuel) (pos n) (pos b) (pos g) ≡ some (pos g)
  unfolding walk_up
  walk_up-stays fuel =
      let enough : ltb_ℤ (net_after_fee (pos g) (pos b)) (pos n) ≡ false =
        rw (net-exact g (omega arith)) (ground (arith, least-enough n b q pos_n pos_q parts)) in
      rw enough refl

  gross_up-g : (fuel : ℕ) → gross_up (suc fuel) (pos n) (pos b) ≡ some (pos g)
  unfolding gross_up
  gross_up-g fuel =
      let pn : leb_ℤ (pos n) (pos 0) ≡ false = ground arith in
      let pb : leb_ℤ (pos b) (pos 0) ≡ false = ground arith in
      let pq : eqb_ℤ (pos b) (pos 10000) ≡ false = ground arith in
      rw (pn, pb, pq, estimate-pos, walk_down-stays fuel) (walk_up-stays fuel)

  -- What the first estimate nets is enough, and every smaller amount nets too little.
  g-enough : leb_ℤ (pos n) (net_after_fee (pos g) (pos b)) ≡ true
  g-enough = rw (net-exact g (omega arith)) (ground (arith, least-enough n b q pos_n pos_q parts))

  g-least : (x : ℕ) → x < g → ltb_ℤ (net_after_fee (pos x) (pos b)) (pos n) ≡ true
  g-least x h =
      rw (net-exact x (omega arith)) (ground (arith, below-short n b q pos_n pos_q parts x h))

-- For a net amount from 1 to 90,000,000,000 kobo and a fee of 1 to 9,999 basis points, `GrossUp`
-- ends within one round of each loop, its result nets at least the amount, and every smaller
-- number of kobo nets less.
pub gross_up-least :
    (n b fuel : ℕ)
    → 0 < n
    → n ≤ 90000000000
    → 0 < b
    → b < 10000
    → (g : ℕ) × (gross_up (suc fuel) (pos n) (pos b) ≡ some (pos g))
      × (leb_ℤ (pos n) (net_after_fee (pos g) (pos b)) ≡ true)
      × ((x : ℕ) → x < g → ltb_ℤ (net_after_fee (pos x) (pos b)) (pos n) ≡ true)
gross_up-least n b fuel pos_n fits pos_b small =
    let pos_q : 0 < 10000 - b = omega arith in
    let parts : b + (10000 - b) ≡ 10000 = omega arith in
    (
      g n b (10000 - b) pos_n pos_b pos_q parts fits,
      gross_up-g n b (10000 - b) pos_n pos_b pos_q parts fits fuel,
      g-enough n b (10000 - b) pos_n pos_b pos_q parts fits,
      g-least n b (10000 - b) pos_n pos_b pos_q parts fits,
    )

-- In the same range the loops of `GrossUp` change nothing: the result is the first estimate.
pub gross_up-estimate :
    (n b fuel : ℕ)
    → 0 < n
    → n ≤ 90000000000
    → 0 < b
    → b < 10000
    → gross_up (suc fuel) (pos n) (pos b) ≡ some (estimate (pos n) (pos b))
gross_up-estimate n b fuel pos_n fits pos_b small =
    let pos_q : 0 < 10000 - b = omega arith in
    let parts : b + (10000 - b) ≡ 10000 = omega arith in
    gross_up-g n b (10000 - b) pos_n pos_b pos_q parts fits fuel
    ∙ ap some (sym (estimate-pos n b (10000 - b) pos_n pos_b pos_q parts fits))
