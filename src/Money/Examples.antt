-- ===== src/Money/Examples.antt =====
-- Fees of internal/money/money.go at the rates and amounts of internal/money/money_test.go.
use ridematch.Prelude.{ℕ, ◌+◌, ◌*◌, ◌≤◌, ◌<◌, ◌≡◌, refl, true, none, some, [], ◌∷◌, arith}
use ridematch.Prelude.Int.{pos, negsuc, ◌+ℤ◌, ◌-ℤ◌, ◌*ℤ◌, ltb_ℤ, leb_ℤ}
use ridematch.Prelude.Word.{add64, sub64, mul64, wrap64}
use ridematch.Money.{
  quot64, collection_fee, net_after_fee, estimate, walk_down, walk_up, gross_up, transfer_fee,
}
use ridematch.Money.Pin.{accepted, pin_issue, all_digits, is_easy, all_same, rises, falls}
use ridematch.Money.GrossUp.{collection_fee-rounds, gross_up-least, gross_up-estimate}

known_gross_up : gross_up 1 (pos 200000) (pos 215) ≡ some (pos 204395)
unfolding gross_up walk_down walk_up estimate net_after_fee collection_fee quot64 mul64 add64 sub64
    wrap64 ◌+ℤ◌ ◌-ℤ◌ ◌*ℤ◌
known_gross_up = refl

no_gross_up : gross_up 5 (pos 100) (pos 10000) ≡ none
unfolding gross_up
no_gross_up = refl

negative_fee : collection_fee (negsuc 5) (pos 215) ≡ pos 0
unfolding collection_fee
negative_fee = refl

transfer_tiers :
    (transfer_fee (pos 500000) ≡ pos 1000)
    × (transfer_fee (pos 500001) ≡ pos 2500)
    × (transfer_fee (pos 5000000) ≡ pos 2500)
    × (transfer_fee (pos 5000001) ≡ pos 5000)
unfolding transfer_fee
transfer_tiers = (refl, refl, refl, refl)

collection_fee-rounds_example :
    (f : ℕ) × (collection_fee (pos 200000) (pos 215) ≡ pos f)
    × (200000 * 215 ≤ f * 10000)
    × (f * 10000 < 200000 * 215 + 10000)
collection_fee-rounds_example = collection_fee-rounds 200000 215 (omega arith)

gross_up-least_example :
    (g : ℕ) × (gross_up 3 (pos 200000) (pos 215) ≡ some (pos g))
    × (leb_ℤ (pos 200000) (net_after_fee (pos g) (pos 215)) ≡ true)
    × ((x : ℕ) → x < g → ltb_ℤ (net_after_fee (pos x) (pos 215)) (pos 200000) ≡ true)
gross_up-least_example =
    gross_up-least 200000 215 2 (omega arith) (omega arith) (omega arith) (omega arith)

gross_up-estimate_example :
    gross_up 1 (pos 200000) (pos 215) ≡ some (estimate (pos 200000) (pos 215))
gross_up-estimate_example =
    gross_up-estimate 200000 215 0 (omega arith) (omega arith) (omega arith) (omega arith)

strong_pin : pin_issue (52 ∷ 56 ∷ 50 ∷ 57 ∷ 49 ∷ 54 ∷ []) ≡ accepted
unfolding pin_issue all_digits is_easy all_same rises falls
strong_pin = refl
