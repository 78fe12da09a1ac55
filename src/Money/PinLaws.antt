-- ===== src/Money/PinLaws.antt =====
-- Which PINs `PINIssue` of internal/money/money.go lets through.
use ridematch.Prelude.{ℕ, ◌+◌, ◌-◌, ◌≡◌, ◌≤◌, List, [], ◌∷◌, arith}
use ridematch.Money.Pin.{too_easy, all_digits, all_same, rises, falls, is_easy, pin_issue}

-- The six digits from `a`, by equal steps.
abbrev pub repeated : ℕ → List ℕ
repeated a = a ∷ a ∷ a ∷ a ∷ a ∷ a ∷ []

abbrev pub rising : ℕ → List ℕ
rising a = a ∷ (a + 1) ∷ (a + 2) ∷ (a + 3) ∷ (a + 4) ∷ (a + 5) ∷ []

abbrev pub falling : ℕ → List ℕ
falling a = a ∷ (a - 1) ∷ (a - 2) ∷ (a - 3) ∷ (a - 4) ∷ (a - 5) ∷ []

-- For any digit a from 0 to 4, `PINIssue` finds the PINs of six times a, of six times a + 5, from
-- a up to a + 5, and from a + 5 down to a too easy to guess.
pub pin_issue-too_easy :
    (a : ℕ)
    → 48 ≤ a
    → a ≤ 52
    → (pin_issue (repeated a) ≡ too_easy)
      × (pin_issue (repeated (a + 5)) ≡ too_easy)
      × (pin_issue (rising a) ≡ too_easy)
      × (pin_issue (falling (a + 5)) ≡ too_easy)
unfolding pin_issue all_digits is_easy all_same rises falls
pin_issue-too_easy a low high = (ground arith, ground arith, ground arith, ground arith)
