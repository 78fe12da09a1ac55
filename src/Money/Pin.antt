-- ===== src/Money/Pin.antt =====
-- `PINIssue` of internal/money/money.go. A PIN is the list of its bytes: a byte that is no digit is
-- part of a rune that is none.
use ridematch.Prelude.{
  ℕ, ◌+◌, ◌%◌, Bool, true, false, not, List, [], ◌∷◌, ◌&&◌, ◌||◌, ◌==◌, ltb, length, if◌then◌else◌,
}

pub data PinIssue : Type 0 where
  accepted wrong_length not_digits too_easy : PinIssue

abbrev pub is_digit : ℕ → Bool
is_digit c = not (ltb c 48 || ltb 57 c)

unfoldable pub all_digits : List ℕ → Bool
all_digits [] = true
all_digits (c ∷ cs) = let rest = all_digits cs in if is_digit c then rest else false

-- The three flags of the loop, which compares each byte with the first, and with the one before it
-- plus and minus one on bytes.
unfoldable pub all_same : ℕ → List ℕ → Bool
all_same first [] = true
all_same first (c ∷ cs) = (c == first) && all_same first cs

unfoldable pub rises : ℕ → List ℕ → Bool
rises prev [] = true
rises prev (c ∷ cs) = (c == (prev + 1) % 256) && rises c cs

unfoldable pub falls : ℕ → List ℕ → Bool
falls prev [] = true
falls prev (c ∷ cs) = (c == (prev + 255) % 256) && falls c cs

unfoldable pub is_easy : List ℕ → Bool
is_easy [] = false
is_easy (c ∷ cs) = all_same c cs || (rises c cs || falls c cs)

unfoldable pub pin_issue : List ℕ → PinIssue
pin_issue pin =
    if not (length pin == 6)
    then wrong_length
    else if not (all_digits pin)
    then not_digits
    else if is_easy pin
    then too_easy
    else accepted
