-- ===== src/Phone.antt =====
-- Phone numbers as one form: internal/utils/phone.go. A text is the list of its code points.
use ridematch.Prelude.{
  ℕ, zero, suc, ◌≡◌, refl, Bool, true, false, not, inl, inr, Option, none, some, List, [], ◌∷◌,
  ◌++◌, ◌==◌, ◌&&◌, ◌||◌, leb, arith, Bool-cases, All, if◌then◌else◌, &&_true,
}
use ridematch.Prelude.Text.{has_prefix}
pub mod Laws
mod Examples

-- `unicode.IsSpace`
abbrev pub is_space : ℕ → Bool
is_space c =
    (leb 9 c && leb c 13)
    || ((c == 32)
        || ((c == 133)
            || ((c == 160)
                || ((c == 5760)
                    || ((leb 8192 c && leb c 8202)
                        || ((c == 8232)
                            || ((c == 8233) || ((c == 8239) || ((c == 8287) || (c == 12288))))))))))

-- `strings.TrimSpace`
unfoldable pub trim_start : List ℕ → List ℕ
trim_start [] = []
trim_start (c ∷ cs) = let rest = trim_start cs in if is_space c then rest else c ∷ cs

unfoldable pub is_empty : List ℕ → Bool
is_empty [] = true
is_empty (c ∷ cs) = false

unfoldable pub trim_end : List ℕ → List ℕ
unfolding is_empty
trim_end [] = []
trim_end (c ∷ cs) = let rest = trim_end cs in if is_space c && is_empty rest then [] else c ∷ rest

-- `strings.ReplaceAll` of one character by nothing.
unfoldable pub without : ℕ → List ℕ → List ℕ
without x [] = []
without x (c ∷ cs) = let rest = without x cs in if c == x then rest else c ∷ rest

unfoldable pub cleaned : List ℕ → List ℕ
unfolding trim_start trim_end without
cleaned raw = without 45 (without 32 (trim_end (trim_start raw)))

abbrev pub is_digit : ℕ → Bool
is_digit c = leb 48 c && leb c 57

unfoldable pub are_digits : ℕ → List ℕ → Bool
are_digits zero [] = true
are_digits zero (c ∷ cs) = false
are_digits (suc n) [] = false
are_digits (suc n) (c ∷ cs) = is_digit c && are_digits n cs

-- `[789][01]\d{8}`, and the two patterns that it is the end of.
unfoldable pub is_mobile : List ℕ → Bool
unfolding are_digits
is_mobile (a ∷ b ∷ cs) = (leb 55 a && leb a 57) && ((leb 48 b && leb b 49) && are_digits 8 cs)
is_mobile _ = false

unfoldable pub is_local : List ℕ → Bool
unfolding is_mobile
is_local (z ∷ cs) = (z == 48) && is_mobile cs
is_local [] = false

unfoldable pub is_e164 : List ℕ → Bool
unfolding is_mobile
is_e164 (p ∷ x ∷ y ∷ z ∷ cs) =
    (p == 43) && ((x == 50) && ((y == 51) && ((z == 52) && is_mobile cs)))
is_e164 _ = false

abbrev pub plus_234 : List ℕ
plus_234 = 43 ∷ 50 ∷ 51 ∷ 52 ∷ []

abbrev pub after_first : List ℕ → List ℕ
after_first [] = []
after_first (c ∷ cs) = cs

abbrev pub valid : List ℕ → Option (List ℕ)
valid cs = if is_e164 cs then some cs else none

-- The `switch` of `NormalizePhone` and what follows; none is `ErrInvalidPhone`.
unfoldable pub rewritten : List ℕ → Option (List ℕ)
rewritten cs =
    if has_prefix cs plus_234
    then valid cs
    else if has_prefix cs (50 ∷ 51 ∷ 52 ∷ [])
    then valid (43 ∷ cs)
    else if has_prefix cs (48 ∷ [])
    then (if is_local cs then valid (plus_234 ++ after_first cs) else none)
    else none

unfoldable pub normalize_phone : List ℕ → Option (List ℕ)
normalize_phone raw = rewritten (cleaned raw)
