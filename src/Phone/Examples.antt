-- ===== src/Phone/Examples.antt =====
-- Numbers for internal/utils/phone.go.
use ridematch.Prelude.{◌≡◌, refl, true, some, none}
use ridematch.Prelude.Text.{codes}
use ridematch.Phone.{
  is_e164, is_mobile, is_local, are_digits, normalize_phone, cleaned, rewritten, trim_start,
  trim_end, without, is_empty,
}
use ridematch.Phone.Laws.{normalize_phone-canonical}

normalize_phone-canonical_example :
    (is_e164 (codes "+2348012345678") ≡ true)
    × (normalize_phone (codes "+2348012345678") ≡ some (codes "+2348012345678"))
unfolding normalize_phone cleaned rewritten is_e164 is_local is_mobile are_digits trim_start
    trim_end without is_empty
normalize_phone-canonical_example =
    normalize_phone-canonical (codes " 0801-234 5678") (codes "+2348012345678") refl

too_short : normalize_phone (codes "0801 234 567") ≡ none
unfolding normalize_phone cleaned rewritten is_e164 is_local is_mobile are_digits trim_start
    trim_end without is_empty
too_short = refl
