-- ===== src/Phone/Laws.antt =====
-- What `NormalizePhone` of internal/utils/phone.go gives.
use ridematch.Prelude.{
  ℕ, zero, suc, ◌≡◌, refl, sym, Bool, true, false, inl, inr, none, some, List, [], ◌∷◌, ◌++◌, ◌==◌,
  ◌&&◌, ◌||◌, leb, arith, Bool-cases, All, &&_true,
}
use ridematch.Prelude.Text.{has_prefix}
use ridematch.Phone.{
  trim_start, is_empty, trim_end, without, cleaned, is_digit, are_digits, is_mobile, is_local,
  is_e164, plus_234, after_first, valid, rewritten, normalize_phone,
}

-- A plus or a digit.
abbrev is_plain : ℕ → Bool
is_plain c = (c == 43) || is_digit c

IsPlain : List ℕ → Type 0
IsPlain = All (λ c. is_plain c ≡ true)

trim_start-plain : (cs : List ℕ) → IsPlain cs → trim_start cs ≡ cs
unfolding trim_start IsPlain
trim_start-plain [] a = refl
trim_start-plain (c ∷ cs) a = let p = a.0 in ground arith

trim_end-plain : (cs : List ℕ) → IsPlain cs → trim_end cs ≡ cs
unfolding trim_end is_empty IsPlain
trim_end-plain [] a = refl
trim_end-plain (c ∷ cs) a = let p = a.0 in ground (arith, trim_end-plain cs a.1)

without-plain : (x : ℕ) (cs : List ℕ) → is_plain x ≡ false → IsPlain cs → without x cs ≡ cs
unfolding without IsPlain
without-plain x [] h a = refl
without-plain x (c ∷ cs) h a = let p = a.0 in ground (arith, without-plain x cs h a.1)

digits-IsPlain : (n : ℕ) (cs : List ℕ) → are_digits n cs ≡ true → IsPlain cs
unfolding are_digits IsPlain
digits-IsPlain zero [] h = tt
digits-IsPlain zero (c ∷ cs) h = cc
digits-IsPlain (suc n) [] h = cc
digits-IsPlain (suc n) (c ∷ cs) h =
    let (d, ds) = &&_true (is_digit c) (are_digits n cs) h in (ground arith, digits-IsPlain n cs ds)

mobile-IsPlain : (cs : List ℕ) → is_mobile cs ≡ true → IsPlain cs
unfolding is_mobile IsPlain
mobile-IsPlain [] h = cc
mobile-IsPlain (a ∷ []) h = cc
mobile-IsPlain (a ∷ b ∷ cs) h =
    let (first, rest) = &&_true (leb 55 a && leb a 57) _ h in
    let (second, digits) = &&_true (leb 48 b && leb b 49) (are_digits 8 cs) rest in
    (ground arith, (ground arith, digits-IsPlain 8 cs digits))

e164-IsPlain : (cs : List ℕ) → is_e164 cs ≡ true → IsPlain cs
unfolding is_e164 IsPlain
e164-IsPlain [] h = cc
e164-IsPlain (p ∷ []) h = cc
e164-IsPlain (p ∷ x ∷ []) h = cc
e164-IsPlain (p ∷ x ∷ y ∷ []) h = cc
e164-IsPlain (p ∷ x ∷ y ∷ z ∷ cs) h =
    let (plus, h1) = &&_true (p == 43) _ h in
    let (two, h2) = &&_true (x == 50) _ h1 in
    let (three, h3) = &&_true (y == 51) _ h2 in
    let (four, mobile) = &&_true (z == 52) (is_mobile cs) h3 in
    (ground arith, (ground arith, (ground arith, (ground arith, mobile-IsPlain cs mobile))))

cleaned-plain : (cs : List ℕ) → IsPlain cs → cleaned cs ≡ cs
unfolding cleaned
cleaned-plain cs a =
    rw
      (
        trim_start-plain cs a,
        trim_end-plain cs a,
        without-plain 32 cs refl a,
        without-plain 45 cs refl a,
      )
      refl

e164-prefix : (cs : List ℕ) → is_e164 cs ≡ true → has_prefix cs plus_234 ≡ true
unfolding is_e164
e164-prefix [] h = cc
e164-prefix (p ∷ []) h = cc
e164-prefix (p ∷ x ∷ []) h = cc
e164-prefix (p ∷ x ∷ y ∷ []) h = cc
e164-prefix (p ∷ x ∷ y ∷ z ∷ cs) h =
    let (plus, h1) = &&_true (p == 43) _ h in
    let (two, h2) = &&_true (x == 50) _ h1 in
    let (three, h3) = &&_true (y == 51) _ h2 in
    let (four, mobile) = &&_true (z == 52) (is_mobile cs) h3 in rw (plus, two, three, four) refl

valid-e164 : (cs out : List ℕ) → valid cs ≡ some out → is_e164 out ≡ true
valid-e164 cs out h = elim (Bool-cases (is_e164 cs)) [
  | inl fine ↦
      let same : some cs ≡ some out = rw fine at h in let e : cs ≡ out = cc in rw (sym e) fine
  | inr bad ↦ let none_is : none ≡ some out = rw bad at h in cc
]

rewritten-e164 : (cs out : List ℕ) → rewritten cs ≡ some out → is_e164 out ≡ true
unfolding rewritten
rewritten-e164 cs out h = elim (Bool-cases (has_prefix cs plus_234)) [
  | inl full ↦ valid-e164 cs out (rw full at h)
  | inr short ↦ elim (Bool-cases (has_prefix cs (50 ∷ 51 ∷ 52 ∷ []))) [
    | inl plus ↦ valid-e164 (43 ∷ cs) out (rw (short, plus) at h)
    | inr other ↦ elim (Bool-cases (has_prefix cs (48 ∷ []))) [
      | inr bad ↦ let none_is : none ≡ some out = rw (short, other, bad) at h in cc
      | inl local ↦ elim (Bool-cases (is_local cs)) [
        | inl fine ↦
            valid-e164 (plus_234 ++ after_first cs) out (rw (short, other, local, fine) at h)
        | inr bad ↦ let none_is : none ≡ some out = rw (short, other, local, bad) at h in cc
      ]
    ]
  ]
]

-- What `NormalizePhone` gives is a number in the international form, and it gives that number
-- again for itself.
pub normalize_phone-canonical :
    (raw out : List ℕ)
    → normalize_phone raw ≡ some out
    → (is_e164 out ≡ true) × (normalize_phone out ≡ some out)
unfolding normalize_phone rewritten
normalize_phone-canonical raw out h =
    let full = rewritten-e164 (cleaned raw) out h in
    (full, rw (cleaned-plain out (e164-IsPlain out full), e164-prefix out full, full) refl)

-- The three spellings of a number give one form.
pub normalize_phone-spellings :
    (cs : List ℕ)
    → is_mobile cs ≡ true
    → (normalize_phone (48 ∷ cs) ≡ some (plus_234 ++ cs))
      × (normalize_phone (50 ∷ 51 ∷ 52 ∷ cs) ≡ some (plus_234 ++ cs))
      × (normalize_phone (plus_234 ++ cs) ≡ some (plus_234 ++ cs))
unfolding normalize_phone rewritten is_e164 is_local IsPlain
normalize_phone-spellings cs h =
    let plain = mobile-IsPlain cs h in
    (
      rw (cleaned-plain (48 ∷ cs) (refl, plain), h) refl,
      rw (cleaned-plain (50 ∷ 51 ∷ 52 ∷ cs) (refl, (refl, (refl, plain))), h) refl,
      rw (cleaned-plain (plus_234 ++ cs) (refl, (refl, (refl, (refl, plain)))), h) refl,
    )
