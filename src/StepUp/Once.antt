-- ===== src/StepUp/Once.antt =====
-- A code of internal/service/stepup_service.go works once, and a wrong one is tried a limited number of
-- times.
use ridematch.Prelude.{
  ℕ, ◌≡◌, ◌≢◌, ◌≤◌, refl, Bool, true, inl, inr, Option, none, some, String, List, [], ◌∷◌, arith,
  Bool-cases, All,
}
use ridematch.Prelude.Table.{find_latest-fits, All-find_latest, All-written, IsKeyed}
use ridematch.Ledger.Models.{RowId, Time}
use ridematch.Otp.{
  OtpPurpose, OtpRequest, is_active, is_consumed, attempts_exceeded, find_latest_active, update_otp,
}
use ridematch.StepUp.{
  CodeRefusal, StepUpConfig, given, denied, wrong_code, consumed, check_code, verify_identifier,
}
use ridematch.StepUp.Codes.{CodeCall, ask, try_code, clean, code_steps}
use ridematch.StepUp.Rows.{Makes, code_steps-All}

-- No row has counted more wrong codes than its limit allows.
abbrev pub IsBounded : List OtpRequest → Type 0
IsBounded = All (λ o. o.attempts ≤ o.max_attempts)

-- Whatever codes are asked for and tried, no row ever counts more wrong codes than its limit
-- allows, if none does at first.
pub code_steps-IsBounded :
    (matches : String → String → Bool) (c : StepUpConfig) (calls : List CodeCall)
    (os : List OtpRequest)
    → IsBounded os
    → IsBounded (code_steps matches c calls os)
code_steps-IsBounded matches c calls os a =
    code_steps-All (λ o. o.attempts ≤ o.max_attempts) (λ o now p. p) (λ o _ more p. ground arith)
      (λ o now p. p) matches c calls os (all_make c calls) a
  where
    all_make :
        (c : StepUpConfig) (calls : List CodeCall)
        → All (Makes (λ o. o.attempts ≤ o.max_attempts) c) calls
    all_make c [] = tt
    all_make c (ask d identifier channel purpose ∷ calls) = (omega arith, all_make c calls)
    all_make c (try_code now identifier purpose code ∷ calls) = (tt, all_make c calls)
    all_make c (clean older_than ∷ calls) = (tt, all_make c calls)

given_inj : {A : Type 0} {a b : A} → given a ≡ given b → a ≡ b
given_inj h = cc

denied-given : {A : Type 0} {a : A} {why : CodeRefusal} → denied why ≡ given a → ⊥
denied-given h = cc

-- The row with an id has been consumed, if it is there.
abbrev pub IsSpent : RowId → OtpRequest → Type 0
IsSpent k o = o.id ≡ k → is_consumed o ≡ true

-- The ids of new rows are fresh: none is that of a row that was there before.
abbrev pub IsFresh : RowId → CodeCall → Type 0
IsFresh k (ask d identifier channel purpose) = d.row_uuid ≢ k
IsFresh k _ = Unit

module _ (matches : String → String → Bool) (c : StepUpConfig) where
  code_steps-IsSpent :
      (k : RowId) (calls : List CodeCall) (os : List OtpRequest)
      → All (IsFresh k) calls
      → All (IsSpent k) os
      → All (IsSpent k) (code_steps matches c calls os)
  code_steps-IsSpent k calls os fresh a =
      code_steps-All (IsSpent k) (λ o now p. p)
        (λ o unused more p same. let spent = p same in ground arith) (λ o now p same. refl) matches
        c calls os (all_make calls fresh) a
    where
      all_make : (calls : List CodeCall) → All (IsFresh k) calls → All (Makes (IsSpent k) c) calls
      all_make [] f = tt
      all_make (ask d identifier channel purpose ∷ calls) f =
          ((λ same. absurd (f.0 same)), all_make calls f.1)
      all_make (try_code now identifier purpose code ∷ calls) f = (tt, all_make calls f.1)
      all_make (clean older_than ∷ calls) f = (tt, all_make calls f.1)

  check_code-given :
      (now : Time) (code : String) (found : Option OtpRequest) (os : List OtpRequest)
      (o : OtpRequest)
      → (check_code matches now code found os).0 ≡ given o
      → (found ≡ some o)
        × ((check_code matches now code found os).1 ≡ update_otp (consumed now o) os)
  check_code-given now code none os o h = cc
  check_code-given now code (some x) os o h = elim (Bool-cases (attempts_exceeded x)) [
    | inl over ↦ absurd (denied-given (rw over at h))
    | inr more ↦ elim (Bool-cases (matches x.code_hash code)) [
      | inl right ↦
          let same : x ≡ o = given_inj (rw (more, right) at h) in
          rw (more, right, same) (refl, refl)
      | inr wrong ↦ elim (Bool-cases (attempts_exceeded (wrong_code x))) [
        | inl last ↦ absurd (denied-given (rw (more, wrong, last) at h))
        | inr some_left ↦ absurd (denied-given (rw (more, wrong, some_left) at h))
      ]
    ]
  ]

  -- Once a code has been accepted, no later try is accepted by the row that it was in, whatever
  -- codes are asked for and tried in between, where the ids of the rows are unique and new ones
  -- are fresh.
  pub verify_identifier-once :
      (now later : Time) (identifier other : ℕ) (purpose for : OtpPurpose) (code again : String)
      (calls : List CodeCall) (os : List OtpRequest) (o o' : OtpRequest)
      → IsKeyed OtpRequest.id os
      → (verify_identifier matches now identifier purpose code os).0 ≡ given o
      → All (IsFresh o.id) calls
      → (verify_identifier matches later other for again (
          code_steps matches c calls
            (verify_identifier matches now identifier purpose code os).1)).0
        ≡ given o'
      → o'.id ≢ o.id
  unfolding verify_identifier find_latest_active update_otp
  verify_identifier-once now later identifier other purpose for code again calls os o o' keyed first
        fresh second =
      let (there, left) =
        check_code-given now code (find_latest_active now identifier purpose os) os o first in
      let spent : All (IsSpent o.id) (verify_identifier matches now identifier purpose code os).1 =
        rw left (
          All-written OtpRequest.id (λ r. is_consumed r ≡ true) o.id (λ _. consumed now o) os keyed
            (λ _. refl)) in
      let middle =
        code_steps matches c calls (verify_identifier matches now identifier purpose code os).1 in
      let after = code_steps-IsSpent o.id calls _ fresh spent in
      let (found, _) =
        check_code-given later again (find_latest_active later other for middle) middle o' second in
      let fits =
        find_latest-fits OtpRequest.created_at (is_active later other for) middle o' found in
      let o'_spent =
        All-find_latest OtpRequest.created_at (is_active later other for) (IsSpent o.id) middle o'
          found after in
      λ same. let consumed_already = o'_spent same in ground arith
