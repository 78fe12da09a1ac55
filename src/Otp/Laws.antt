-- ===== src/Otp/Laws.antt =====
-- What the look-ups of internal/repository/otp_repository.go find.
use ridematch.Prelude.{
  ℕ, ◌≡◌, ◌≤◌, refl, Bool, true, false, inl, inr, some, List, [], ◌∷◌, ◌&&◌, ltb, arith, Bool-cases,
}
use ridematch.Prelude.Table.{find_latest-fits, find_latest-newest, Until}
use ridematch.Ledger.Models.{Time}
use ridematch.Otp.{
  OtpPurpose, purpose_code, OtpRequest, is_missing, is_expired, is_consumed, is_for, is_active,
  find_latest_active, delete_expired,
}

-- A code that `FindLatestActive` finds was issued for the identifier and the purpose, is neither
-- expired nor consumed, and no active code of theirs is newer.
pub find_latest_active-usable :
    (now : Time) (identifier : ℕ) (purpose : OtpPurpose) (os : List OtpRequest) (o : OtpRequest)
    → find_latest_active now identifier purpose os ≡ some o
    → (o.identifier ≡ identifier)
      × (purpose_code o.purpose ≡ purpose_code purpose)
      × (is_expired now o ≡ false)
      × (is_consumed o ≡ false)
      × Until OtpRequest.created_at (is_active now identifier purpose) o.created_at os
unfolding find_latest_active
find_latest_active-usable now identifier purpose os o h =
    let fits = find_latest-fits OtpRequest.created_at (is_active now identifier purpose) os o h in
    (
      ground arith,
      ground arith,
      ground arith,
      ground arith,
      find_latest-newest OtpRequest.created_at (is_active now identifier purpose) os o h,
    )

old-inactive :
    (now older_than : Time) (identifier : ℕ) (purpose : OtpPurpose) (o : OtpRequest)
    → older_than ≤ now
    → ltb o.expires_at older_than ≡ true
    → is_active now identifier purpose o ≡ false
old-inactive now older_than identifier purpose o h old =
    let late : ltb now o.expires_at ≡ false = ground arith in
    rw late (and_false (is_for identifier purpose o) (is_missing o.consumed_at))
  where
    and_false : (a b : Bool) → (a && (b && false)) ≡ false
    and_false true true = refl
    and_false true false = refl
    and_false false b = refl

-- Removing the rows that have expired before a time that is not after now changes nothing of what
-- `FindLatestActive` finds now.
pub find_latest_active-delete_expired :
    (now older_than : Time) (identifier : ℕ) (purpose : OtpPurpose) (os : List OtpRequest)
    → older_than ≤ now
    → find_latest_active now identifier purpose (delete_expired older_than os)
      ≡ find_latest_active now identifier purpose os
unfolding find_latest_active delete_expired
find_latest_active-delete_expired now older_than identifier purpose [] h = refl
find_latest_active-delete_expired now older_than identifier purpose (o ∷ os) h =
    let same = find_latest_active-delete_expired now older_than identifier purpose os h in
    elim (Bool-cases (ltb o.expires_at older_than)) [
      | inl old ↦ rw (old, old-inactive now older_than identifier purpose o h old) same
      | inr kept ↦ rw (kept, same) refl
    ]
