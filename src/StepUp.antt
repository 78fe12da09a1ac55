-- ===== src/StepUp.antt =====
-- Security codes for sensitive actions: internal/service/stepup_service.go.
use ridematch.Prelude.{
  ℕ, suc, ◌+◌, Bool, true, false, not, Option, none, some, String, List, [], ◌∷◌, ◌==◌, ◌&&◌, ltb,
  leb, if◌then◌else◌,
}
use ridematch.Prelude.Table.{find_by}
use ridematch.Ledger.Models.{RowId, Time}
use ridematch.Otp.{
  OtpPurpose, OtpChannel, OtpRequest, is_missing, attempts_exceeded, find_latest_active,
  find_latest_any, update_otp, delete_otp, delete_expired,
}
pub mod Codes
pub mod Rows
pub mod Once
mod Examples

-- The errors, and an answer of the service with the codes that it leaves.
pub data CodeRefusal : Type 0 where
  otp_cooldown otp_not_found otp_too_many_attempts otp_incorrect : CodeRefusal
  user_not_found no_contact_on_file not_delivered : CodeRefusal

pub data CodeReply (A : Type 0) : Type 0 where
  given : A → CodeReply A
  denied : CodeRefusal → CodeReply A

abbrev pub CodeDesk : Type 0 → Type 0
CodeDesk A = List OtpRequest → CodeReply A × List OtpRequest

pub record StepUpConfig : Type 0 where
  pub ttl : Time
  pub cooldown : Time
  pub max_attempts : ℕ

-- `User`, as far as this service reads it: none is the empty text.
pub record Contact : Type 0 where
  pub id : RowId
  pub phone : Option ℕ
  pub email : Option ℕ
  pub phone_verified_at : Option Time
  pub email_verified_at : Option Time

-- `accountIdentifier`
abbrev verified : Option ℕ → Option Time → Option ℕ
verified contact none = none
verified contact (some at) = contact

abbrev with :
    {A : Type 0} → OtpChannel → Option A → Option (A × OtpChannel) → Option (A × OtpChannel)
with ch none rest = rest
with ch (some a) rest = some (a, ch)

unfoldable pub account_identifier : Contact → Option (ℕ × OtpChannel)
account_identifier u = with OtpChannel.phone (verified u.phone u.phone_verified_at) (
    with OtpChannel.email (verified u.email u.email_verified_at)
      (with OtpChannel.phone u.phone (with OtpChannel.email u.email none)))

-- What a request draws: the clock, the id of a new row, the hash of the new code, and whether the
-- message goes out.
pub record CodeDraw : Type 0 where
  pub now : Time
  pub row_uuid : RowId
  pub code_hash : String
  pub is_delivered : Bool

abbrev pub is_cooling : StepUpConfig → Time → Option OtpRequest → Bool
is_cooling c now none = false
is_cooling c now (some last) = ltb now (last.created_at + c.cooldown)

-- GORM takes a limit of zero for none, and puts in the default of the column.
abbrev pub new_code : StepUpConfig → CodeDraw → ℕ → OtpChannel → OtpPurpose → OtpRequest
new_code c d identifier channel purpose = record {
  id = d.row_uuid;
  created_at = d.now;
  deleted_at = none;
  identifier = identifier;
  channel = channel;
  code_hash = d.code_hash;
  purpose = purpose;
  expires_at = d.now + c.ttl;
  attempts = 0;
  max_attempts = if c.max_attempts == 0 then 5 else c.max_attempts;
  consumed_at = none;
}

-- `send`; the id of the new row is a fresh one.
unfoldable pub send : StepUpConfig → CodeDraw → ℕ → OtpChannel → OtpPurpose → CodeDesk (Unit {0})
send c d identifier channel purpose os =
    if is_cooling c d.now (find_latest_any identifier purpose os)
    then (denied otp_cooldown, os)
    else if d.is_delivered
    then (given tt, new_code c d identifier channel purpose ∷ os)
    else (
      denied not_delivered,
      delete_otp d.now d.row_uuid (new_code c d identifier channel purpose ∷ os),
    )

abbrev pub wrong_code : OtpRequest → OtpRequest
wrong_code o = record o { attempts = suc o.attempts }

abbrev pub consumed : Time → OtpRequest → OtpRequest
consumed now o = record o { consumed_at = some now }

-- `utils.CompareOTP` is `matches`.
module _ (matches : String → String → Bool) where
  -- `VerifyIdentifier`, which gives the row that it has consumed.
  abbrev pub check_code : Time → String → Option OtpRequest → CodeDesk OtpRequest
  check_code now code none os = (denied otp_not_found, os)
  check_code now code (some o) os =
      if attempts_exceeded o
      then (denied otp_too_many_attempts, os)
      else if matches o.code_hash code
      then (given o, update_otp (consumed now o) os)
      else if attempts_exceeded (wrong_code o)
      then (denied otp_too_many_attempts, update_otp (wrong_code o) os)
      else (denied otp_incorrect, update_otp (wrong_code o) os)

  unfoldable pub verify_identifier : Time → ℕ → OtpPurpose → String → CodeDesk OtpRequest
  verify_identifier now identifier purpose code os =
      check_code now code (find_latest_active now identifier purpose os) os

  -- `Verify`
  abbrev pub verify_contact :
      Time → OtpPurpose → String → Option (ℕ × OtpChannel) → CodeDesk OtpRequest
  verify_contact now purpose code none os = (denied no_contact_on_file, os)
  verify_contact now purpose code (some (identifier, channel)) os =
      verify_identifier now identifier purpose code os

  abbrev verify_user : Time → OtpPurpose → String → Option Contact → CodeDesk OtpRequest
  verify_user now purpose code none os = (denied user_not_found, os)
  verify_user now purpose code (some u) os =
      verify_contact now purpose code (account_identifier u) os

  unfoldable pub verify : List Contact → Time → RowId → OtpPurpose → String → CodeDesk OtpRequest
  verify users now user purpose code = verify_user now purpose code (find_by Contact.id user users)

-- `Request`
abbrev request_contact :
    StepUpConfig → CodeDraw → OtpPurpose → Option (ℕ × OtpChannel) → CodeDesk (Unit {0})
request_contact c d purpose none os = (denied no_contact_on_file, os)
request_contact c d purpose (some (identifier, channel)) os = send c d identifier channel purpose os

abbrev request_user : StepUpConfig → CodeDraw → OtpPurpose → Option Contact → CodeDesk (Unit {0})
request_user c d purpose none os = (denied user_not_found, os)
request_user c d purpose (some u) os = request_contact c d purpose (account_identifier u) os

unfoldable pub request :
    StepUpConfig → List Contact → CodeDraw → RowId → OtpPurpose → CodeDesk (Unit {0})
request c users d user purpose = request_user c d purpose (find_by Contact.id user users)
