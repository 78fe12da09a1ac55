-- ===== src/Otp.antt =====
-- One-time codes: internal/models/otp.go and internal/repository/otp_repository.go.
use ridematch.Prelude.{
  ℕ, Bool, true, false, not, Option, none, some, String, List, [], ◌∷◌, ◌&&◌, ◌==◌, ltb, leb,
  if◌then◌else◌,
}
use ridematch.Prelude.Table.{find_latest, update_where, save}
use ridematch.Ledger.Models.{RowId, Time}
pub mod Laws
mod Examples

pub data OtpPurpose : Type 0 where
  login payout_account set_pin next_of_kin nok_appeal : OtpPurpose

abbrev pub purpose_code : OtpPurpose → ℕ
purpose_code login = 0
purpose_code payout_account = 1
purpose_code set_pin = 2
purpose_code next_of_kin = 3
purpose_code nok_appeal = 4

pub data OtpChannel : Type 0 where
  phone email : OtpChannel

-- `OTPRequest`; an identifier is only compared, so it is a number.
pub record OtpRequest : Type 0 where
  pub id : RowId
  pub created_at : Time
  pub deleted_at : Option Time
  pub identifier : ℕ
  pub channel : OtpChannel
  pub code_hash : String
  pub purpose : OtpPurpose
  pub expires_at : Time
  pub attempts : ℕ
  pub max_attempts : ℕ
  pub consumed_at : Option Time

abbrev pub is_missing : Option Time → Bool
is_missing none = true
is_missing (some _) = false

-- `IsExpired`, `IsConsumed`, `AttemptsExceeded`
abbrev pub is_expired : Time → OtpRequest → Bool
is_expired now o = ltb o.expires_at now

abbrev pub is_consumed : OtpRequest → Bool
is_consumed o = not (is_missing o.consumed_at)

abbrev pub attempts_exceeded : OtpRequest → Bool
attempts_exceeded o = leb o.max_attempts o.attempts

-- A row that was deleted softly is in no query.
abbrev pub is_for : ℕ → OtpPurpose → OtpRequest → Bool
is_for identifier purpose o =
    is_missing o.deleted_at
    && ((o.identifier == identifier) && (purpose_code o.purpose == purpose_code purpose))

abbrev pub is_active : Time → ℕ → OtpPurpose → OtpRequest → Bool
is_active now identifier purpose o =
    is_for identifier purpose o && (is_missing o.consumed_at && ltb now o.expires_at)

-- `FindLatestActive`, `FindLatestAny`
unfoldable pub find_latest_active : Time → ℕ → OtpPurpose → List OtpRequest → Option OtpRequest
find_latest_active now identifier purpose =
    find_latest OtpRequest.created_at (is_active now identifier purpose)

unfoldable pub find_latest_any : ℕ → OtpPurpose → List OtpRequest → Option OtpRequest
find_latest_any identifier purpose = find_latest OtpRequest.created_at (is_for identifier purpose)

-- `Update`
unfoldable pub update_otp : OtpRequest → List OtpRequest → List OtpRequest
update_otp o = save OtpRequest.id o

-- `Delete`: a soft delete.
unfoldable pub delete_otp : Time → RowId → List OtpRequest → List OtpRequest
delete_otp now id =
    update_where (λ o. (o.id == id) && is_missing o.deleted_at)
      (λ o. record o { deleted_at = some now })

-- `DeleteExpired`: for good.
unfoldable pub delete_expired : Time → List OtpRequest → List OtpRequest
delete_expired older_than [] = []
delete_expired older_than (o ∷ os) =
    let rest = delete_expired older_than os in
    if ltb o.expires_at older_than then rest else o ∷ rest
