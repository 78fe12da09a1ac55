-- ===== src/Otp/Examples.antt =====
-- Codes of internal/repository/otp_repository.go at concrete rows.
use ridematch.Prelude.{ℕ, ◌≡◌, refl, true, false, none, some, List, [], ◌∷◌, arith}
use ridematch.Prelude.Table.{Until}
use ridematch.Ledger.Models.{Time}
use ridematch.Otp.{
  OtpRequest, login, set_pin, phone, purpose_code, is_expired, is_consumed, is_active,
  attempts_exceeded, find_latest_active, find_latest_any, delete_expired, delete_otp,
}
use ridematch.Otp.Laws.{find_latest_active-usable, find_latest_active-delete_expired}

abbrev code : ℕ → Time → OtpRequest
code id at = record {
  id = id;
  created_at = at;
  deleted_at = none;
  identifier = 77;
  channel = phone;
  code_hash = "";
  purpose = login;
  expires_at = at;
  attempts = 0;
  max_attempts = 5;
  consumed_at = none;
}

abbrev codes : List OtpRequest
codes = code 1 100 ∷ record (code 2 300) { consumed_at = some 290 } ∷ code 3 200 ∷ []

latest_any : find_latest_any 77 login codes ≡ some (record (code 2 300) { consumed_at = some 290 })
unfolding find_latest_any
latest_any = refl

other_purpose : find_latest_any 77 set_pin codes ≡ none
unfolding find_latest_any
other_purpose = refl

deleted_code : find_latest_active 150 77 login (delete_otp 150 3 codes) ≡ none
unfolding find_latest_active delete_otp
deleted_code = refl

spent : attempts_exceeded (record (code 1 100) { attempts = 5 }) ≡ true
spent = refl

find_latest_active-usable_example :
    ((code 3 200).identifier ≡ 77)
    × (purpose_code login ≡ purpose_code login)
    × (is_expired 150 (code 3 200) ≡ false)
    × (is_consumed (code 3 200) ≡ false)
    × Until OtpRequest.created_at (is_active 150 77 login) 200 codes
unfolding find_latest_active
find_latest_active-usable_example = find_latest_active-usable 150 77 login codes (code 3 200) refl

find_latest_active-delete_expired_example :
    find_latest_active 150 77 login (delete_expired 120 codes)
    ≡ find_latest_active 150 77 login codes
find_latest_active-delete_expired_example =
    find_latest_active-delete_expired 150 120 77 login codes (omega arith)
