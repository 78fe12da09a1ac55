-- ===== src/StepUp/Examples.antt =====
-- Runs of internal/service/stepup_service.go.
use ridematch.Prelude.{◌≢◌, refl, Bool, true, none, String, List, [], ◌∷◌, arith}
use ridematch.Ledger.Models.{Time}
use ridematch.Otp.{
  OtpRequest, OtpPurpose, OtpChannel, find_latest_active, update_otp, find_latest_any,
  delete_expired,
}
use ridematch.StepUp.{StepUpConfig, CodeDraw, send, verify_identifier}
use ridematch.StepUp.Codes.{CodeCall, ask, try_code, clean, code_step, code_steps}
use ridematch.StepUp.Once.{code_steps-IsBounded, IsBounded, verify_identifier-once}
use text.Mathlib.Text.{◌==◌ as str_eq}

abbrev config : StepUpConfig
config = record { ttl = 600; cooldown = 60; max_attempts = 3 }

abbrev same_text : String → String → Bool
same_text h code = str_eq h code

abbrev at : Time → CodeDraw
at now = record { now = now; row_uuid = now; code_hash = "4829"; is_delivered = true }

-- Two codes are asked for a minute apart.
abbrev asked : List CodeCall
asked =
    ask (at 100) 801 OtpChannel.phone OtpPurpose.set_pin
    ∷ ask (at 200) 801 OtpChannel.phone OtpPurpose.set_pin
    ∷ []

abbrev codes : List OtpRequest
codes = code_steps same_text config asked []

abbrev newest : OtpRequest
newest = record {
  id = 200;
  created_at = 200;
  deleted_at = none;
  identifier = 801;
  channel = OtpChannel.phone;
  code_hash = "4829";
  purpose = OtpPurpose.set_pin;
  expires_at = 800;
  attempts = 0;
  max_attempts = 3;
  consumed_at = none;
}

abbrev older : OtpRequest
older = record newest { id = 100; created_at = 100; expires_at = 700 }

code_steps-IsBounded_example :
    IsBounded (code_steps same_text config (try_code 300 801 OtpPurpose.set_pin "0000" ∷ []) codes)
unfolding code_steps code_step send find_latest_any
code_steps-IsBounded_example =
    code_steps-IsBounded same_text config (try_code 300 801 OtpPurpose.set_pin "0000" ∷ []) codes
      (omega arith, (omega arith, tt))

-- The code before the newest one works once the newest one has been used.
verify_identifier-once_example : older.id ≢ newest.id
unfolding code_steps code_step send find_latest_any verify_identifier find_latest_active update_otp
    delete_expired
verify_identifier-once_example =
    verify_identifier-once same_text config 300 400 801 801 OtpPurpose.set_pin OtpPurpose.set_pin
      "4829" "4829" (clean 50 ∷ []) codes newest older (refl, (refl, tt)) refl (tt, tt) refl
