-- ===== src/StepUp/Codes.antt =====
-- Sequences of requests to internal/service/stepup_service.go.
use ridematch.Prelude.{ℕ, Bool, String, List, [], ◌∷◌}
use ridematch.Ledger.Models.{Time}
use ridematch.Otp.{OtpPurpose, OtpChannel, OtpRequest, delete_expired}
use ridematch.StepUp.{StepUpConfig, CodeDraw, send, verify_identifier}

-- A code is asked for, a code is tried, and the clean-up of the rows that have expired.
pub data CodeCall : Type 0 where
  ask : CodeDraw → ℕ → OtpChannel → OtpPurpose → CodeCall
  try_code : Time → ℕ → OtpPurpose → String → CodeCall
  clean : Time → CodeCall

unfoldable pub code_step :
    (String → String → Bool) → StepUpConfig → CodeCall → List OtpRequest → List OtpRequest
code_step matches c (ask d identifier channel purpose) os =
    (send c d identifier channel purpose os).1
code_step matches c (try_code now identifier purpose code) os =
    (verify_identifier matches now identifier purpose code os).1
code_step matches c (clean older_than) os = delete_expired older_than os

unfoldable pub code_steps :
    (String → String → Bool) → StepUpConfig → List CodeCall → List OtpRequest → List OtpRequest
code_steps matches c [] os = os
code_steps matches c (call ∷ calls) os = code_steps matches c calls (code_step matches c call os)
