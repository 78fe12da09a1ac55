-- ===== src/StepUp/Rows.antt =====
-- What the requests to internal/service/stepup_service.go do to each row.
use ridematch.Prelude.{
  ℕ, ◌≡◌, Bool, true, false, inl, inr, some, String, List, [], ◌∷◌, ltb, arith, Bool-cases,
  Option-cases, All,
}
use ridematch.Prelude.Table.{find_latest-fits, All-find_latest, All-update_by, All-update_where}
use ridematch.Ledger.Models.{RowId, Time}
use ridematch.Otp.{
  OtpPurpose, OtpChannel, OtpRequest, is_missing, is_active, attempts_exceeded, find_latest_active,
  find_latest_any, update_otp, delete_otp, delete_expired,
}
use ridematch.StepUp.{
  StepUpConfig, CodeDraw, is_cooling, new_code, send, wrong_code, consumed, check_code,
  verify_identifier,
}
use ridematch.StepUp.Codes.{CodeCall, ask, try_code, clean, code_step, code_steps}

-- What a call makes is as P says.
abbrev pub Makes : (OtpRequest → Type 0) → StepUpConfig → CodeCall → Type 0
Makes P c (ask d identifier channel purpose) = P (new_code c d identifier channel purpose)
Makes P c _ = Unit

-- What the calls do to the rows, one at a time: a row is changed only by being deleted, by counting
-- a wrong code, or by being consumed.
module _ (P : OtpRequest → Type 0)
    (on_delete : (o : OtpRequest) (now : Time) → P o → P (record o { deleted_at = some now }))
    (on_wrong : (o : OtpRequest)
      → is_missing o.consumed_at ≡ true
      → attempts_exceeded o ≡ false
      → P o
      → P (wrong_code o))
    (on_consumed : (o : OtpRequest) (now : Time) → P o → P (consumed now o)) where
  delete_otp-All :
      (now : Time) (id : RowId) (os : List OtpRequest) → All P os → All P (delete_otp now id os)
  unfolding delete_otp
  delete_otp-All now id os a = All-update_where _ _ P os (λ o p. on_delete o now p) a

  delete_expired-All :
      (older_than : Time) (os : List OtpRequest) → All P os → All P (delete_expired older_than os)
  unfolding delete_expired
  delete_expired-All older_than [] a = tt
  delete_expired-All older_than (o ∷ os) a = elim (Bool-cases (ltb o.expires_at older_than)) [
    | inl old ↦ rw old (delete_expired-All older_than os a.1)
    | inr young ↦ rw young (a.0, delete_expired-All older_than os a.1)
  ]

  -- The row that is written has the key of one that is there.
  save-All :
      (new : OtpRequest) (os : List OtpRequest) → P new → All P os → All P (update_otp new os)
  unfolding update_otp
  save-All new os p a = All-update_by OtpRequest.id P new.id (λ _. new) os (λ _ _ _. p) a

  check_code-All :
      (matches : String → String → Bool) (now : Time) (code : String) (identifier : ℕ)
      (purpose : OtpPurpose) (os : List OtpRequest)
      → All P os
      → All P (verify_identifier matches now identifier purpose code os).1
  unfolding verify_identifier find_latest_active
  check_code-All matches now code identifier purpose os a =
      elim (Option-cases (find_latest_active now identifier purpose os)) [
        | inl missing ↦ rw missing a
        | inr (o, row) ↦ rw row (found o row)
      ]
    where
      found :
          (o : OtpRequest)
          → find_latest_active now identifier purpose os ≡ some o
          → All P (check_code matches now code (some o) os).1
      found o row =
          let fits =
            find_latest-fits OtpRequest.created_at (is_active now identifier purpose) os o row in
          let p =
            All-find_latest OtpRequest.created_at (is_active now identifier purpose) P os o row a in
          elim (Bool-cases (attempts_exceeded o)) [
            | inl over ↦ rw over a
            | inr more ↦ rw more (elim (Bool-cases (matches o.code_hash code)) [
              | inl right ↦ rw right (save-All (consumed now o) os (on_consumed o now p) a)
              | inr wrong ↦ rw wrong (
                  let counted = save-All (wrong_code o) os (on_wrong o (ground arith) more p) a in
                  elim (Bool-cases (attempts_exceeded (wrong_code o))) [
                    | inl last ↦ rw last counted
                    | inr some_left ↦ rw some_left counted
                  ])
            ])
          ]

  send-All :
      (c : StepUpConfig) (d : CodeDraw) (identifier : ℕ) (channel : OtpChannel)
      (purpose : OtpPurpose) (os : List OtpRequest)
      → P (new_code c d identifier channel purpose)
      → All P os
      → All P (send c d identifier channel purpose os).1
  unfolding send
  send-All c d identifier channel purpose os p a =
      elim (Bool-cases (is_cooling c d.now (find_latest_any identifier purpose os))) [
        | inl cooling ↦ rw cooling a
        | inr warm ↦ rw warm (elim (Bool-cases d.is_delivered) [
          | inl sent ↦ rw sent (p, a)
          | inr lost ↦ rw lost (
              delete_otp-All d.now d.row_uuid (new_code c d identifier channel purpose ∷ os) (p, a))
        ])
      ]

  pub code_steps-All :
      (matches : String → String → Bool) (c : StepUpConfig) (calls : List CodeCall)
      (os : List OtpRequest)
      → All (Makes P c) calls
      → All P os
      → All P (code_steps matches c calls os)
  unfolding code_steps code_step
  code_steps-All matches c [] os m a = a
  code_steps-All matches c (ask d identifier channel purpose ∷ calls) os m a =
      code_steps-All matches c calls _ m.1 (send-All c d identifier channel purpose os m.0 a)
  code_steps-All matches c (try_code now identifier purpose code ∷ calls) os m a =
      code_steps-All matches c calls _ m.1 (check_code-All matches now code identifier purpose os a)
  code_steps-All matches c (clean older_than ∷ calls) os m a =
      code_steps-All matches c calls _ m.1 (delete_expired-All older_than os a)
