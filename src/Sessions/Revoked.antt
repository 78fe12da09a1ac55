-- ===== src/Sessions/Revoked.antt =====
-- A revoked refresh token of internal/service/auth_service.go stays revoked.
use ridematch.Prelude.{
  ℕ, ◌≡◌, ◌≢◌, refl, false, inl, inr, Option, none, some, List, [], ◌∷◌, ◌==◌, ◌&&◌, ltb, arith,
  Bool-cases, Option-cases, All,
}
use ridematch.Prelude.Table.{find_by, All-update_where}
use ridematch.Ledger.Models.{RowId, Time}
use ridematch.WalletService.{User}
use ridematch.Sessions.{
  RefreshToken, ended, is_unset, is_valid, find_by_hash, revoke, revoke_all_for_user,
  delete_old_tokens, SessionRefusal, Mint, account_refusal, issue_tokens, rotate, refresh_for,
  refresh_row, refresh_token, logout, TokenCall, sign_in, rotate_token, sign_out, end_account,
  clean_tokens, token_step, token_steps,
}

-- The token with a hash is revoked, if it is there.
abbrev pub IsRevoked : ℕ → RefreshToken → Type 0
IsRevoked h t = t.token_hash ≡ h → is_unset t.revoked_at ≡ false

module _ (hash : ℕ → ℕ) (h : ℕ) where
  -- The tokens that are made are random: none has this hash.
  abbrev pub IsNew : TokenCall → Type 0
  IsNew (sign_in d user) = hash d.token ≢ h
  IsNew (rotate_token users d raw) = hash d.token ≢ h
  IsNew _ = Unit

  revoke-All :
      (now : Time) (g : ℕ) (ts : List RefreshToken)
      → All (IsRevoked h) ts
      → All (IsRevoked h) (revoke now g ts)
  unfolding revoke
  revoke-All now g ts a =
      All-update_where (λ t. t.token_hash == g) (ended now) (IsRevoked h) ts (λ t p same. refl) a

  revoke_all_for_user-All :
      (now : Time) (user : RowId) (ts : List RefreshToken)
      → All (IsRevoked h) ts
      → All (IsRevoked h) (revoke_all_for_user now user ts)
  unfolding revoke_all_for_user
  revoke_all_for_user-All now user ts a =
      All-update_where (λ t. (t.user_id == user) && is_unset t.revoked_at) (ended now) (IsRevoked h)
        ts (λ t p same. refl) a

  delete_old-All :
      (older_than : Time) (ts : List RefreshToken)
      → All (IsRevoked h) ts
      → All (IsRevoked h) (delete_old_tokens older_than ts)
  unfolding delete_old_tokens
  delete_old-All older_than [] a = tt
  delete_old-All older_than (t ∷ ts) a = elim (Bool-cases (ltb t.expires_at older_than)) [
    | inl old ↦ rw old (delete_old-All older_than ts a.1)
    | inr young ↦ rw young (a.0, delete_old-All older_than ts a.1)
  ]

  issue-All :
      (d : Mint) (user : RowId) (ts : List RefreshToken)
      → hash d.token ≢ h
      → All (IsRevoked h) ts
      → All (IsRevoked h) (issue_tokens hash d user ts).1
  unfolding issue_tokens
  issue-All d user ts new a = elim (Option-cases (find_by_hash (hash d.token) ts)) [
    | inl free ↦ rw free ((λ same. absurd (new same)), a)
    | inr (t, taken) ↦ rw taken a
  ]

  rotate-All :
      (d : Mint) (raw : ℕ) (user : RowId) (o : Option SessionRefusal) (ts : List RefreshToken)
      → hash d.token ≢ h
      → All (IsRevoked h) ts
      → All (IsRevoked h) (rotate hash d raw user o ts).1
  rotate-All d raw user (some why) ts new a = a
  rotate-All d raw user none ts new a =
      issue-All d user (revoke d.now (hash raw) ts) new (revoke-All d.now (hash raw) ts a)

  refresh_for-All :
      (d : Mint) (raw : ℕ) (o : Option User) (ts : List RefreshToken)
      → hash d.token ≢ h
      → All (IsRevoked h) ts
      → All (IsRevoked h) (refresh_for hash d raw o ts).1
  refresh_for-All d raw none ts new a = a
  refresh_for-All d raw (some u) ts new a =
      rotate-All d raw u.id (account_refusal u.status) ts new a

  refresh_row-All :
      (users : List User) (d : Mint) (raw : ℕ) (o : Option RefreshToken) (ts : List RefreshToken)
      → hash d.token ≢ h
      → All (IsRevoked h) ts
      → All (IsRevoked h) (refresh_row hash users d raw o ts).1
  refresh_row-All users d raw none ts new a = a
  refresh_row-All users d raw (some t) ts new a = elim (Bool-cases (is_valid d.now t)) [
    | inl valid ↦ rw valid (refresh_for-All d raw (find_by User.id t.user_id users) ts new a)
    | inr invalid ↦ rw invalid a
  ]

  pub token_steps-All :
      (calls : List TokenCall) (ts : List RefreshToken)
      → All IsNew calls
      → All (IsRevoked h) ts
      → All (IsRevoked h) (token_steps hash calls ts)
  unfolding token_steps token_step refresh_token logout
  token_steps-All [] ts new a = a
  token_steps-All (sign_in d user ∷ calls) ts new a =
      token_steps-All calls _ new.1 (issue-All d user ts new.0 a)
  token_steps-All (rotate_token users d raw ∷ calls) ts new a =
      token_steps-All calls _ new.1
        (refresh_row-All users d raw (find_by_hash (hash raw) ts) ts new.0 a)
  token_steps-All (sign_out now raw ∷ calls) ts new a =
      token_steps-All calls _ new.1 (revoke-All now (hash raw) ts a)
  token_steps-All (end_account now user ∷ calls) ts new a =
      token_steps-All calls _ new.1 (revoke_all_for_user-All now user ts a)
  token_steps-All (clean_tokens older_than ∷ calls) ts new a =
      token_steps-All calls _ new.1 (delete_old-All older_than ts a)

  -- Every row with the hash is revoked by `Revoke`.
  pub revoke-IsRevoked : (now : Time) (ts : List RefreshToken) → All (IsRevoked h) (revoke now h ts)
  unfolding revoke
  revoke-IsRevoked now [] = tt
  revoke-IsRevoked now (t ∷ ts) = elim (Bool-cases (t.token_hash == h)) [
    | inl this ↦ rw this ((λ same. refl), revoke-IsRevoked now ts)
    | inr another ↦ rw another ((λ same. ground arith), revoke-IsRevoked now ts)
  ]
