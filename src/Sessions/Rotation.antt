-- ===== src/Sessions/Rotation.antt =====
-- A refresh token of internal/service/auth_service.go that has been used or signed out is of no use.
use ridematch.Prelude.{
  ℕ, ◌≡◌, ◌≢◌, refl, inl, inr, Option, none, some, List, ◌∷◌, Bool-cases, Option-cases, All,
}
use ridematch.Prelude.Table.{find_by, find_by-key, All-find_by}
use ridematch.Ledger.Models.{RowId, Time}
use ridematch.WalletService.{User}
use ridematch.Sessions.{
  RefreshToken, is_valid, find_by_hash, revoke, Session, opened, closed, invalid_refresh_token,
  SessionRefusal, Mint, account_refusal, new_token, issue_tokens, rotate, refresh_for, refresh_row,
  refresh_token, logout, TokenCall, token_steps,
}
use ridematch.Sessions.Revoked.{IsRevoked, IsNew, token_steps-All, revoke-IsRevoked}

closed-opened : {why : SessionRefusal} {token : ℕ} → closed why ≡ opened token → ⊥
closed-opened h = cc

module _ (hash : ℕ → ℕ) where
  -- A revoked token is refused, and nothing changes.
  revoked-refused :
      (users : List User) (d : Mint) (raw : ℕ) (ts : List RefreshToken)
      → All (IsRevoked (hash raw)) ts
      → refresh_token hash users d raw ts ≡ (closed invalid_refresh_token, ts)
  unfolding refresh_token find_by_hash
  revoked-refused users d raw ts a =
      elim (Option-cases (find_by RefreshToken.token_hash (hash raw) ts)) [
        | inl missing ↦ rw missing refl
        | inr (t, row) ↦
            let revoked =
              All-find_by RefreshToken.token_hash (IsRevoked (hash raw)) (hash raw) ts t row a
                (find_by-key RefreshToken.token_hash (hash raw) ts t row) in
            rw (row, revoked) refl
      ]

  -- After `Logout` with a refresh token, whatever is done with the tokens, `RefreshToken` refuses
  -- it as invalid and changes nothing, where no new token has its hash.
  pub logout-ends :
      (raw : ℕ) (now : Time) (calls : List TokenCall) (users : List User) (d : Mint)
      (ts : List RefreshToken)
      → All (IsNew hash (hash raw)) calls
      → let left = token_steps hash calls (logout hash now raw ts) in
        refresh_token hash users d raw left ≡ (closed invalid_refresh_token, left)
  unfolding logout
  logout-ends raw now calls users d ts new =
      revoked-refused users d raw _
        (token_steps-All hash (hash raw) calls _ new (revoke-IsRevoked hash (hash raw) now ts))

  -- A session that is opened has a new row, and the old token is revoked.
  IsRotated : Mint → ℕ → List RefreshToken → Session × List RefreshToken → Type 0
  IsRotated d raw ts x = (u : RowId) × (x.1 ≡ new_token hash d u ∷ revoke d.now (hash raw) ts)

  rotate-opened :
      (d : Mint) (raw token : ℕ) (user : RowId) (o : Option SessionRefusal) (ts : List RefreshToken)
      → (rotate hash d raw user o ts).0 ≡ opened token
      → IsRotated d raw ts (rotate hash d raw user o ts)
  unfolding issue_tokens IsRotated
  rotate-opened d raw token user (some why) ts h = cc
  rotate-opened d raw token user none ts h =
      elim (Option-cases (find_by_hash (hash d.token) (revoke d.now (hash raw) ts))) [
        | inl free ↦ rw free (user, refl)
        | inr (t, taken) ↦ absurd (closed-opened (rw taken at h))
      ]

  refresh_for-opened :
      (d : Mint) (raw token : ℕ) (o : Option User) (ts : List RefreshToken)
      → (refresh_for hash d raw o ts).0 ≡ opened token
      → IsRotated d raw ts (refresh_for hash d raw o ts)
  refresh_for-opened d raw token none ts h = absurd (closed-opened h)
  refresh_for-opened d raw token (some u) ts h =
      rotate-opened d raw token u.id (account_refusal u.status) ts h

  refresh_row-opened :
      (users : List User) (d : Mint) (raw token : ℕ) (o : Option RefreshToken)
      (ts : List RefreshToken)
      → (refresh_row hash users d raw o ts).0 ≡ opened token
      → IsRotated d raw ts (refresh_row hash users d raw o ts)
  refresh_row-opened users d raw token none ts h = absurd (closed-opened h)
  refresh_row-opened users d raw token (some t) ts h = elim (Bool-cases (is_valid d.now t)) [
    | inl valid ↦
        rw valid
          (refresh_for-opened d raw token (find_by User.id t.user_id users) ts (rw valid at h))
    | inr invalid ↦ absurd (closed-opened (rw invalid at h))
  ]

  refresh_token-revokes :
      (users : List User) (d : Mint) (raw token : ℕ) (ts : List RefreshToken)
      → hash d.token ≢ hash raw
      → (refresh_token hash users d raw ts).0 ≡ opened token
      → All (IsRevoked (hash raw)) (refresh_token hash users d raw ts).1
  unfolding refresh_token IsRotated
  refresh_token-revokes users d raw token ts distinct h =
      let (u, left) = refresh_row-opened users d raw token (find_by_hash (hash raw) ts) ts h in
      rw left ((λ same. absurd (distinct same)), revoke-IsRevoked hash (hash raw) d.now ts)

  -- Where `RefreshToken` has opened a session with a refresh token, whatever is done with the
  -- tokens afterwards, it refuses that token as invalid and changes nothing, where no new token
  -- has its hash.
  pub refresh_token-once :
      (raw token : ℕ) (first : Mint) (calls : List TokenCall) (users later : List User) (d : Mint)
      (ts : List RefreshToken)
      → hash first.token ≢ hash raw
      → (refresh_token hash users first raw ts).0 ≡ opened token
      → All (IsNew hash (hash raw)) calls
      → let left = token_steps hash calls (refresh_token hash users first raw ts).1 in
        refresh_token hash later d raw left ≡ (closed invalid_refresh_token, left)
  refresh_token-once raw token first calls users later d ts distinct granted new =
      revoked-refused later d raw _ (
        token_steps-All hash (hash raw) calls _ new
          (refresh_token-revokes users first raw token ts distinct granted))
