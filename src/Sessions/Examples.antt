-- ===== src/Sessions/Examples.antt =====
-- Runs of the sessions of internal/service/auth_service.go.
use ridematch.Prelude.{ℕ, ◌+◌, suc, ◌≡◌, refl, none, List, [], ◌∷◌, arith}
use ridematch.Ledger.Models.{Time}
use ridematch.WalletService.{User, UserStatus}
use ridematch.Sessions.{
  RefreshToken, Mint, closed, opened, logout, invalid_refresh_token, refresh_token, issue_tokens,
  rotate, find_by_hash, revoke, TokenCall, sign_in, rotate_token, token_steps, token_step,
}
use ridematch.Sessions.Rotation.{refresh_token-once, logout-ends}

abbrev ada : User
ada = record { id = 5; name = "Ada"; status = UserStatus.active }

abbrev mint : Time → ℕ → Mint
mint now token = record { now = now; row_uuid = token; token = token; expires_at = now + 1000 }

-- A sign-in with the token 7.
abbrev signed_in : List RefreshToken
signed_in = token_steps suc (sign_in (mint 10 7) 5 ∷ []) []

-- The new token is rotated in its turn, and another device signs in.
abbrev next_calls : List TokenCall
next_calls = rotate_token (ada ∷ []) (mint 40 9) 8 ∷ sign_in (mint 50 10) 5 ∷ []

refresh_token-once_example :
    let left =
      token_steps suc next_calls (refresh_token suc (ada ∷ []) (mint 30 8) 7 signed_in).1 in
    refresh_token suc (ada ∷ []) (mint 60 11) 7 left ≡ (closed invalid_refresh_token, left)
unfolding refresh_token token_steps token_step issue_tokens find_by_hash revoke
refresh_token-once_example =
    refresh_token-once suc 7 8 (mint 30 8) next_calls (ada ∷ []) (ada ∷ []) (mint 60 11) signed_in
      (omega arith) refl (omega arith, (omega arith, tt))

-- Another device signs in after the logout.
abbrev later_calls : List TokenCall
later_calls = sign_in (mint 50 10) 5 ∷ []

logout-ends_example :
    let left = token_steps suc later_calls (logout suc 30 7 signed_in) in
    refresh_token suc (ada ∷ []) (mint 60 11) 7 left ≡ (closed invalid_refresh_token, left)
unfolding logout token_steps token_step issue_tokens find_by_hash revoke
logout-ends_example =
    logout-ends suc 7 30 later_calls (ada ∷ []) (mint 60 11) signed_in (omega arith, tt)

-- Two requests that have both read the token 7 as valid before either revokes it: both get a new one.
replayed :
    ((rotate suc (mint 30 8) 7 5 none signed_in).0 ≡ opened 8)
    × ((rotate suc (mint 30 9) 7 5 none (rotate suc (mint 30 8) 7 5 none signed_in).1).0 ≡ opened 9)
unfolding token_steps token_step issue_tokens find_by_hash revoke
replayed = (refl, refl)
