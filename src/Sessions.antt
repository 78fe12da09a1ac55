-- ===== src/Sessions.antt =====
-- Refresh tokens: internal/models/refresh_token.go, internal/repository/refresh_token_repository.go
-- and the sessions of internal/service/auth_service.go.
use ridematch.Prelude.{
  ℕ, suc, Bool, true, false, not, Option, none, some, String, List, [], ◌∷◌, ◌==◌, ◌&&◌, ltb,
  if◌then◌else◌,
}
use ridematch.Prelude.Table.{find_by, update_where}
use ridematch.Ledger.Models.{RowId, Time}
use ridematch.WalletService.{User, UserStatus}
pub mod Revoked
pub mod Rotation
mod Examples

-- A token is a number, and so is its hash.
pub record RefreshToken : Type 0 where
  pub id : RowId
  pub user_id : RowId
  pub token_hash : ℕ
  pub expires_at : Time
  pub revoked_at : Option Time

abbrev pub is_unset : Option Time → Bool
is_unset none = true
is_unset (some _) = false

-- `IsValid`
abbrev pub is_valid : Time → RefreshToken → Bool
is_valid now t = is_unset t.revoked_at && ltb now t.expires_at

-- `FindByHash`, `Revoke`, `RevokeAllForUser`, `DeleteExpired`
unfoldable pub find_by_hash : ℕ → List RefreshToken → Option RefreshToken
find_by_hash h = find_by RefreshToken.token_hash h

abbrev pub ended : Time → RefreshToken → RefreshToken
ended now t = record t { revoked_at = some now }

unfoldable pub revoke : Time → ℕ → List RefreshToken → List RefreshToken
revoke now h = update_where (λ t. t.token_hash == h) (ended now)

unfoldable pub revoke_all_for_user : Time → RowId → List RefreshToken → List RefreshToken
revoke_all_for_user now user =
    update_where (λ t. (t.user_id == user) && is_unset t.revoked_at) (ended now)

unfoldable pub delete_old_tokens : Time → List RefreshToken → List RefreshToken
delete_old_tokens older_than [] = []
delete_old_tokens older_than (t ∷ ts) =
    let rest = delete_old_tokens older_than ts in
    if ltb t.expires_at older_than then rest else t ∷ rest

pub data SessionRefusal : Type 0 where
  invalid_refresh_token account_suspended account_banned user_missing not_saved : SessionRefusal

pub data Session : Type 0 where
  opened : ℕ → Session
  closed : SessionRefusal → Session

-- The clock, and the refresh token that `GenerateRefreshToken` makes, with its end.
pub record Mint : Type 0 where
  pub now : Time
  pub row_uuid : RowId
  pub token : ℕ
  pub expires_at : Time

-- `assertAccountUsable`
abbrev pub account_refusal : UserStatus → Option SessionRefusal
account_refusal UserStatus.suspended = some account_suspended
account_refusal UserStatus.banned = some account_banned
account_refusal UserStatus.active = none

-- `utils.HashToken` is `hash`.
module _ (hash : ℕ → ℕ) where
  abbrev pub new_token : Mint → RowId → RefreshToken
  new_token d user = record {
    id = d.row_uuid;
    user_id = user;
    token_hash = hash d.token;
    expires_at = d.expires_at;
    revoked_at = none;
  }

  -- `issueTokens`, for the refresh token: its hash has a unique index.
  abbrev pub store_token :
      Mint → RowId → Option RefreshToken → List RefreshToken → Session × List RefreshToken
  store_token d user (some taken) ts = (closed not_saved, ts)
  store_token d user none ts = (opened d.token, new_token d user ∷ ts)

  unfoldable pub issue_tokens : Mint → RowId → List RefreshToken → Session × List RefreshToken
  issue_tokens d user ts = store_token d user (find_by_hash (hash d.token) ts) ts

  abbrev pub rotate :
      Mint → ℕ → RowId → Option SessionRefusal → List RefreshToken → Session × List RefreshToken
  rotate d raw user (some why) ts = (closed why, ts)
  rotate d raw user none ts = issue_tokens d user (revoke d.now (hash raw) ts)

  abbrev pub refresh_for : Mint → ℕ → Option User → List RefreshToken → Session × List RefreshToken
  refresh_for d raw none ts = (closed user_missing, ts)
  refresh_for d raw (some u) ts = rotate d raw u.id (account_refusal u.status) ts

  abbrev pub refresh_row :
      List User → Mint → ℕ → Option RefreshToken → List RefreshToken → Session × List RefreshToken
  refresh_row users d raw none ts = (closed invalid_refresh_token, ts)
  refresh_row users d raw (some t) ts =
      if is_valid d.now t
      then refresh_for d raw (find_by User.id t.user_id users) ts
      else (closed invalid_refresh_token, ts)

  -- `RefreshToken`
  unfoldable pub refresh_token :
      List User → Mint → ℕ → List RefreshToken → Session × List RefreshToken
  refresh_token users d raw ts = refresh_row users d raw (find_by_hash (hash raw) ts) ts

  -- `Logout`
  unfoldable pub logout : Time → ℕ → List RefreshToken → List RefreshToken
  logout now raw ts = revoke now (hash raw) ts

-- What is done with the tokens: a sign-in issues one; an account that is deleted loses all.
pub data TokenCall : Type 0 where
  sign_in : Mint → RowId → TokenCall
  rotate_token : List User → Mint → ℕ → TokenCall
  sign_out : Time → ℕ → TokenCall
  end_account : Time → RowId → TokenCall
  clean_tokens : Time → TokenCall

unfoldable pub token_step : (ℕ → ℕ) → TokenCall → List RefreshToken → List RefreshToken
token_step hash (sign_in d user) ts = (issue_tokens hash d user ts).1
token_step hash (rotate_token users d raw) ts = (refresh_token hash users d raw ts).1
token_step hash (sign_out now raw) ts = logout hash now raw ts
token_step hash (end_account now user) ts = revoke_all_for_user now user ts
token_step hash (clean_tokens older_than) ts = delete_old_tokens older_than ts

unfoldable pub token_steps : (ℕ → ℕ) → List TokenCall → List RefreshToken → List RefreshToken
token_steps hash [] ts = ts
token_steps hash (call ∷ calls) ts = token_steps hash calls (token_step hash call ts)
