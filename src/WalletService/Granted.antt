-- ===== src/WalletService/Granted.antt =====
-- What must have held for a withdrawal to be granted: `Withdraw` of
-- internal/service/wallet_service.go.
use ridematch.Prelude.{◌≡◌, refl, sym, Option, none, some}
use ridematch.Prelude.Table.{find_by}
use ridematch.Ledger.Models.{RowId}
use ridematch.Ledger.Store.{Db}
use ridematch.EscrowService.{Refusal, done}
use ridematch.WalletService.{
  Directory, User, UserStatus, active_user, status_refusal, unless_refused,
}
use ridematch.WalletService.Chains.{bind-done}
use ridematch.WalletService.Asking.{need-some}

status-active : (s : UserStatus) → status_refusal s ≡ none → s ≡ UserStatus.active
status-active UserStatus.active h = refl
status-active UserStatus.suspended h = cc
status-active UserStatus.banned h = cc

unless-passes :
    {A : Type 0} (o : Option Refusal) (a b : A) (db : Db)
    → (unless_refused o a db).0 ≡ done b
    → (o ≡ none) × (a ≡ b)
unless-passes none a b db h = (refl, cc)
unless-passes (some why) a b db h = cc

pub active_user-done :
    (dir : Directory) (user : RowId) (db : Db) (u : User)
    → (active_user dir user db).0 ≡ done u
    → (find_by User.id user dir.users ≡ some u) × (u.status ≡ UserStatus.active)
active_user-done dir user db u h =
    let (v, found, passes) = bind-done _ _ db u h in
    let (fine, same) = unless-passes _ v u _ passes in
    let row = need-some (find_by User.id user dir.users) _ db v found in
    rw (sym same) (row, status-active v.status fine)
