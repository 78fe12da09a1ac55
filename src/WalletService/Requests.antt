-- ===== src/WalletService/Requests.antt =====
-- The requests, webhooks and jobs of internal/service/wallet_service.go and
-- internal/service/wallet_admin_service.go that change the ledger, one after the other.
use ridematch.Prelude.{ℕ, suc, Bool, Option, String, List, [], ◌∷◌, All}
use ridematch.Prelude.Int.{ℤ}
use ridematch.Prelude.Word.{IsInt64}
use ridematch.Ledger.Models.{RowId, Time}
use ridematch.Ledger.Store.{Db}
use ridematch.Ledger.Balanced.{IsLedger}
use ridematch.WalletService.{WalletConfig, Directory, Reached}
use ridematch.WalletService.Topping.{VirtualAccount, start_topup}
use ridematch.WalletService.Crediting.{
  VerifyResult, get_topup, handle_charge_webhook, expire_topups,
}
use ridematch.WalletService.Withdrawing.{WithdrawRequest, withdraw}
use ridematch.WalletService.Dispatch.{Transfer, TransferRequest, Desk, dispatch}
use ridematch.WalletService.Polling.{handle_transfer_webhook, poll_withdrawals}
use ridematch.WalletService.Deciding.{Verdict, admin_decide_withdrawal}
use ridematch.WalletService.FundsKeeping.{
  IsTyped, start_topup-keeps, get_topup-keeps, charge_webhook-keeps, expire_topups-keeps,
}
use ridematch.WalletService.Granting.{withdraw-keeps}
use ridematch.WalletService.Sending.{dispatch-keeps}
use ridematch.WalletService.PollKeeping.{handle_transfer_webhook-keeps, poll_withdrawals-IsLedger}
use ridematch.WalletService.DecisionKeeping.{admin_decide_withdrawal-keeps}

-- A request with what Flutterwave answers while it is served.
pub data MoneyRequest : Type 0 where
  topup : RowId → RowId → ℤ → (ℤ → Reached VirtualAccount) → MoneyRequest
  look : (RowId → Reached VerifyResult) → RowId → RowId → MoneyRequest
  charged : (RowId → Reached VerifyResult) → RowId → RowId → MoneyRequest
  expire : MoneyRequest
  ask : RowId → RowId → String → WithdrawRequest → MoneyRequest
  send : (TransferRequest → Reached Transfer) → RowId → MoneyRequest
  transferred : (RowId → Reached Transfer) → RowId → Option RowId → MoneyRequest
  poll :
      Bool → (TransferRequest → Reached Transfer) → (RowId → Reached Transfer) → Time → MoneyRequest
  decide : RowId → RowId → Verdict → String → MoneyRequest

-- An amount of the API and one that Flutterwave reports are int64.
unfoldable pub IsBound : MoneyRequest → Type 0
IsBound (look verify user id) = (ref : RowId) → IsTyped (verify ref)
IsBound (charged verify ref flw) = (id : RowId) → IsTyped (verify id)
IsBound (ask user reference ip r) = IsInt64 r.amount_kobo
IsBound _ = Unit

module _ (matches : String → String → Bool) (c : WalletConfig) (dir : Directory) (fuel : ℕ)
    (ks : ℕ → ℕ → Desk) where
  -- The n-th request; `ks n m` is its desk for the m-th row that a job works through.
  unfoldable pub handle : ℕ → MoneyRequest → Db → Db
  handle n (topup ref user amount create) db =
      (start_topup c dir fuel ((ks n 0).draws 0) ref user amount create db).1
  handle n (look verify user id) db = (get_topup c ((ks n 0).draws 0) verify user id db).1
  handle n (charged verify ref flw) db =
      (handle_charge_webhook c ((ks n 0).draws 0) verify ref flw db).1
  handle n expire db = (expire_topups ((ks n 0).draws 0) db).1
  handle n (ask user reference ip r) db =
      (withdraw matches c dir (ks n 0).draws user reference ip r db).1
  handle n (send create id) db = (dispatch (ks n 0) create id db).1
  handle n (transferred get reference flw) db =
      (handle_transfer_webhook (ks n 0) get reference flw db).1
  handle n (poll enabled create get now) db =
      poll_withdrawals enabled (ks n) (λ m. ks n (suc m)) create get now db
  handle n (decide admin id verdict note) db =
      (admin_decide_withdrawal (ks n 0) admin id verdict note db).1

  unfoldable pub handle_all : ℕ → List MoneyRequest → Db → Db
  handle_all n [] db = db
  handle_all n (r ∷ rs) db = handle_all (suc n) rs (handle n r db)

  handle-IsLedger :
      (n : ℕ) (r : MoneyRequest) (db : Db) → IsBound r → IsLedger db → IsLedger (handle n r db)
  unfolding handle IsBound
  handle-IsLedger n (topup ref user amount create) db s b =
      start_topup-keeps c dir fuel ((ks n 0).draws 0) ref user amount create db b
  handle-IsLedger n (look verify user id) db s b =
      get_topup-keeps c ((ks n 0).draws 0) verify user id s db b
  handle-IsLedger n (charged verify ref flw) db s b =
      charge_webhook-keeps c ((ks n 0).draws 0) verify ref flw s db b
  handle-IsLedger n expire db s b = expire_topups-keeps c ((ks n 0).draws 0) db b
  handle-IsLedger n (ask user reference ip r) db s b =
      withdraw-keeps matches c (ks n 0).draws dir user reference ip r s db b
  handle-IsLedger n (send create id) db s b = dispatch-keeps (ks n 0) create id db b
  handle-IsLedger n (transferred get reference flw) db s b =
      handle_transfer_webhook-keeps (ks n 0) get reference flw db b
  handle-IsLedger n (poll enabled create get now) db s b =
      poll_withdrawals-IsLedger enabled (ks n) (λ m. ks n (suc m)) create get now db b
  handle-IsLedger n (decide admin id verdict note) db s b =
      admin_decide_withdrawal-keeps (ks n 0) admin note id verdict db b

  -- Any requests of the wallet service, webhooks, runs of its jobs and decisions of admins, one
  -- after the other and whatever Flutterwave answers, keep the ledger balanced, if the amounts
  -- given are int64.
  pub handle_all-IsLedger :
      (n : ℕ) (rs : List MoneyRequest) (db : Db)
      → All IsBound rs
      → IsLedger db
      → IsLedger (handle_all n rs db)
  unfolding handle_all
  handle_all-IsLedger n [] db s b = b
  handle_all-IsLedger n (r ∷ rs) db s b =
      handle_all-IsLedger (suc n) rs (handle n r db) s.1 (handle-IsLedger n r db s.0 b)
