-- ===== src/WalletService/Sending.antt =====
-- `Dispatch` of internal/service/wallet_service.go: which withdrawals it sends, and how often.
use ridematch.Prelude.{
  ◌≡◌, refl, ap, ◌∙◌, true, false, inl, inr, none, some, List, [], ◌∷◌, arith, Bool-cases,
  Option-cases,
}
use ridematch.Prelude.Table.{
  find_by, find_by-update_by, update_by, update_by-missing, update_by-same,
}
use ridematch.Ledger.Models.{RowId, Withdrawal, WithdrawalStatus}
use ridematch.Ledger.Store.{Db, ok, Draw}
use ridematch.Ledger.Balanced.{IsLedger}
use ridematch.Ledger.Withdrawals.{status_in, find_withdrawal_by_id, set_withdrawals}
use ridematch.Ledger.Payouts.{Column, transition_withdrawal, move_row, moved_to, allows}
use ridematch.EscrowService.{answer, done}
use ridematch.EscrowService.Laws.{KeepsLedger}
use ridematch.WalletService.{◌>>=◌, ◌>>◌, Reached, unknown}
use ridematch.WalletService.Dispatch.{
  Transfer, TransferRequest, Desk, after_transfer, request_of, dispatch,
}
use ridematch.WalletService.Chains.{then-keeps, ledger-step}
use ridematch.WalletService.DispatchLaws.{after_transfer-keeps, move-keeps}

abbrev claim_columns : Draw → List Column
claim_columns d = Column.sent_at d.now ∷ []

abbrev queued_only : List WithdrawalStatus
queued_only = WithdrawalStatus.queued ∷ []

-- The row that a dispatch has claimed, and the tables with it.
abbrev pub claimed : Draw → Withdrawal → Withdrawal
claimed d = moved_to d WithdrawalStatus.processing (claim_columns d)

abbrev pub claimed_db : Draw → RowId → Db → Db
claimed_db d id = set_withdrawals (
    update_by Withdrawal.id id
      (move_row d queued_only WithdrawalStatus.processing (claim_columns d)))

move_row-id :
    (d : Draw) (r : Withdrawal)
    → (move_row d queued_only WithdrawalStatus.processing (claim_columns d) r).id ≡ r.id
move_row-id d r = ground arith

claim-runs :
    (d : Draw) (id : RowId) (db : Db)
    → transition_withdrawal d id queued_only WithdrawalStatus.processing (claim_columns d) db
      ≡ (ok (allows queued_only (find_by Withdrawal.id id db.withdrawals)), claimed_db d id db)
unfolding transition_withdrawal
claim-runs d id db = refl

claimed_row :
    (d : Draw) (id : RowId) (r : Withdrawal) (db : Db)
    → find_by Withdrawal.id id db.withdrawals ≡ some r
    → status_in r.status queued_only ≡ true
    → find_by Withdrawal.id id (claimed_db d id db).withdrawals ≡ some (claimed d r)
claimed_row d id r db row queued = ground (
  arith,
  find_by-update_by Withdrawal.id id id
      (move_row d queued_only WithdrawalStatus.processing (claim_columns d)) db.withdrawals
      (λ v e. move_row-id d v ∙ e),
)

find-runs :
    (id : RowId) (r : Withdrawal) (db : Db)
    → find_by Withdrawal.id id db.withdrawals ≡ some r
    → find_withdrawal_by_id id db ≡ (ok r, db)
unfolding find_withdrawal_by_id
find-runs id r db row = rw row refl

untouched :
    (d : Draw) (id : RowId) (db : Db)
    → allows queued_only (find_by Withdrawal.id id db.withdrawals) ≡ false
    → update_by Withdrawal.id id
        (move_row d queued_only WithdrawalStatus.processing (claim_columns d))
        db.withdrawals
      ≡ db.withdrawals
untouched d id db idle = elim (Option-cases (find_by Withdrawal.id id db.withdrawals)) [
  | inl missing ↦ update_by-missing Withdrawal.id id _ db.withdrawals missing
  | inr (r, row) ↦ update_by-same Withdrawal.id id _ db.withdrawals r row (ground arith)
]

claim-keeps : (d : Draw) (id : RowId) (db : Db) → IsLedger db → IsLedger (claimed_db d id db)
unfolding transition_withdrawal
claim-keeps d id db b =
    move-keeps d id queued_only WithdrawalStatus.processing (claim_columns d) (refl, tt) refl db b

module _ (k : Desk) (create : TransferRequest → Reached Transfer) (id : RowId) where
  -- A queued withdrawal is claimed, sent, and dealt with by the answer.
  pub dispatch-queued :
      (r : Withdrawal) (db : Db)
      → find_by Withdrawal.id id db.withdrawals ≡ some r
      → status_in r.status queued_only ≡ true
      → let wd = claimed (k.draws 3) r in
        dispatch k create id db
        ≡ (after_transfer k wd (create (request_of wd)) >> answer (some (request_of wd)))
            (claimed_db (k.draws 3) id db)
  unfolding dispatch
  dispatch-queued r db row queued =
      let wd = claimed (k.draws 3) r in
      ledger-step _ _ _ true db (claimed_db (k.draws 3) id db)
        (claim-runs (k.draws 3) id db ∙ rw (row, queued) refl)
      ∙ ledger-step _ _ _ wd _ (claimed_db (k.draws 3) id db) (
          find-runs id wd (claimed_db (k.draws 3) id db)
            (claimed_row (k.draws 3) id r db row queued))

  -- Any other one is left alone, and nothing is sent.
  pub dispatch-idle :
      (db : Db)
      → allows queued_only (find_by Withdrawal.id id db.withdrawals) ≡ false
      → dispatch k create id db ≡ (done none, db)
  unfolding dispatch
  dispatch-idle db idle =
      ledger-step _ _ _ false db (claimed_db (k.draws 3) id db)
        (claim-runs (k.draws 3) id db ∙ rw idle refl)
      ∙ ap (λ ws. (done none, record db { withdrawals = ws })) (untouched (k.draws 3) id db idle)

  pub dispatch-keeps : KeepsLedger (dispatch k create id)
  dispatch-keeps db b = elim (Option-cases (find_by Withdrawal.id id db.withdrawals)) [
    | inl missing ↦ rw (dispatch-idle db (rw missing refl)) b
    | inr (r, row) ↦ elim (Bool-cases (status_in r.status queued_only)) [
      | inr idle ↦ rw (dispatch-idle db (rw (row, idle) refl)) b
      | inl queued ↦
          let wd = claimed (k.draws 3) r in
          rw (dispatch-queued r db row queued) (
            then-keeps (after_transfer k wd (create (request_of wd)))
              (answer (some (request_of wd)))
              (after_transfer-keeps k wd (create (request_of wd)) refl) (λ db b. b)
              (claimed_db (k.draws 3) id db) (claim-keeps (k.draws 3) id db b))
    ]
  ]

-- Where a withdrawal is queued and the answer to its transfer is unknown, `Dispatch` has asked
-- for that one transfer and leaves the withdrawal processing, with every wallet and every entry
-- as it was; and whatever Flutterwave answers later, a further `Dispatch` asks for nothing and
-- changes nothing.
pub dispatch-unknown :
    (k again : Desk) (create later : TransferRequest → Reached Transfer) (id : RowId)
    (r : Withdrawal) (db : Db)
    → find_by Withdrawal.id id db.withdrawals ≡ some r
    → r.status ≡ WithdrawalStatus.queued
    → create (request_of r) ≡ unknown
    → let left = (dispatch k create id db).1 in
      ((dispatch k create id db).0 ≡ done (some (request_of r)))
      × (find_by Withdrawal.id id left.withdrawals ≡ some (claimed (k.draws 3) r))
      × (left.wallets ≡ db.wallets)
      × (left.entries ≡ db.entries)
      × (dispatch again later id left ≡ (done none, left))
unfolding after_transfer ◌>>=◌
dispatch-unknown k again create later id r db row queued lost =
    let is_queued : status_in r.status queued_only ≡ true = rw queued refl in
    let there = claimed_row (k.draws 3) id r db row is_queued in
    let runs : dispatch k create id db
        ≡ (done (some (request_of r)), claimed_db (k.draws 3) id db) =
      dispatch-queued k create id r db row is_queued ∙ rw lost refl in
    rw runs (
      refl,
      there,
      refl,
      refl,
      dispatch-idle again later id (claimed_db (k.draws 3) id db) (rw there refl),
    )
