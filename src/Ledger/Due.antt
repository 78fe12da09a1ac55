-- ===== src/Ledger/Due.antt =====
-- The scans for rows whose time has come: `DueEscrows`, `WithdrawalsToDispatch` and
-- `WithdrawalsInFlightBefore` of internal/repository/ledger_repository.go.
use ridematch.Prelude.{
  ℕ, zero, suc, Bool, false, Option, none, some, List, [], ◌∷◌, ◌&&◌, leb, if◌then◌else◌,
}
use ridematch.Ledger.Models.{Time, EscrowHold, Withdrawal, WithdrawalStatus}
use ridematch.Ledger.Escrow.{is_held}
use ridematch.Ledger.Withdrawals.{same_status}

module _ {R : Type 0} where
  -- `Where(cond)`
  abbrev pub where_rows : (R → Bool) → List R → List R
  where_rows p [] = []
  where_rows p (r ∷ rs) = if p r then r ∷ where_rows p rs else where_rows p rs

  -- `Order(key)`, rising.
  abbrev pub insert : (R → ℕ) → R → List R → List R
  insert key r [] = r ∷ []
  insert key r (x ∷ xs) = if leb (key r) (key x) then r ∷ x ∷ xs else x ∷ insert key r xs

  abbrev pub order_by : (R → ℕ) → List R → List R
  order_by key [] = []
  order_by key (r ∷ rs) = insert key r (order_by key rs)

  -- `Limit(n)`
  abbrev pub limit : ℕ → List R → List R
  limit zero rs = []
  limit (suc n) [] = []
  limit (suc n) (r ∷ rs) = r ∷ limit n rs

abbrev pub is_reached : Time → Option Time → Bool
is_reached now none = false
is_reached now (some t) = leb t now

abbrev pub time_of : Option Time → Time
time_of none = 0
time_of (some t) = t

abbrev pub is_due : Time → EscrowHold → Bool
is_due now h = is_held h.status && is_reached now h.release_after

-- `DueEscrows`
unfoldable pub due_escrows : Time → ℕ → List EscrowHold → List EscrowHold
due_escrows now n hs =
    limit n (order_by (λ h. time_of h.release_after) (where_rows (is_due now) hs))

abbrev pub waits : WithdrawalStatus → Time → Withdrawal → Bool
waits s before w = same_status w.status s && leb w.updated_at before

-- `WithdrawalsToDispatch`, `WithdrawalsInFlightBefore`
unfoldable pub withdrawals_to_dispatch : Time → ℕ → List Withdrawal → List Withdrawal
withdrawals_to_dispatch older_than n ws =
    limit n
      (order_by Withdrawal.created_at (where_rows (waits WithdrawalStatus.queued older_than) ws))

unfoldable pub withdrawals_in_flight_before : Time → ℕ → List Withdrawal → List Withdrawal
withdrawals_in_flight_before before n ws =
    limit n
      (order_by Withdrawal.updated_at (where_rows (waits WithdrawalStatus.processing before) ws))
