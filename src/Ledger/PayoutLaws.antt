-- ===== src/Ledger/PayoutLaws.antt =====
-- `TransitionWithdrawal` of internal/repository/ledger_repository.go and the balance of the
-- ledger.
use mathlib.Core.Path.{subst, sym}
use ridematch.Prelude.{
  ◌≡◌, refl, ◌∙◌, true, false, inl, inr, List, [], ◌∷◌, arith, Bool-cases, Option-cases, All,
}
use ridematch.Prelude.Int.{pos}
use ridematch.Prelude.Table.{find_by, update_by-missing}
use ridematch.Ledger.Models.{RowId, Withdrawal, WithdrawalStatus, is_terminal}
use ridematch.Ledger.Store.{Db, Draw}
use ridematch.Ledger.Withdrawals.{same_status, status_in}
use ridematch.Ledger.Payouts.{Column, write_columns, write_column, move_row, transition_withdrawal}
use ridematch.Ledger.Sums.{in_flight_amount}
use ridematch.Ledger.Balanced.{IsLedger, IsPayout, update_withdrawal-Balanced}

abbrev pub IsLive : WithdrawalStatus → Type 0
IsLive s = is_terminal s ≡ false

same_status-IsLive : (s t : WithdrawalStatus) → same_status s t ≡ true → IsLive t → IsLive s
same_status-IsLive s t e live = ground arith

status_in-IsLive :
    (s : WithdrawalStatus) (ts : List WithdrawalStatus)
    → All IsLive ts
    → status_in s ts ≡ true
    → IsLive s
status_in-IsLive s [] live e = cc
status_in-IsLive s (t ∷ ts) live e = elim (Bool-cases (same_status s t)) [
  | inl same ↦ same_status-IsLive s t same live.0
  | inr other ↦ status_in-IsLive s ts live.1 (rw other at e)
]

-- The columns that a transition writes are not those that the books read.
record SameMoney (v w : Withdrawal) : Type 0 where
  same_id : v.id ≡ w.id
  same_amount : v.amount_kobo ≡ w.amount_kobo
  same_fee : v.fee_kobo ≡ w.fee_kobo
  same_net : v.net_kobo ≡ w.net_kobo

write_column-SameMoney :
    (c : Column) (v w : Withdrawal) → SameMoney v w → SameMoney (write_column c v) w
write_column-SameMoney c v w h = ground arith

write_columns-kept :
    (cs : List Column) (v w : Withdrawal) → SameMoney v w → SameMoney (write_columns cs v) w
write_columns-kept [] v w h = h
write_columns-kept (c ∷ cs) v w h =
    write_columns-kept cs (write_column c v) w (write_column-SameMoney c v w h)

write_columns-SameMoney : (cs : List Column) (w : Withdrawal) → SameMoney (write_columns cs w) w
write_columns-SameMoney cs w =
    write_columns-kept cs w w
      (record { same_id = refl; same_amount = refl; same_fee = refl; same_net = refl })

module _ (d : Draw) (from : List WithdrawalStatus) (to : WithdrawalStatus) (cs : List Column) where
  move_row-id : (r : Withdrawal) → (move_row d from to cs r).id ≡ r.id
  move_row-id r = ground (arith, (write_columns-SameMoney cs r).same_id)

  move_row-IsPayout : (r : Withdrawal) → IsPayout r → IsPayout (move_row d from to cs r)
  move_row-IsPayout r h = elim (Bool-cases (status_in r.status from)) [
    | inr stays ↦ rw stays h
    | inl moves ↦
        let m = write_columns-SameMoney cs r in
        rw moves (simp m.same_amount h.0, simp m.same_fee h.1, simp m.same_net h.2)
  ]

  in_flight-move_row :
      All IsLive from
      → IsLive to
      → (r : Withdrawal) → in_flight_amount (move_row d from to cs r) ≡ in_flight_amount r
  in_flight-move_row live to_live r = elim (Bool-cases (status_in r.status from)) [
    | inr stays ↦ rw stays
    | inl moves ↦
        rw (moves, to_live, status_in-IsLive r.status from live moves)
          (write_columns-SameMoney cs r).same_amount
  ]

  -- A transition between states that are not final keeps the ledger balanced.
  pub transition_withdrawal-IsLedger :
      (id : RowId) (db : Db)
      → IsLedger db
      → All IsLive from
      → IsLive to
      → IsLedger (transition_withdrawal d id from to cs db).1
  unfolding transition_withdrawal
  transition_withdrawal-IsLedger id db b live to_live =
      elim (Option-cases (find_by Withdrawal.id id db.withdrawals)) [
        | inl missing ↦
            subst (λ ws. IsLedger (record db { withdrawals = ws }))
              (sym
                (update_by-missing Withdrawal.id id (move_row d from to cs) db.withdrawals missing))
              b
        | inr (r, row) ↦
            update_withdrawal-Balanced r id (move_row d from to cs) (pos 0) (pos 0) (pos 0) db b row
              (λ v e. move_row-id v ∙ e) (λ v h _. move_row-IsPayout v h)
              (rw (in_flight-move_row live to_live r))
      ]
