-- ===== src/WalletService/Asking.antt =====
-- What a request for a withdrawal has gone through: internal/service/wallet_service.go.
use ridematch.Prelude.{
  ◌≡◌, refl, sym, Bool, true, false, not, Option, none, some, arith, &&_true, if◌then◌else◌,
}
use ridematch.Prelude.Int.{ℤ, pos, ltb_ℤ, leb_ℤ, ◌+ℤ◌, ◌-ℤ◌, int_laws, one_sign}
use ridematch.Prelude.Word.{IsInt64, IsAmount, sub64, sub64-exact}
use ridematch.Ledger.Store.{Db, Error, Result, ok, err, Tx}
use ridematch.Money.{transfer_fee}
use ridematch.EscrowService.{Refusal, Answer, done, refused}
use ridematch.WalletService.{WalletConfig, ledger, refuse_if, need}
use ridematch.WalletService.Topping.{is_whole_naira}
use ridematch.WalletService.Withdrawing.{Quote, quote_withdrawal, is_withdrawable}

-- The parts of a chain that is done.
pub need-some :
    {A : Type 0} (o : Option A) (why : Refusal) (db : Db) (a : A)
    → (need o why db).0 ≡ done a
    → o ≡ some a
need-some none why db a h = cc
need-some (some x) why db a h = cc

pub refuse_if-passes :
    (wrong : Bool) (why : Refusal) (db : Db) → (refuse_if wrong why db).0 ≡ done tt → wrong ≡ false
refuse_if-passes true why db h = cc
refuse_if-passes false why db h = refl

pub ledger-done :
    {A : Type 0} (why : Error → Refusal) (tx : Tx A) (db : Db) (a : A)
    → (ledger why tx db).0 ≡ done a
    → (tx db).0 ≡ ok a
unfolding ledger
ledger-done {A = A} why tx db a h = go (tx db) h
  where
    go :
        (x : Result A × Db)
        → (elim x.0 as (λ _. Answer A × Db) [
          | ok y ↦ (done y, x.1)
          | err e ↦ (refused (why e), x.1)
        ]).0
          ≡ done a
        → x.0 ≡ ok a
    go (ok y, left) k = cc
    go (err e, left) k = cc

fee-IsAmount : (a : ℤ) → IsAmount (transfer_fee a) × (ltb_ℤ (pos 0) (transfer_fee a) ≡ true)
unfolding transfer_fee
fee-IsAmount a = ground arith

rest-IsAmount :
    (a fee : ℤ)
    → IsInt64 a
    → IsAmount fee
    → leb_ℤ a fee ≡ false
    → IsAmount a
      × IsAmount (sub64 a fee)
      × (fee +ℤ sub64 a fee ≡ a)
      × (ltb_ℤ (pos 0) (sub64 a fee) ≡ true)
rest-IsAmount a fee typed f more =
    let amount : IsAmount a = ground (arith, one_sign a) in
    let exact = sub64-exact a fee amount f in
    rw exact (
      amount,
      (
        grind (int_laws, one_sign (a -ℤ fee), one_sign a),
        grind (int_laws, one_sign (a -ℤ fee), one_sign a),
      ),
      grind int_laws,
      grind (int_laws, one_sign (a -ℤ fee), one_sign a),
    )

if-some :
    {A : Type 0} (b : Bool) (x y : A) → (if b then some x else none) ≡ some y → (b ≡ true) × (x ≡ y)
if-some true x y h = (refl, cc)
if-some false x y h = cc

abbrev quote_of : ℤ → Quote
quote_of a = record {
  amount_kobo = a;
  fee_kobo = transfer_fee a;
  net_kobo = sub64 a (transfer_fee a);
}

-- A quote is for the amount asked for, split into a fee and what is left, which is not nothing; the
-- amount is not under the least one, and all three are sums of money.
pub quote_withdrawal-splits :
    (c : WalletConfig) (a : ℤ) (q : Quote)
    → IsInt64 a
    → quote_withdrawal c a ≡ some q
    → (q.amount_kobo ≡ a)
      × (q.fee_kobo +ℤ q.net_kobo ≡ a)
      × (ltb_ℤ (pos 0) q.net_kobo ≡ true)
      × (leb_ℤ c.payout_min_kobo a ≡ true)
      × IsAmount q.amount_kobo
      × IsAmount q.fee_kobo
      × IsAmount q.net_kobo
unfolding quote_withdrawal
quote_withdrawal-splits c a q typed h =
    let (fine, same) = if-some (is_withdrawable c a) (quote_of a) q h in
    let (enough, rest) = &&_true (not (ltb_ℤ a c.payout_min_kobo)) _ fine in
    let (whole, more) = &&_true (is_whole_naira a) _ rest in
    let (fee, some_fee) = fee-IsAmount a in
    let (amount, net, adds, some_left) =
      rest-IsAmount a (transfer_fee a) typed fee (ground arith) in
    rw (sym same) (refl, adds, some_left, ground arith, amount, fee, net)
