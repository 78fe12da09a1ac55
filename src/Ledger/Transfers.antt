-- ===== src/Ledger/Transfers.antt =====
-- The postings between one wallet and one pool that the methods of
-- internal/repository/ledger_repository.go make.
use ridematch.Prelude.{◌≡◌, All}
use ridematch.Prelude.Int.{ℤ, pos, int_laws}
use ridematch.Prelude.Word.{IsAmount, neg64-exact, neg64-IsInt64, IsAmount-IsInt64}
use ridematch.Ledger.Models.{RowId, Account}
use ridematch.Ledger.Post.{from_wallet, to_wallet}
use ridematch.Ledger.Sums.{posted}
use ridematch.Ledger.PostAll.{IsPostable}

module _ (p : Account) (w : RowId) (a : ℤ) (amount : IsAmount a) where
  pub to_wallet-IsPostable : All IsPostable (to_wallet p w a)
  to_wallet-IsPostable = (neg64-IsInt64 a, (IsAmount-IsInt64 a amount, tt))

  pub from_wallet-IsPostable : All IsPostable (from_wallet p w a)
  from_wallet-IsPostable = (neg64-IsInt64 a, (IsAmount-IsInt64 a amount, tt))

  pub posted-to_wallet : posted (to_wallet p w a) ≡ pos 0
  posted-to_wallet = rw (neg64-exact a amount) (omega int_laws)

  pub posted-from_wallet : posted (from_wallet p w a) ≡ pos 0
  posted-from_wallet = rw (neg64-exact a amount) (omega int_laws)
