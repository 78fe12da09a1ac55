-- ===== src/Ledger/PinLock.antt =====
-- Wrong PINs in a row: `RecordPINFailure` of internal/repository/ledger_repository.go.
use ridematch.Prelude.{ℕ, zero, suc}
use ridematch.Ledger.Models.{RowId, Time}
use ridematch.Ledger.Store.{Db, Draw}
use ridematch.Ledger.Wallets.{record_pin_failure}

module _ (ds : ℕ → Draw) (id max : RowId) (lock_for : Time) where
  -- The tables after n failures, the first of them with the draw 0.
  abbrev pub after_failures : ℕ → Db → Db
  after_failures zero db = db
  after_failures (suc n) db = (record_pin_failure (ds n) id max lock_for (after_failures n db)).1
