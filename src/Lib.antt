-- ===== src/Lib.antt =====
-- RideMatch matches riders with drivers and moves the money between them. A rider tops up a wallet,
-- the fare of a trip is held in escrow when the trip is accepted, and it is released to the driver or
-- refunded; a driver withdraws to a bank account. Paths are from the repository's root.
--
-- Parts and files:
-- - Ledger, for internal/repository/ledger_repository.go and the rows of internal/models/wallet.go
--   and internal/models/payout.go. Every operation that moves money is one database transaction, and
--   becomes a function from the tables (Ledger/Store: `Db`) to a result and the tables after it.
--   Row locks serialise the transactions on a wallet, a hold or a withdrawal; so a transaction is one
--   step, and `transaction` undoes the writes of one that fails.
--   - Ledger/Models: the rows. Ledger/Post: `post`, which checks that its postings add up to zero in
--     int64, claims an idempotency key, and writes entries and balances one posting at a time.
--   - Ledger/Wallets, Ledger/Topups, Ledger/Escrow, Ledger/Withdrawals, Ledger/Payouts: the
--     operations, one function for each method (`HoldEscrow` is `hold_escrow`, and so on). The part
--     of a method after its row is loaded is a function of its own (`release_hold`, `pay_row`).
--   - Ledger/Integrity: `Integrity`. Ledger/Sums: the sums that it compares.
--   - Ledger/Operations: a call of each writing method as data (`Call`), and `step` and `run`.
--   - Ledger/Invariant, Ledger/Balanced, Ledger/Booking, Ledger/PostOne, Ledger/PostAll,
--     Ledger/Transfers, Ledger/WalletFirst, Ledger/SameFunds: the invariant of the tables and the
--     lemmas on the parts that the methods share. The files named Laws take one group of methods each.
--   - Ledger/Day and the Examples files: a day of calls, run.
-- - Money, for the fees and the PIN check of internal/money/money.go: Money/Fees for the arithmetic,
--   Money/GrossUp, Money/Pin.
-- - Trips, for internal/models/trip.go, internal/models/trip_offer.go and their repositories. A
--   conditional update is one step, and concurrent requests are a sequence of such steps.
--   Trips/Moves: the conditional updates that internal/service/trip_service.go makes of a trip.
--   Trips/Lifecycle: sequences of them. Trips/Offers, Trips/OfferLaws: the offers.
-- - EscrowService, for internal/service/escrow_service.go on top of Ledger and Trips. Its calls of the
--   ledger are transactions of their own. EscrowService/Laws, EscrowService/Fares,
--   EscrowService/Settling and EscrowService/Granted: lemmas.
-- - TripService, for internal/service/trip_service.go and internal/models/driver_profile.go, on top of
--   Trips and EscrowService. A request is a function from the tables (`World`) to a reply and the
--   tables after it; nothing is undone on an error. Between two of its database calls stands a
--   numbered pause, where the argument `others` does what the other requests do there: the theorems
--   either let it be any row of database steps (TripService/Steps: `Step`, `Reach`) or nothing.
--   - TripService/Offering, TripService/Matching, TripService/Riding: the requests.
--     TripService/Requests: those that write, as data, and `serve`.
--   - TripService/Stepwise, TripService/Runs, TripService/MatchRuns, TripService/RideRuns: each
--     request as steps. TripService/Chains, TripService/Refused: the parts of a request in a row.
--     TripService/Guards, TripService/Alone, TripService/Cancelled, TripService/Restored: what
--     single requests do. TripService/Examples: one ride, with races between requests.
-- - WalletService, for internal/service/wallet_service.go and internal/service/wallet_admin_service.go,
--   on top of Ledger, Money and Ledger/Due. What Flutterwave answers is an argument (`Reached`: a reply,
--   a refusal, or nothing that is known). An operation runs to its end before the next one.
--   - WalletService/Topping, WalletService/Crediting: top-ups. WalletService/Withdrawing: requests for
--     withdrawals. WalletService/Dispatch, WalletService/Polling, WalletService/Deciding: what becomes
--     of them. WalletService/Requests: all of these as data, and `handle`.
--   - WalletService/Chains: parts of an operation in a row. WalletService/FundsKeeping,
--     WalletService/Granting, WalletService/DispatchLaws, WalletService/PollKeeping,
--     WalletService/DecisionKeeping: the ledger under each. WalletService/Sending,
--     WalletService/Asking, WalletService/Granted, WalletService/Webhooks: what single ones do.
--     WalletService/Samples and WalletService/Examples: runs.
-- - StepUp, for internal/service/stepup_service.go, on top of Otp. StepUp/Codes: requests one after the
--   other. StepUp/Rows, StepUp/Once: what they do to the codes. StepUp/Examples: runs.
-- - Sessions, for the refresh tokens of internal/service/auth_service.go and
--   internal/repository/refresh_token_repository.go. Sessions/Revoked and Sessions/Rotation: lemmas.
--   Sessions/Examples: runs.
-- - Phone, for internal/utils/phone.go. Phone/Laws: lemmas. Phone/Examples: numbers.
-- - Ledger/Due: the scans for rows whose time has come, read by the services.
-- - Otp, for internal/models/otp.go and internal/repository/otp_repository.go.
-- - Prelude: integers over the native numbers, int64 with its wrap-around, tables as lists, and the
--   code points of a text.
--
-- Choices:
-- - An id is a number, since ids are only compared. Account numbers and bank codes are compared and
--   never read, so they are numbers too. A moment is a number of seconds; a duration too.
-- - The ids that the create hooks draw and the clock are arguments of a call (`Draw`). A collision of
--   ids is a duplicate key, as the primary keys make it: `post` takes one of a transaction for a
--   movement made already, and `ensureWalletTx` looks a wallet up again by user and id, in vain.
-- - A PIN is compared with its hash by a function that is an argument, for bcrypt, and the pickup PIN
--   that is made, or the failure to make one, is a part of `Env`.
-- - A refresh token and its hash are numbers, and the hash function is an argument. Making a code, its
--   hash or a token does not fail.
-- - An idempotency key is a constructor with its parts instead of the text that the code prints.
-- - The database's own errors, such as a lost connection, are not there, and neither is a sum beyond
--   int64 in `Integrity`'s queries, which its driver would refuse.
-- - The statuses and messages of Flutterwave are ASCII, so that folding the case of a text folds each
--   code point of it.
-- - The loops of `GrossUp` run on fuel; `none` is the end of the fuel, or the division by zero at
--   10,000 basis points.
--
-- Not modelled: the HTTP handlers, DTOs, router and middleware; the clients of Flutterwave, Termii,
-- SMTP, Expo and object storage; the listing queries; notifications and the audit log; sign-in
-- codes and accounts; tracking; ratings, share links, histories and the search for nearby trips of
-- the trip service, and its messages to web sockets; PINs and payout accounts as they are set,
-- banks and statements of the wallet service; subscription payments; the older copy of the program
-- in ridematch-backend.
pub mod Prelude
pub mod Ledger
pub mod Money
pub mod Trips
pub mod TripService
pub mod EscrowService
pub mod WalletService
pub mod Otp
pub mod StepUp
pub mod Sessions
pub mod Phone
