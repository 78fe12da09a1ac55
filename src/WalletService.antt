-- ===== src/WalletService.antt =====
-- What the wallet service reads: its settings, the users, drivers and payout accounts, and what
-- Flutterwave answers. internal/service/wallet_service.go, internal/models/user.go and
-- internal/models/payout.go.
use ridematch.Prelude.{
  ℕ, Bool, true, false, not, Option, none, some, String, List, [], ◌∷◌, ◌==◌, ◌&&◌, if◌then◌else◌,
}
use ridematch.Prelude.Int.{ℤ}
use ridematch.Prelude.Table.{find_by, find_where}
use ridematch.Ledger.Models.{RowId, Time}
use ridematch.Ledger.Store.{Db, Error, Result, ok, err, Tx, Draw}
use ridematch.EscrowService.{
  Refusal, Answer, done, refused, Service, answer, refuse, call, after, only_drivers,
  user_not_found, account_suspended, account_banned,
}
use ridematch.TripService.{DriverProfile}
use text.Mathlib.Text.{◌==◌ as str_eq}
pub mod Topping
pub mod Crediting
pub mod Dispatch
pub mod Polling
pub mod Deciding
pub mod Withdrawing
pub mod Chains
pub mod DispatchLaws
pub mod Asking
pub mod Granting
pub mod Granted
pub mod Requests
pub mod Webhooks
mod Samples
mod Examples
pub mod Sending
pub mod PollKeeping
pub mod DecisionKeeping
pub mod FundsKeeping

-- `WalletConfig`
pub record WalletConfig : Type 0 where
  pub topup_fee_bps : ℤ
  pub topup_min_kobo : ℤ
  pub topup_max_kobo : ℤ
  pub topup_ttl : Time
  pub payouts_enabled : Bool
  pub payout_min_kobo : ℤ
  pub payout_daily_limit : ℤ
  pub payout_cooldown : Time
  pub payout_cooldown_cap : ℤ
  pub payout_review_kobo : ℤ
  pub pin_max_attempts : ℕ
  pub pin_lock_duration : Time

pub data UserStatus : Type 0 where
  active suspended banned : UserStatus

-- `User`, as far as the money services read it.
pub record User : Type 0 where
  pub id : RowId
  pub name : String
  pub status : UserStatus

pub data PayoutAccountStatus : Type 0 where
  active pending_review rejected removed : PayoutAccountStatus

pub record PayoutAccount : Type 0 where
  pub id : RowId
  pub created_at : Time
  pub user_id : RowId
  pub bank_code : ℕ
  pub account_number : ℕ
  pub bank_name : String
  pub account_name : String
  pub status : PayoutAccountStatus
  pub name_match_note : String
  pub reviewed_by : Option RowId
  pub reviewed_at : Option Time

-- The tables that the service only reads, and the setting "payouts_enabled", none where there is no
-- row and an error where the read fails.
pub record Directory : Type 0 where
  pub users : List User
  pub drivers : List DriverProfile
  pub accounts : List PayoutAccount
  pub payouts_switch : Result (Option String)

-- The parts of an operation in a row, each a call of the ledger in a transaction of its own.
infixl 5 ◌>>=◌ ◌>>◌
unfoldable pub ◌>>=◌ : {A B : Type 0} → Service A → (A → Service B) → Service B
s >>= rest = after s rest

abbrev pub ◌>>◌ : {A B : Type 0} → Service A → Service B → Service B
s >> rest = s >>= λ _. rest

-- A call whose error ends the operation, and one whose error is looked at.
unfoldable pub ledger : {A : Type 0} → (Error → Refusal) → Tx A → Service A
ledger why tx = call tx answer (λ e. refuse (why e))

unfoldable pub attempt : {A : Type 0} → Tx A → Service (Result A)
attempt tx = call tx (λ a. answer (ok a)) (λ e. answer (err e))

abbrev pub refuse_if : Bool → Refusal → Service (Unit {0})
refuse_if wrong why db = (if wrong then refused why else done tt, db)

abbrev pub need : {A : Type 0} → Option A → Refusal → Service A
need none why = refuse why
need (some a) why = answer a

-- `payoutsEnabled`
abbrev is_on : Result (Option String) → Bool
is_on (err e) = false
is_on (ok none) = true
is_on (ok (some v)) = not (str_eq v "false")

abbrev pub are_payouts_enabled : WalletConfig → Directory → Bool
are_payouts_enabled c dir = c.payouts_enabled && is_on dir.payouts_switch

-- `driverProfile`
abbrev pub driver_profile : Directory → RowId → Service DriverProfile
driver_profile dir user = need (find_where (λ p. p.user_id == user) dir.drivers) only_drivers

-- `activeUser`
abbrev pub status_refusal : UserStatus → Option Refusal
status_refusal UserStatus.active = none
status_refusal UserStatus.suspended = some account_suspended
status_refusal UserStatus.banned = some account_banned

abbrev pub unless_refused : {A : Type 0} → Option Refusal → A → Service A
unless_refused none a = answer a
unless_refused (some why) a = refuse why

abbrev pub active_user : Directory → RowId → Service User
active_user dir user = need (find_by User.id user dir.users) user_not_found >>= λ u.
    unless_refused (status_refusal u.status) u

-- What a call of Flutterwave comes to: its answer, a refusal with its message, or an error of
-- which nothing is known.
pub data Reached (A : Type 0) : Type 0 where
  replied : A → Reached A
  rejected : String → Reached A
  unknown : Reached A
