-- ===== src/Money.antt =====
-- The fee arithmetic of internal/money/money.go.
use ridematch.Prelude.{
  ℕ, zero, suc, Bool, true, false, Option, none, some, ◌+◌, ◌/◌, ◌&&◌, if◌then◌else◌,
}
use ridematch.Prelude.Int.{ℤ, pos, negsuc, pos_part, neg_part, ◌-ℤ◌, ltb_ℤ, leb_ℤ, eqb_ℤ}
use ridematch.Prelude.Word.{wrap64, add64, sub64, mul64}
pub mod Fees
pub mod GrossUp
pub mod Pin
pub mod PinLaws
mod Examples

abbrev is_negative : ℤ → Bool
is_negative (pos _) = false
is_negative (negsuc _) = true

abbrev same_sign : Bool → Bool → Bool
same_sign true b = b
same_sign false true = false
same_sign false false = true

abbrev quotient : ℤ → ℤ → ℕ
quotient a b = (pos_part a + neg_part a) / (pos_part b + neg_part b)

-- `a / b` on int64 for a divisor that is not zero: the quotient, cut towards zero.
unfoldable pub quot64 : ℤ → ℤ → ℤ
quot64 a b = wrap64 (
    if same_sign (is_negative a) (is_negative b)
    then pos (quotient a b)
    else pos 0 -ℤ pos (quotient a b))

-- `CollectionFee`
unfoldable pub collection_fee : ℤ → ℤ → ℤ
collection_fee paid bps =
    if leb_ℤ paid (pos 0)
    then pos 0
    else if leb_ℤ bps (pos 0)
    then pos 0
    else quot64 (add64 (mul64 paid bps) (pos 9999)) (pos 10000)

-- `NetAfterFee`
unfoldable pub net_after_fee : ℤ → ℤ → ℤ
net_after_fee paid bps = sub64 paid (collection_fee paid bps)

-- The first estimate of `GrossUp`.
unfoldable pub estimate : ℤ → ℤ → ℤ
estimate net bps =
    let kept = sub64 (pos 10000) bps in
    quot64 (sub64 (add64 (mul64 net (pos 10000)) kept) (pos 1)) kept

-- The two loops of `GrossUp`, on fuel.
unfoldable pub walk_down : ℕ → ℤ → ℤ → ℤ → Option ℤ
walk_down zero net bps g = none
walk_down (suc fuel) net bps g =
    let rest = walk_down fuel net bps (sub64 g (pos 1)) in
    if ltb_ℤ net g && leb_ℤ net (net_after_fee (sub64 g (pos 1)) bps) then rest else some g

unfoldable pub walk_up : ℕ → ℤ → ℤ → ℤ → Option ℤ
walk_up zero net bps g = none
walk_up (suc fuel) net bps g =
    let rest = walk_up fuel net bps (add64 g (pos 1)) in
    if ltb_ℤ (net_after_fee g bps) net then rest else some g

abbrev walk_up_from : ℕ → ℤ → ℤ → Option ℤ → Option ℤ
walk_up_from fuel net bps none = none
walk_up_from fuel net bps (some g) = walk_up fuel net bps g

-- `GrossUp`; none is a division by zero, at 10000 basis points, or the end of the fuel.
unfoldable pub gross_up : ℕ → ℤ → ℤ → Option ℤ
gross_up fuel net bps =
    if leb_ℤ net (pos 0)
    then some (pos 0)
    else if leb_ℤ bps (pos 0)
    then some net
    else if eqb_ℤ bps (pos 10000)
    then none
    else walk_up_from fuel net bps (walk_down fuel net bps (estimate net bps))

-- `TransferFee`
unfoldable pub transfer_fee : ℤ → ℤ
transfer_fee amount =
    if leb_ℤ amount (pos 500000)
    then pos 1000
    else if leb_ℤ amount (pos 5000000)
    then pos 2500
    else pos 5000
