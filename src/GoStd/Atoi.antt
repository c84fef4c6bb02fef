-- ===== src/GoStd/Atoi.antt =====
-- Package strconv: `Atoi`, for a 64-bit int.
pub mod Laws
use cluster_machine_approver.Prelude.{
  ℕ, zero, suc, ◌^◌, Bool, true, false, Option, none, some, List, [], ◌∷◌, String, Error, external,
  Result, ok, err, ltb, leb, nat_eq, if◌then◌else◌,
}
use cluster_machine_approver.Prelude.Int.{ℤ, pos, negsuc}
use cluster_machine_approver.GoStd.ParseIp.{codes}
use cluster_machine_approver.GoStd.ParseCidr.{nonempty_number}

-- Whether there is a minus sign, and what follows the sign.
unfoldable pub split_sign : List ℕ → Bool × List ℕ
split_sign [] = (false, [])
split_sign (c ∷ cs) =
    if nat_eq c b'-' then (true, cs) else if nat_eq c b'+' then (false, cs) else (false, c ∷ cs)

negate : ℕ → ℤ
negate zero = pos 0
negate (suc n) = negsuc n

unfoldable pub in_range : Bool → Option ℕ → Result ℤ
unfolding negate
in_range negative none = err (external "invalid syntax")
in_range false (some n) = if ltb n (2 ^ 63) then ok (pos n) else err (external "value out of range")
in_range true (some n) =
    if leb n (2 ^ 63) then ok (negate n) else err (external "value out of range")

unfoldable pub atoi : String → Result ℤ
unfolding codes split_sign in_range nonempty_number
atoi s = let (negative, cs) = split_sign (codes s) in in_range negative (nonempty_number cs)
