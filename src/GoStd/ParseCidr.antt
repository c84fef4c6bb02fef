-- ===== src/GoStd/ParseCidr.antt =====
-- Package net: `ParseCIDR`, with the address by the rules of `ParseIP`.
pub mod Tests
use Prim.Native.Nat.{bit_and}
use cluster_machine_approver.Prelude.{
  ℕ, zero, suc, ◌+◌, ◌-◌, ◌*◌, ◌^◌, Bool, true, false, Option, none, some, List, [], ◌∷◌, String,
  external, Result, ok, err, leb, nat_eq, if◌then◌else◌,
}
use cluster_machine_approver.GoStd.Ip.{Ip, IpNet, drop}
use cluster_machine_approver.GoStd.ParseIp.{codes, is_digit, Address, v4, v6, bad, parse_address}

before : ℕ → List ℕ → List ℕ
before c [] = []
before c (x ∷ xs) = if nat_eq x c then [] else x ∷ before c xs

after : ℕ → List ℕ → Option (List ℕ)
after c [] = none
after c (x ∷ xs) = if nat_eq x c then some xs else after c xs

-- `dtoi` of a whole text
unfoldable pub number : (n : ℕ) → List ℕ → Option ℕ
unfolding is_digit
number n [] = some n
number n (c ∷ cs) = elim (is_digit c) [ true ↦ number (n * 10 + (c - b'0')) cs | false ↦ none ]

unfoldable pub nonempty_number : List ℕ → Option ℕ
unfolding number
nonempty_number [] = none
nonempty_number (c ∷ cs) = number 0 (c ∷ cs)

-- `CIDRMask` of a number of bytes
cidr_mask : (bytes ones : ℕ) → List ℕ
cidr_mask zero ones = []
cidr_mask (suc bytes) ones =
    (if leb 8 ones then 255 else 256 - 2 ^ (8 - ones)) ∷ cidr_mask bytes (ones - 8)

and_bytes : List ℕ → List ℕ → List ℕ
and_bytes (a ∷ as') (b ∷ bs) = bit_and a b ∷ and_bytes as' bs
and_bytes _ _ = []

net_of : Ip → (bytes : ℕ) → Option ℕ → Result IpNet
unfolding cidr_mask and_bytes
net_of ip bytes none = err (external "invalid CIDR address")
net_of ip bytes (some ones) =
    if leb ones (bytes * 8)
    then ok (record { ip = and_bytes ip (cidr_mask bytes ones); mask = cidr_mask bytes ones })
    else err (external "invalid CIDR address")

with_mask : Address → List ℕ → Result IpNet
unfolding net_of nonempty_number
with_mask (v4 ip) mask = net_of (drop 12 ip) 4 (nonempty_number mask)
with_mask (v6 ip) mask = net_of ip 16 (nonempty_number mask)
with_mask bad mask = err (external "invalid CIDR address")

split_cidr : List ℕ → Option (List ℕ) → Result IpNet
unfolding before parse_address with_mask
split_cidr cs none = err (external "invalid CIDR address")
split_cidr cs (some mask) = with_mask (parse_address (before b'/' cs)) mask

-- The network of `net.ParseCIDR`
unfoldable pub parse_cidr : String → Result IpNet
unfolding codes after split_cidr
parse_cidr s = split_cidr (codes s) (after b'/' (codes s))
