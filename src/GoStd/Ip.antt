-- ===== src/GoStd/Ip.antt =====
-- Package net: an IP address as its bytes, with `To4`, `String` and `IPNet.Contains`.
pub mod Laws
use cluster_machine_approver.Prelude.{
  ℕ, zero, suc, ◌+◌, ◌-◌, ◌*◌, ◌/◌, ◌%◌, Bool, true, false, ◌&&◌, ◌||◌, Option, none, some, List,
  [], ◌∷◌, ◌++◌, String, length, all, ltb, leb, nat_eq, if◌then◌else◌,
}
use Prim.Native.String
use Prim.Native.Nat.{bit_and}

-- nil is the empty slice.
abbrev pub Ip : Type 0
Ip = List ℕ

abbrev pub drop : ℕ → List ℕ → List ℕ
drop zero xs = xs
drop (suc n) [] = []
drop (suc n) (x ∷ xs) = drop n xs

abbrev pub take : ℕ → List ℕ → List ℕ
take zero xs = []
take (suc n) [] = []
take (suc n) (x ∷ xs) = x ∷ take n xs

-- `v4InV6Prefix`: ten zero bytes and two of 0xff.
abbrev pub in_v6_prefix : Ip
in_v6_prefix = 0 ∷ 0 ∷ 0 ∷ 0 ∷ 0 ∷ 0 ∷ 0 ∷ 0 ∷ 0 ∷ 0 ∷ 255 ∷ 255 ∷ []

abbrev pub bytes_eq : List ℕ → List ℕ → Bool
bytes_eq [] [] = true
bytes_eq [] (y ∷ ys) = false
bytes_eq (x ∷ xs) [] = false
bytes_eq (x ∷ xs) (y ∷ ys) = nat_eq x y && bytes_eq xs ys

-- nil is `none`.
unfoldable pub to4 : Ip → Option Ip
to4 ip =
    if nat_eq (length ip) 4
    then some ip
    else if nat_eq (length ip) 16 && bytes_eq (take 12 ip) in_v6_prefix
    then some (drop 12 ip)
    else none

abbrev get_or : List String → ℕ → String
get_or [] i = ""
get_or (x ∷ xs) zero = x
get_or (x ∷ xs) (suc i) = get_or xs i

abbrev digit : ℕ → String
digit d =
    get_or
      ("0" ∷ "1" ∷ "2" ∷ "3" ∷ "4" ∷ "5" ∷ "6" ∷ "7" ∷ "8" ∷ "9" ∷ "a" ∷ "b" ∷ "c" ∷ "d" ∷ "e" ∷ "f"
        ∷ [])
      d

infixr 65 ◌⧺◌
abbrev ◌⧺◌ : String → String → String
◌⧺◌ = String.◌++◌

-- A byte in decimal.
decimal : ℕ → String
decimal b =
    if ltb b 10
    then digit b
    else if ltb b 100
    then digit (b / 10) ⧺ digit (b % 10)
    else digit (b / 100) ⧺ digit (b / 10 % 10) ⧺ digit (b % 10)

-- A 16-bit group in hexadecimal, with no leading zeros.
hex : ℕ → String
hex g =
    if ltb g 16
    then digit g
    else if ltb g 256
    then digit (g / 16) ⧺ digit (g % 16)
    else if ltb g 4096
    then digit (g / 256) ⧺ digit (g / 16 % 16) ⧺ digit (g % 16)
    else digit (g / 4096) ⧺ digit (g / 256 % 16) ⧺ digit (g / 16 % 16) ⧺ digit (g % 16)

-- Bytes written out two digits each, as for a slice of another length.
hex_bytes : List ℕ → String
hex_bytes [] = ""
hex_bytes (b ∷ bs) = digit (b / 16) ⧺ digit (b % 16) ⧺ hex_bytes bs

dotted : List ℕ → String
unfolding decimal
dotted [] = ""
dotted (b ∷ []) = decimal b
dotted (b ∷ c ∷ bs) = decimal b ⧺ "." ⧺ dotted (c ∷ bs)

groups : List ℕ → List ℕ
groups (h ∷ l ∷ bs) = (h * 256 + l) ∷ groups bs
groups _ = []

-- How many groups from here on are zero.
zero_run : List ℕ → ℕ
zero_run [] = 0
zero_run (g ∷ gs) = if nat_eq g 0 then suc (zero_run gs) else 0

-- The start and the length of the first longest run of at least two zero groups; length 0 if none.
longest_run : (at : ℕ) (best_start best_len : ℕ) → List ℕ → ℕ × ℕ
unfolding zero_run
longest_run at start len [] = (start, len)
longest_run at start len (g ∷ gs) =
    let run = zero_run (g ∷ gs) in
    let better = leb 2 run && ltb len run in
    longest_run (suc at) (if better then at else start) (if better then run else len) gs

colons : List ℕ → String
unfolding hex
colons [] = ""
colons (g ∷ []) = hex g
colons (g ∷ h ∷ gs) = hex g ⧺ ":" ⧺ colons (h ∷ gs)

v6_string : List ℕ → String
unfolding colons longest_run
v6_string gs =
    let (start, len) = longest_run 0 0 0 gs in
    if nat_eq len 0
    then colons gs
    else colons (take start gs) ⧺ "::" ⧺ colons (drop (start + len) gs)

string_of : Option Ip → Ip → String
unfolding dotted v6_string groups
string_of (some ip4) ip = dotted ip4
string_of none ip = v6_string (groups ip)

-- `IP.String`
unfoldable pub to_string : Ip → String
unfolding string_of to4 hex_bytes
to_string ip =
    if nat_eq (length ip) 0
    then "<nil>"
    else if nat_eq (length ip) 4 || nat_eq (length ip) 16
    then string_of (to4 ip) ip
    else "?" ⧺ hex_bytes ip

-- A network with its mask, the mask as long as the number of the network.
pub record IpNet : Type 0 where
  pub ip : Ip
  pub mask : List ℕ

-- The loop of `Contains`; lists of different lengths do not reach it.
masked_eq : (number mask ip : List ℕ) → Bool
masked_eq (n ∷ ns) (m ∷ ms) (b ∷ bs) = nat_eq (bit_and n m) (bit_and b m) && masked_eq ns ms bs
masked_eq _ _ _ = true

abbrev or_self : Option Ip → Ip → Ip
or_self none ip = ip
or_self (some ip4) ip = ip4

-- `networkNumberAndMask`; a network whose parts do not fit is nil, here empty.
network_number : IpNet → Ip × List ℕ
unfolding to4
network_number net =
    let number = or_self (to4 net.ip) net.ip in
    let n = length number in
    let m = length net.mask in
    if not_ip n
    then ([], [])
    else if nat_eq m n
    then (number, net.mask)
    else if nat_eq m 16 && nat_eq n 4
    then (number, drop 12 net.mask)
    else ([], [])
  where
    not_ip : ℕ → Bool
    not_ip n = if nat_eq n 4 then false else if nat_eq n 16 then false else true

-- `IPNet.Contains`
unfoldable pub net_contains : IpNet → Ip → Bool
unfolding masked_eq network_number to4
net_contains net ip =
    let (number, mask) = network_number net in
    let x = or_self (to4 ip) ip in
    if nat_eq (length x) (length number) then masked_eq number mask x else false
