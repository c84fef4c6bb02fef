-- ===== src/GoStd/ParseIp.antt =====
-- Package net: `ParseIP`, by the rules of netip.ParseAddr. An address with a zone is refused.
use cluster_machine_approver.Prelude.{
  ℕ, zero, suc, ◌+◌, ◌-◌, ◌*◌, ◌/◌, ◌%◌, Bool, true, false, ◌&&◌, ◌||◌, not, Option, none, some,
  List, [], ◌∷◌, ◌++◌, String, code, length, ltb, leb, nat_eq, if◌then◌else◌,
}
use cluster_machine_approver.GoStd.Ip.{Ip, in_v6_prefix, take, drop}

unfoldable pub codes : String → List ℕ
codes String.[] = []
codes (String.◌∷◌ c s) = code c ∷ codes s

unfoldable pub is_digit : ℕ → Bool
is_digit c = leb b'0' c && leb c b'9'

-- The value of a hexadecimal digit.
hex_value : ℕ → Option ℕ
hex_value c =
    if leb b'0' c && leb c b'9'
    then some (c - b'0')
    else if leb b'a' c && leb c b'f'
    then some (c - b'a' + 10)
    else if leb b'A' c && leb c b'F'
    then some (c - b'A' + 10)
    else none

cons_byte : ℕ → Option (List ℕ) → Option (List ℕ)
cons_byte b none = none
cons_byte b (some bs) = some (b ∷ bs)

-- Four decimal fields of at most 255, with no leading zeros. `pos` fields are read, and `dig_len`
-- digits of the next one, whose value is `val`.
v4_fields : (pos val dig_len : ℕ) → List ℕ → Option (List ℕ)
unfolding is_digit cons_byte
v4_fields pos val dig_len [] = if nat_eq pos 3 && ltb 0 dig_len then some (val ∷ []) else none
v4_fields pos val dig_len (c ∷ cs) = elim (is_digit c) [
  | true ↦ elim (nat_eq dig_len 1 && nat_eq val 0 || ltb 255 (val * 10 + (c - b'0'))) [
    | true ↦ none
    | false ↦ v4_fields pos (val * 10 + (c - b'0')) (suc dig_len) cs
  ]
  | false ↦ elim (not (nat_eq c b'.') || nat_eq dig_len 0 || nat_eq pos 3) [
    | true ↦ none
    | false ↦ cons_byte val (v4_fields (suc pos) 0 0 cs)
  ]
]

zeros : ℕ → List ℕ
zeros zero = []
zeros (suc n) = 0 ∷ zeros n

-- The ellipsis at a position stands for the bytes that are missing.
expand : Option ℕ → List ℕ → Option Ip
unfolding zeros
expand none ip = if nat_eq (length ip) 16 then some ip else none
expand (some at) ip =
    if ltb (length ip) 16 then some (take at ip ++ (zeros (16 - length ip) ++ drop at ip)) else none

pub data Mode : Type 0 where
  in_field : Mode
  after_colon : Mode
  after_ellipsis : Mode

-- The bytes read, the position of the ellipsis, and the field being read: its value, its digits so
-- far, and the text from its first digit on, which an IPv4 address at the end is read from.
pub record V6 : Type 0 where
  mode : Mode
  ip : List ℕ
  ellipsis : Option ℕ
  acc : ℕ
  off : ℕ
  start : List ℕ

pub data Next : Type 0 where
  finished : Option Ip → Next
  going : V6 → Next

close_field : V6 → List ℕ
close_field st = st.ip ++ (st.acc / 256 ∷ st.acc % 256 ∷ [])

v4_tail : V6 → Option (List ℕ) → Next
unfolding expand
v4_tail st none = finished none
v4_tail st (some fields) = finished (expand st.ellipsis (st.ip ++ fields))

is_given : Option ℕ → Bool
is_given none = false
is_given (some n) = true

in_field_step : V6 → ℕ → Next
unfolding hex_value v4_fields v4_tail close_field is_given
in_field_step st c = elim (hex_value c) [
  | some d ↦
      if ltb 3 st.off
      then finished none
      else going (record st { mode = in_field; acc = st.acc * 16 + d; off = suc st.off })
  | none ↦
      if nat_eq st.off 0
      then finished none
      else if nat_eq c b'.'
      then if not (is_given st.ellipsis) && not (nat_eq (length st.ip) 12)
          || ltb 16 (length st.ip + 4)
        then finished none
        else v4_tail st (v4_fields 0 0 0 st.start)
      else if nat_eq c b':'
      then going (record st { mode = after_colon; ip = close_field st; acc = 0; off = 0 })
      else finished none
]

new_field_step : V6 → ℕ → (here : List ℕ) → Next
unfolding in_field_step
new_field_step st c here =
    if ltb (length st.ip) 16
    then in_field_step (record st { mode = in_field; start = here }) c
    else finished none

v6_step : Mode → V6 → ℕ → (here : List ℕ) → Next
unfolding in_field_step new_field_step is_given
v6_step in_field st c here = in_field_step st c
v6_step after_colon st c here =
    if nat_eq c b':'
    then if is_given st.ellipsis
      then finished none
      else going (record st { mode = after_ellipsis; ellipsis = some (length st.ip) })
    else new_field_step st c here
v6_step after_ellipsis st c here = new_field_step st c here

v6_end : Mode → V6 → Option Ip
unfolding expand close_field
v6_end in_field st = if nat_eq st.off 0 then none else expand st.ellipsis (close_field st)
v6_end after_colon st = none
v6_end after_ellipsis st = expand st.ellipsis st.ip

v6_loop : V6 → List ℕ → Option Ip
unfolding v6_step v6_end
v6_loop st [] = v6_end st.mode st
v6_loop st (c ∷ cs) = elim (v6_step st.mode st c (c ∷ cs)) [
  | finished result ↦ result
  | going st' ↦ v6_loop st' cs
]

v6_start : Mode → Option ℕ → List ℕ → V6
v6_start mode ellipsis cs = record {
  mode = mode;
  ip = [];
  ellipsis = ellipsis;
  acc = 0;
  off = 0;
  start = cs;
}

v6_address : List ℕ → Option Ip
unfolding v6_loop v6_start
v6_address [] = none
v6_address (c ∷ []) = none
v6_address (c ∷ d ∷ cs) =
    if nat_eq c b':' && nat_eq d b':'
    then v6_loop (v6_start after_ellipsis (some 0) cs) cs
    else v6_loop (v6_start in_field none (c ∷ d ∷ cs)) (c ∷ d ∷ cs)

-- The family, by the first dot or colon; and the sixteen bytes.
pub data Address : Type 0 where
  v4 : Ip → Address
  v6 : Ip → Address
  bad : Address

v4_of : Option (List ℕ) → Address
v4_of none = bad
v4_of (some fields) = v4 (in_v6_prefix ++ fields)

v6_of : Option Ip → Address
v6_of none = bad
v6_of (some ip) = v6 ip

by_family : (all : List ℕ) → List ℕ → Address
unfolding v4_of v6_of v4_fields v6_address
by_family all [] = bad
by_family all (c ∷ cs) = elim (nat_eq c b'.') [
  | true ↦ v4_of (v4_fields 0 0 0 all)
  | false ↦ elim (nat_eq c b':') [
    | true ↦ v6_of (v6_address all)
    | false ↦ elim (nat_eq c b'%') [ true ↦ bad | false ↦ by_family all cs ]
  ]
]

unfoldable pub parse_address : List ℕ → Address
unfolding by_family
parse_address cs = by_family cs cs

bytes_of : Address → Ip
bytes_of (v4 ip) = ip
bytes_of (v6 ip) = ip
bytes_of bad = []

-- `net.ParseIP`; nil is the empty slice.
unfoldable pub parse_ip : String → Ip
unfolding codes parse_address bytes_of
parse_ip s = bytes_of (parse_address (codes s))
