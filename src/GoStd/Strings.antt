-- ===== src/GoStd/Strings.antt =====
-- Packages strings, strconv and net: `HasPrefix`, `TrimPrefix`, `EqualFold`, `Itoa`, `JoinHostPort`. A Go string is a `String`; the prefixes
-- that the program tests are ASCII, where a prefix by bytes and one by characters are the same.
pub mod Prefix
use Prim.Native.String
use cluster_machine_approver.Prelude.{
  ℕ, zero, suc, ◌+◌, ◌/◌, ◌%◌, Bool, true, false, ◌&&◌, ◌||◌, Option, none, some, List, [], ◌∷◌,
  String, code, ltb, leb, nat_eq, if◌then◌else◌,
}
use cluster_machine_approver.Prelude.Int.{ℤ, pos, negsuc}

-- What follows the prefix, if the text begins with it.
unfoldable pub strip_prefix : (s prefix : String) → Option String
strip_prefix s String.[] = some s
strip_prefix String.[] (String.◌∷◌ p ps) = none
strip_prefix (String.◌∷◌ c s) (String.◌∷◌ p ps) =
    if nat_eq (code c) (code p) then strip_prefix s ps else none

abbrev is_some {ℓ} : {A : Type ℓ} → Option A → Bool
is_some none = false
is_some (some a) = true

abbrev or_else {ℓ} : {A : Type ℓ} → Option A → A → A
or_else none d = d
or_else (some a) d = a

unfoldable pub has_prefix : (s prefix : String) → Bool
unfolding strip_prefix
has_prefix s prefix = is_some (strip_prefix s prefix)

unfoldable pub trim_prefix : (s prefix : String) → String
unfolding strip_prefix
trim_prefix s prefix = or_else (strip_prefix s prefix) s

-- One character of an orbit of `unicode.SimpleFold` stands for all of them: the lower case letter in
-- ASCII, and beyond it what the tables say, which are `fold`.
unfoldable pub fold_rune : (ℕ → ℕ) → ℕ → ℕ
fold_rune fold c = if ltb c 128 then (if leb b'A' c && leb c b'Z' then c + 32 else c) else fold c

unfoldable pub equal_fold : (ℕ → ℕ) → (s t : String) → Bool
unfolding fold_rune
equal_fold fold String.[] String.[] = true
equal_fold fold String.[] (String.◌∷◌ d t) = false
equal_fold fold (String.◌∷◌ c s) String.[] = false
equal_fold fold (String.◌∷◌ c s) (String.◌∷◌ d t) =
    nat_eq (fold_rune fold (code c)) (fold_rune fold (code d)) && equal_fold fold s t

abbrev get_digit : List String → ℕ → String
get_digit [] i = ""
get_digit (x ∷ xs) zero = x
get_digit (x ∷ xs) (suc i) = get_digit xs i

abbrev pub digit : ℕ → String
digit d = get_digit ("0" ∷ "1" ∷ "2" ∷ "3" ∷ "4" ∷ "5" ∷ "6" ∷ "7" ∷ "8" ∷ "9" ∷ []) d

-- Decimal digits, before those in `tail`; an int has at most 19, and the fuel is 20.
unfoldable pub digits : (fuel n : ℕ) → (tail : String) → String
digits zero n tail = tail
digits (suc fuel) n tail =
    let longer = digits fuel (n / 10) (String.◌++◌ (digit (n % 10)) tail) in
    if ltb n 10 then String.◌++◌ (digit n) tail else longer

-- `strconv.Itoa`
unfoldable pub itoa : ℤ → String
unfolding digits
itoa (pos n) = digits 20 n ""
itoa (negsuc n) = String.◌++◌ "-" (digits 20 (suc n) "")

has_colon : String → Bool
has_colon String.[] = false
has_colon (String.◌∷◌ c s) = nat_eq (code c) b':' || has_colon s

-- `net.JoinHostPort`
unfoldable pub join_host_port : (host port : String) → String
unfolding has_colon
join_host_port host port =
    if has_colon host
    then String.◌++◌ "[" (String.◌++◌ host (String.◌++◌ "]:" port))
    else String.◌++◌ host (String.◌++◌ ":" port)
