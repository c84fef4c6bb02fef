-- ===== src/GoStd/Atoi/Laws.antt =====
-- `Atoi` on what `Itoa` writes.
use Prim.Native.String
use text.Mathlib.TextLemmas.{nil-append, cons-append}
use cluster_machine_approver.Prelude.{
  Char, code, ℕ, zero, suc, ◌+◌, ◌*◌, ◌/◌, ◌%◌, ◌^◌, ◌<◌, ◌≡◌, refl, sym, ap, ◌∙◌, inl, inr, some,
  List, ◌∷◌, String, ok, ltb, Bool-cases, arith,
}
use cluster_machine_approver.Prelude.Int.{pos}
use cluster_machine_approver.GoStd.Strings.{digit, digits, itoa}
use cluster_machine_approver.GoStd.ParseIp.{codes, is_digit}
use cluster_machine_approver.GoStd.ParseCidr.{number, nonempty_number}
use cluster_machine_approver.GoStd.Atoi.{split_sign, in_range, atoi}

atoi_tests : (atoi "8080" ≡ ok (pos 8080)) × (atoi "+7" ≡ ok (pos 7))
unfolding atoi
atoi_tests = (refl, refl)

codes-one :
    (c : Char) (tail : String)
    → codes (String.◌++◌ (String.◌∷◌ c String.[]) tail) ≡ code c ∷ codes tail
unfolding codes
codes-one c tail = ap codes (cons-append c String.[] tail ∙ ap (String.◌∷◌ c) (nil-append tail))

codes-digit :
    (d : ℕ) (tail : String) → d < 10 → codes (String.◌++◌ (digit d) tail) ≡ (48 + d) ∷ codes tail
codes-digit zero tail h = codes-one "0" tail
codes-digit (suc zero) tail h = codes-one "1" tail
codes-digit (suc (suc zero)) tail h = codes-one "2" tail
codes-digit (suc (suc (suc zero))) tail h = codes-one "3" tail
codes-digit (suc (suc (suc (suc zero)))) tail h = codes-one "4" tail
codes-digit (suc (suc (suc (suc (suc zero))))) tail h = codes-one "5" tail
codes-digit (suc (suc (suc (suc (suc (suc zero)))))) tail h = codes-one "6" tail
codes-digit (suc (suc (suc (suc (suc (suc (suc zero))))))) tail h = codes-one "7" tail
codes-digit (suc (suc (suc (suc (suc (suc (suc (suc zero)))))))) tail h = codes-one "8" tail
codes-digit (suc (suc (suc (suc (suc (suc (suc (suc (suc zero))))))))) tail h = codes-one "9" tail
codes-digit (suc (suc (suc (suc (suc (suc (suc (suc (suc (suc d)))))))))) tail h =
    absurd (omega arith)

number-digit :
    (n d : ℕ) (tail : String)
    → d < 10
    → number n (codes (String.◌++◌ (digit d) tail)) ≡ number (n * 10 + d) (codes tail)
unfolding number is_digit
number-digit n d tail h = rw (codes-digit d tail h) (ground arith)

-- Enough fuel writes the whole number.
number-digits :
    (fuel n : ℕ) (tail : String)
    → n < 10 ^ fuel
    → number 0 (codes (digits fuel n tail)) ≡ number n (codes tail)
unfolding digits
number-digits zero n tail h = ap (λ k. number k (codes tail)) (omega arith)
number-digits (suc fuel) n tail h = elim (Bool-cases (ltb n 10)) [
  | inl small ↦
      rw small
        (number-digit 0 n tail (ground arith) ∙ ap (λ k. number k (codes tail)) (omega arith))
  | inr large ↦ rw large (
      number-digits fuel (n / 10) (String.◌++◌ (digit (n % 10)) tail) (omega arith)
      ∙ number-digit (n / 10) (n % 10) tail (omega arith)
      ∙ ap (λ k. number k (codes tail)) (omega arith))
]

-- A text whose codes begin with a digit.
abbrev StartsWithDigit : String → Type 0
StartsWithDigit s = (d : ℕ) × (cs : List ℕ) × (d < 10) × (codes s ≡ (48 + d) ∷ cs)

longer-StartsWithDigit :
    (fuel n d : ℕ) (tail : String)
    → d < 10
    → StartsWithDigit (digits fuel n (String.◌++◌ (digit d) tail))
unfolding digits
longer-StartsWithDigit zero n d tail h = (d, codes tail, h, codes-digit d tail h)
longer-StartsWithDigit (suc fuel) n d tail h = elim (Bool-cases (ltb n 10)) [
  | inl small ↦
      let few : n < 10 = ground arith in
      rw small
        (n, codes (String.◌++◌ (digit d) tail), few, codes-digit n (String.◌++◌ (digit d) tail) few)
  | inr large ↦
      rw large
        (longer-StartsWithDigit fuel (n / 10) (n % 10) (String.◌++◌ (digit d) tail) (omega arith))
]

itoa-StartsWithDigit : (n : ℕ) → StartsWithDigit (itoa (pos n))
unfolding itoa digits
itoa-StartsWithDigit n = elim (Bool-cases (ltb n 10)) [
  | inl small ↦ let few : n < 10 = ground arith in rw small (n, codes "", few, codes-digit n "" few)
  | inr large ↦ rw large (longer-StartsWithDigit 19 (n / 10) (n % 10) "" (omega arith))
]

atoi_unsigned :
    (s : String) (d n : ℕ) (cs : List ℕ)
    → codes s ≡ (48 + d) ∷ cs
    → number 0 (codes s) ≡ some n
    → n < 2 ^ 63
    → atoi s ≡ ok (pos n)
unfolding atoi split_sign nonempty_number in_range
atoi_unsigned s d n cs begins value fits =
    let whole : number 0 ((48 + d) ∷ cs) ≡ some n = ap (number 0) (sym begins) ∙ value in
    rw begins (ground (arith, whole))

-- The number that is written is the number that is read.
pub atoi-itoa : (n : ℕ) → n < 2 ^ 63 → atoi (itoa (pos n)) ≡ ok (pos n)
unfolding number itoa codes
atoi-itoa n h =
    let (d, cs, few, begins) = itoa-StartsWithDigit n in
    atoi_unsigned (itoa (pos n)) d n cs begins (number-digits 20 n "" (omega arith)) h
