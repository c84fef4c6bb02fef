-- ===== src/Prelude/Lists.antt =====
-- Lists measured by native numbers, and the loops that look for an element.
use Prim.Native.Nat.{ℕ, suc, ◌+◌}
use mathlib.Core.Path.{◌≡◌, refl, ap}
use mathlib.Core.Logic.{inl, inr}
use mathlib.Core.Bool.{Bool, true, false, ◌&&◌, ◌||◌}
use mathlib.Core.Option.{Option, none, some}
use mathlib.Core.List.{List, [], ◌∷◌, ◌++◌, Memᴰ}
use native.Mathlib.Omega.{arith}
use cluster_machine_approver.Prelude.Tests.{if◌then◌else◌, Bool-cases}

module _ {ℓ} {A : Type ℓ} where
  abbrev pub length : List A → ℕ
  length [] = 0
  length (x ∷ xs) = suc (length xs)

  -- A loop that stops at the first element that passes.
  abbrev pub any : (A → Bool) → List A → Bool
  any p [] = false
  any p (x ∷ xs) = p x || any p xs

  -- A loop that stops at the first element that fails.
  abbrev pub all : (A → Bool) → List A → Bool
  all p [] = true
  all p (x ∷ xs) = p x && all p xs

  -- A loop that returns the first element that passes.
  abbrev pub find : (A → Bool) → List A → Option A
  find p [] = none
  find p (x ∷ xs) = if p x then some x else find p xs

  pub length-append : (xs ys : List A) → length (xs ++ ys) ≡ length xs + length ys
  length-append [] ys = omega arith
  length-append (x ∷ xs) ys = omega (arith, length-append xs ys)

  pub any_sound :
      (p : A → Bool) (xs : List A) → any p xs ≡ true → (x : A) × Memᴰ x xs × (p x ≡ true)
  any_sound p [] h = cc
  any_sound p (x ∷ xs) h = elim (Bool-cases (p x)) [
    | inl e ↦ (x, Memᴰ.head refl, e)
    | inr e ↦ let (y, m, q) = any_sound p xs (ground arith) in (y, Memᴰ.tail m, q)
  ]

  pub any_complete : (p : A → Bool) {x : A} {xs : List A} → Memᴰ x xs → p x ≡ true → any p xs ≡ true
  any_complete p (Memᴰ.head e) h = ground (arith, ap p e)
  any_complete p (Memᴰ.tail m) h = ground (arith, any_complete p m h)

  pub all_sound : (p : A → Bool) {x : A} {xs : List A} → all p xs ≡ true → Memᴰ x xs → p x ≡ true
  all_sound p h (Memᴰ.head e) = ground (arith, ap p e)
  all_sound p h (Memᴰ.tail m) = all_sound p (ground arith) m

  pub all_complete :
      (p : A → Bool) (xs : List A) → ((x : A) → Memᴰ x xs → p x ≡ true) → all p xs ≡ true
  all_complete p [] h = refl
  all_complete p (x ∷ xs) h =
      ground (arith, h x (Memᴰ.head refl), all_complete p xs (λ y m. h y (Memᴰ.tail m)))

  -- The element found is the first that passes: all before it fail.
  pub find_sound :
      (p : A → Bool) (xs : List A) {x : A}
      → find p xs ≡ some x
      → (before after : List A) × (xs ≡ before ++ x ∷ after) × (p x ≡ true) × (any p before ≡ false)
  find_sound p [] h = cc
  find_sound p (y ∷ xs) {x} h = elim (Bool-cases (p y)) [
    | inl e ↦ ([], xs, ground arith, ground arith, refl)
    | inr e ↦
        let (before, after, split, passes, fails) = find_sound p xs (ground arith) in
        (y ∷ before, after, ap (◌∷◌ y) split, passes, ground arith)
  ]

  pub find_complete :
      (p : A → Bool) (before after : List A) {x : A}
      → p x ≡ true
      → any p before ≡ false
      → find p (before ++ x ∷ after) ≡ some x
  find_complete p [] after h k = ground arith
  find_complete p (y ∷ before) after h k = ground (arith, find_complete p before after h)

  pub find-none : (p : A → Bool) (xs : List A) → find p xs ≡ none → any p xs ≡ false
  find-none p [] h = refl
  find-none p (x ∷ xs) h = ground (arith, find-none p xs)

  pub find_exists : (p : A → Bool) (xs : List A) → any p xs ≡ true → (x : A) × (find p xs ≡ some x)
  find_exists p [] h = cc
  find_exists p (x ∷ xs) h = elim (Bool-cases (p x)) [
    | inl e ↦ (x, ground arith)
    | inr e ↦ let (y, found) = find_exists p xs (ground arith) in (y, ground arith)
  ]

  pub any-last : (p : A → Bool) (xs : List A) {x : A} → p x ≡ true → any p (xs ++ x ∷ []) ≡ true
  any-last p [] h = ground arith
  any-last p (y ∷ xs) h = ground (arith, any-last p xs h)
