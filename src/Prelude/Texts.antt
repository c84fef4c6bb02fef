-- ===== src/Prelude/Texts.antt =====
-- Texts compared whole, and lists of them.
use Prim.Native.String.{String}
use mathlib.Core.Path.{◌≡◌, refl, subst}
use mathlib.Core.Logic.{◌↔◌, inl, inr}
use mathlib.Core.Bool.{Bool, true, false, ◌&&◌}
use mathlib.Core.List.{List, [], ◌∷◌, Memᴰ}
use mathlib.Core.HLevel.{hedberg}
use native.Mathlib.Omega.{arith}
use text.Mathlib.Text.{◌==◌}
use text.Mathlib.TextEquality.{eq_iff}
use text.Mathlib.TextPositions.{eq_refl}
use cluster_machine_approver.Prelude.Tests.{Bool-cases}
use cluster_machine_approver.Prelude.Lists.{any, any_sound, any_complete}

pub String-discrete : Discrete String
String-discrete s t = elim (Bool-cases (s == t)) [
  | inl e ↦ yes ((eq_iff s t).0 e)
  | inr e ↦ no (λ p. cc ((eq_iff s t).1 p))
]

pub List-String-discrete : Discrete (List String)
List-String-discrete = hlevel String-discrete

pub List-String-set : IsSet (List String)
List-String-set = hedberg List-String-discrete

-- The loop that looks for a text in a slice.
abbrev pub contains : String → List String → Bool
contains s l = any (λ t. t == s) l

pub contains_iff : (s : String) (l : List String) → (contains s l ≡ true) ↔ Memᴰ s l
contains_iff s l = (
  λ h. let (t, m, e) = any_sound (λ t. t == s) l h in subst (λ u. Memᴰ u l) ((eq_iff t s).0 e) m,
  λ m. any_complete (λ t. t == s) m (eq_refl s),
)

-- `reflect.DeepEqual` on two slices of texts, nil and empty not told apart.
abbrev pub texts_eq : List String → List String → Bool
texts_eq [] [] = true
texts_eq [] (t ∷ r) = false
texts_eq (s ∷ l) [] = false
texts_eq (s ∷ l) (t ∷ r) = (s == t) && texts_eq l r

pub texts_eq_iff : (l r : List String) → (texts_eq l r ≡ true) ↔ (l ≡ r)
texts_eq_iff [] [] = (λ _. refl, λ _. refl)
texts_eq_iff [] (t ∷ r) = (λ h. cc, λ h. cc)
texts_eq_iff (s ∷ l) [] = (λ h. cc, λ h. cc)
texts_eq_iff (s ∷ l) (t ∷ r) = ground (arith, eq_iff s t, texts_eq_iff l r)
