-- ===== src/GoStd/Strings/Prefix.antt =====
-- Prefixes as appended texts.
use Prim.Native.String
use text.Mathlib.TextEquality.{Char-path}
use text.Mathlib.TextLemmas.{nil-append, cons-append}
use cluster_machine_approver.Prelude.{
  ◌≡◌, refl, ap₂, ◌↔◌, inl, inr, true, some, String, code, arith, nat_eq, Bool-cases, Option-cases,
}
use cluster_machine_approver.GoStd.Strings.{strip_prefix, has_prefix, trim_prefix}

strip_prefix_sound :
    (s prefix : String) {r : String} → strip_prefix s prefix ≡ some r → s ≡ String.◌++◌ prefix r
unfolding strip_prefix
strip_prefix_sound s String.[] {r} h = rw nil-append (ground arith)
strip_prefix_sound String.[] (String.◌∷◌ p ps) h = cc
strip_prefix_sound (String.◌∷◌ c s) (String.◌∷◌ p ps) {r} h =
    elim (Bool-cases (nat_eq (code c) (code p))) [
      | inl e ↦
          rw cons-append
            (ap₂ String.◌∷◌ (Char-path c p (ground arith)) (strip_prefix_sound s ps (ground arith)))
      | inr e ↦ ground arith
    ]

strip_prefix-append : (prefix r : String) → strip_prefix (String.◌++◌ prefix r) prefix ≡ some r
unfolding strip_prefix
strip_prefix-append String.[] r = rw nil-append
strip_prefix-append (String.◌∷◌ p ps) r = rw cons-append (ground (arith, strip_prefix-append ps r))

-- A text has the prefix exactly when it is the prefix with something after it.
pub has_prefix_iff :
    (s prefix : String) → (has_prefix s prefix ≡ true) ↔ ((r : String) × (s ≡ String.◌++◌ prefix r))
unfolding has_prefix
has_prefix_iff s prefix = (
  λ h. elim (Option-cases (strip_prefix s prefix)) [
    | inl e ↦ ground arith
    | inr (r, e) ↦ (r, strip_prefix_sound s prefix e)
  ],
  λ (r, e). rw (e, strip_prefix-append prefix r) refl,
)

pub trim_prefix-append : (prefix r : String) → trim_prefix (String.◌++◌ prefix r) prefix ≡ r
unfolding trim_prefix
trim_prefix-append prefix r = rw (strip_prefix-append prefix r)
