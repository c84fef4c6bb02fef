-- ===== src/CsrCheck/Conditions/Laws.antt =====
-- How many requests are pending, and what the conditions of a request say.
use mathlib.Core.List.{Perm, Permᴰ}
use mathlib.Core.Logic.{∥∥₁_elim}
use native.Mathlib.Nat.{ℕ_set}
use cluster_machine_approver.Prelude.{
  ℕ, suc, ◌+◌, ◌≤◌, ◌≡◌, refl, sym, ap, ◌∙◌, ◌↔◌, Bool, true, false, List, [], ◌∷◌, ◌++◌, Memᴰ,
  ◌==◌, eq_iff, any_sound, any_complete, length, arith,
}
use cluster_machine_approver.Kube.{Time, Condition, Csr, certificate_approved}
use cluster_machine_approver.Kube.Outside.{Libs}
use cluster_machine_approver.CsrCheck.Conditions.{
  is_approval, is_approved, is_pending, count_pending, recently_pending_node_csrs,
}

-- One step of the count as a sum.
abbrev one : Bool → ℕ
one true = 1
one false = 0

-- How many of a list pass a test, counted from the end.
pub tally : (Csr → Bool) → List Csr → ℕ
tally p [] = 0
tally p (x ∷ xs) = one (p x) + tally p xs

count_pending-tally :
    (lib : Libs) (now : Time) (n : ℕ) (csrs : List Csr)
    → count_pending lib now n csrs ≡ n + tally (is_pending lib now) csrs
unfolding count_pending tally
count_pending-tally lib now n [] = omega arith
count_pending-tally lib now n (csr ∷ csrs) =
    ground (arith, count_pending-tally lib now (n + 1) csrs, count_pending-tally lib now n csrs)

pub recently_pending_node_csrs-tally :
    (lib : Libs) (now : Time) (csrs : List Csr)
    → recently_pending_node_csrs lib now csrs ≡ tally (is_pending lib now) csrs
unfolding recently_pending_node_csrs
recently_pending_node_csrs-tally lib now csrs = omega (arith, count_pending-tally lib now 0 csrs)

tally-append : (p : Csr → Bool) (xs ys : List Csr) → tally p (xs ++ ys) ≡ tally p xs + tally p ys
unfolding tally
tally-append p [] ys = omega arith
tally-append p (x ∷ xs) ys = omega (arith, tally-append p xs ys)

tally-le-length : (p : Csr → Bool) (xs : List Csr) → tally p xs ≤ length xs
unfolding tally
tally-le-length p [] = omega arith
tally-le-length p (x ∷ xs) = ground (arith, tally-le-length p xs)

tally-perm : (p : Csr → Bool) {xs ys : List Csr} → Perm xs ys → tally p xs ≡ tally p ys
unfolding tally
tally-perm p q = ∥∥₁_elim q (ℕ_set _ _) go
  where
    go : {xs ys : List Csr} → Permᴰ xs ys → tally p xs ≡ tally p ys
    go Permᴰ.nil = refl
    go (Permᴰ.cons e r) = omega (arith, go r, ap (λ x. one (p x)) e)
    go (Permᴰ.swap e f) = omega (arith, ap (λ x. one (p x)) e, ap (λ x. one (p x)) f)
    go (Permᴰ.trans r s) = go r ∙ go s

-- The count does not depend on the order in which the API server lists the requests, and is at most
-- their number.
pub recently_pending_node_csrs-perm :
    (lib : Libs) (now : Time) {xs ys : List Csr}
    → Perm xs ys
    → (recently_pending_node_csrs lib now xs ≡ recently_pending_node_csrs lib now ys)
      × (recently_pending_node_csrs lib now xs ≤ length xs)
recently_pending_node_csrs-perm lib now {xs} {ys} p = (
  recently_pending_node_csrs-tally lib now xs
      ∙ tally-perm (is_pending lib now) p
      ∙ sym (recently_pending_node_csrs-tally lib now ys),
  rw recently_pending_node_csrs-tally (tally-le-length (is_pending lib now) xs),
)

-- A request is approved exactly when one of its conditions has the type Approved.
pub is_approved_iff :
    (csr : Csr)
    → (is_approved csr ≡ true)
      ↔ ((x : Condition) × Memᴰ x csr.conditions × (x.type ≡ certificate_approved))
unfolding is_approved is_approval
is_approved_iff csr = (
  λ h.
      let (x, m, p) = any_sound approval csr.conditions h in
      (x, m, (eq_iff x.type certificate_approved).0 p),
  λ (x, m, p). any_complete approval m ((eq_iff x.type certificate_approved).1 p),
)
  where
    approval : Condition → Bool
    approval x = x.type == certificate_approved

-- Approving one pending request lowers the count by one.
approved-not_pending :
    (lib : Libs) (now : Time) (csr : Csr) → is_approved csr ≡ true → is_pending lib now csr ≡ false
unfolding is_pending
approved-not_pending lib now csr h = ground arith

-- When a pending request among others is replaced by an approved one, the count falls by one.
pub recently_pending_node_csrs_approved :
    (lib : Libs) (now : Time) (before after : List Csr) (csr csr' : Csr)
    → is_pending lib now csr ≡ true
    → is_approved csr' ≡ true
    → recently_pending_node_csrs lib now (before ++ csr ∷ after)
      ≡ suc (recently_pending_node_csrs lib now (before ++ csr' ∷ after))
unfolding tally
recently_pending_node_csrs_approved lib now before after csr csr' pending done =
    let p = is_pending lib now in
    ground (
      arith,
      recently_pending_node_csrs-tally lib now (before ++ csr ∷ after),
      recently_pending_node_csrs-tally lib now (before ++ csr' ∷ after),
      tally-append p before (csr ∷ after),
      tally-append p before (csr' ∷ after),
      approved-not_pending lib now csr' done,
    )
