-- ===== src/Controller/Approve/Twice.antt =====
-- A second approval of a request.
use cluster_machine_approver.Prelude.{
  ◌≡◌, refl, ◌∙◌, ap, inl, inr, true, false, none, some, List, [], ◌∷◌, ◌==◌, arith, Bool-cases,
}
use cluster_machine_approver.Kube.{Time, Condition, Csr}
use cluster_machine_approver.Controller.Limits.{State}
use cluster_machine_approver.Controller.Approve.{
  CertificatesApi, has_same_state, approved_condition, replace_condition, with_condition, approve,
}
use cluster_machine_approver.Controller.Approve.Laws.{first_of_type, with_condition-IsUpdated}

-- Where the first condition of the type has the state already, the loop changes nothing.
replace_condition-same :
    (c : Condition) (xs : List Condition) {x : Condition}
    → first_of_type c.type xs ≡ some x
    → has_same_state x c ≡ true
    → replace_condition c xs ≡ (xs, true, false)
unfolding replace_condition first_of_type
replace_condition-same c [] h k = cc
replace_condition-same c (y ∷ ys) {x} h k = elim (Bool-cases (y.type == c.type)) [
  | inl same ↦
      let first : y ≡ x = ground arith in
      let state : has_same_state y c ≡ true = ap (λ z. has_same_state z c) first ∙ k in ground arith
  | inr other ↦ let later = replace_condition-same c ys {x = x} (ground arith) k in ground arith
]

with_condition-same :
    (c : Condition) (xs : List Condition) {x : Condition}
    → first_of_type c.type xs ≡ some x
    → has_same_state x c ≡ true
    → with_condition c xs ≡ (xs, false)
unfolding with_condition
with_condition-same c xs h k = rw (replace_condition-same c xs h k) refl

-- The condition of a later approval has the same type and state.
later-state :
    (now later : Time) (xs : List Condition) {x : Condition}
    → first_of_type (approved_condition now).type xs ≡ some x
    → has_same_state x (approved_condition now) ≡ true
    → with_condition (approved_condition later) xs ≡ (xs, false)
unfolding approved_condition has_same_state
later-state now later xs first state = with_condition-same (approved_condition later) xs first state

-- On the conditions that an approval leaves, whatever they were before, an approval at any other
-- instant sends nothing and returns no error.
pub approve_twice :
    (api : CertificatesApi) (now later : Time) (csr : Csr) (s : State)
    → approve api later
        (record csr { conditions = (with_condition (approved_condition now) csr.conditions).0 })
        s
      ≡ (s, none)
unfolding approve
approve_twice api now later csr s =
    let updated = with_condition-IsUpdated (approved_condition now) csr.conditions in
    let again =
      later-state now later (with_condition (approved_condition now) csr.conditions).0 updated.first
        updated.same_state in
    rw again refl
