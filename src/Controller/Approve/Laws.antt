-- ===== src/Controller/Approve/Laws.antt =====
-- What an approval sends, and what it leaves of the conditions.
use mathlib.Core.List.{append-nil}
use cluster_machine_approver.Prelude.{
  ◌≡◌, refl, ap, ◌∙◌, inl, inr, Bool, true, false, Option, none, some, List, [], ◌∷◌, ◌++◌, String,
  ◌==◌, eq_refl, Error, any, find, find_complete, any-last, arith, Bool-cases, if◌then◌else◌,
}
use cluster_machine_approver.Kube.{Time, Condition, Csr, certificate_approved}
use cluster_machine_approver.CsrCheck.Conditions.{
  is_approval, is_approved, is_approved_by_cma, csr_condition_approve_message,
}
use cluster_machine_approver.Controller.Limits.{State}
use cluster_machine_approver.Controller.Approve.{
  CertificatesApi, has_same_state, approved_condition, replace_condition, with_condition, approve,
}

-- The conditions of another type than `type`, in their order.
unfoldable pub others : (type : String) → List Condition → List Condition
others type [] = []
others type (x ∷ xs) = if x.type == type then others type xs else x ∷ others type xs

-- The first condition of a type.
unfoldable pub first_of_type : (type : String) → List Condition → Option Condition
first_of_type type xs = find (λ x. x.type == type) xs

others-append :
    (type : String) (xs ys : List Condition)
    → others type (xs ++ ys) ≡ others type xs ++ others type ys
unfolding others
others-append type [] ys = refl
others-append type (x ∷ xs) ys = ground (arith, others-append type xs ys)

module _ (c : Condition) where
  same_state_refl : has_same_state c c ≡ true
  unfolding has_same_state
  same_state_refl =
      ground (arith, eq_refl c.type, eq_refl c.status, eq_refl c.reason, eq_refl c.message)

  -- What the loop has done, when it found the type and when it did not.
  record Replaced (xs : List Condition) (r : List Condition × Bool × Bool) : Type 0 where
    kept : others c.type r.0 ≡ others c.type xs
    untouched : r.2 ≡ false → r.0 ≡ xs
    missing : r.1 ≡ false → any (λ x. x.type == c.type) r.0 ≡ false

  replace_condition-Replaced : (xs : List Condition) → Replaced xs (replace_condition c xs)
  unfolding replace_condition others
  replace_condition-Replaced [] = record { kept = refl; untouched = λ _. refl; missing = λ _. refl }
  replace_condition-Replaced (x ∷ xs) =
      let ih = replace_condition-Replaced xs in
      record {
        kept = ground (arith, ih.kept, eq_refl c.type);
        untouched = λ h. ground (arith, ih.untouched);
        missing = λ h. ground (arith, ih.missing);
      }

  replace_condition-found :
      (xs : List Condition)
      → (replace_condition c xs).1 ≡ true
      → (x : Condition) × (first_of_type c.type (replace_condition c xs).0 ≡ some x)
        × (has_same_state x c ≡ true)
  unfolding replace_condition first_of_type
  replace_condition-found [] h = cc
  replace_condition-found (x ∷ xs) h = elim (Bool-cases (x.type == c.type)) [
    | inl same ↦ elim (Bool-cases (has_same_state x c)) [
      | inl state ↦ (x, ground arith, state)
      | inr state ↦ (c, ground (arith, eq_refl c.type), same_state_refl)
    ]
    | inr other ↦
        let (y, first, state) = replace_condition-found xs (ground arith) in
        (y, ground arith, state)
  ]

others_self : (c : Condition) → others c.type (c ∷ []) ≡ []
unfolding others
others_self c = ground (arith, eq_refl c.type)

-- What the conditions are once a condition has been put among them: those of other types stay as
-- they were, in order, the first of its type has its state, and without a need for an update nothing
-- is changed.
pub record IsUpdated (c : Condition) (before after : List Condition) (needs_update : Bool)
    : Type 0 where
  pub kept : others c.type after ≡ others c.type before
  pub now : Condition
  pub first : first_of_type c.type after ≡ some now
  pub same_state : has_same_state now c ≡ true
  pub unchanged : needs_update ≡ false → after ≡ before

-- `approve` keeps the conditions of other types, gives the first condition of its type the state of
-- the one given, and asks for no update only if nothing has changed.
pub with_condition-IsUpdated :
    (c : Condition) (xs : List Condition)
    → IsUpdated c xs (with_condition c xs).0 (with_condition c xs).1
unfolding with_condition first_of_type
with_condition-IsUpdated c xs =
    let r = replace_condition-Replaced c xs in
    elim (Bool-cases (replace_condition c xs).1) [
      | inl exists ↦
          let (x, first, state) = replace_condition-found c xs exists in
          rw exists (record {
            kept = r.kept;
            now = x;
            first = first;
            same_state = state;
            unchanged = r.untouched;
          })
      | inr new ↦ rw new (record {
        kept =
            others-append c.type (replace_condition c xs).0 (c ∷ [])
            ∙ ap (λ l. others c.type (replace_condition c xs).0 ++ l) (others_self c)
            ∙ append-nil _
            ∙ r.kept;
        now = c;
        first =
            find_complete (λ x. x.type == c.type) (replace_condition c xs).0 [] (eq_refl c.type)
              (r.missing new);
        same_state = same_state_refl c;
        unchanged = λ h. cc;
      })
    ]

replace_condition-absent :
    (c : Condition) (xs : List Condition)
    → any (λ x. x.type == c.type) xs ≡ false
    → replace_condition c xs ≡ (xs, false, false)
unfolding replace_condition
replace_condition-absent c [] h = refl
replace_condition-absent c (x ∷ xs) h = ground (arith, replace_condition-absent c xs)

-- The request as it goes to the API server.
unfoldable pub approved_csr : (now : Time) → Csr → Csr
approved_csr now csr = record csr { conditions = csr.conditions ++ approved_condition now ∷ [] }

-- For a request that is not approved, with a client that can be made, one update is sent: the
-- request with the approval behind its conditions. The error is the server's.
pub approve_unapproved :
    (api : CertificatesApi) (now : Time) (csr : Csr) (s : State)
    → is_approved csr ≡ false
    → api.new_for_config ≡ none
    → approve api now csr s ≡ (
      record s { sent = approved_csr now csr ∷ s.sent },
      api.update_approval (approved_csr now csr),
    )
unfolding approve is_approved is_approval approved_csr with_condition
approve_unapproved api now csr s h made =
    let absent = replace_condition-absent (approved_condition now) csr.conditions h in
    rw (absent, made)

pub approve_no_client :
    (api : CertificatesApi) (now : Time) (csr : Csr) (s : State) (e : Error)
    → is_approved csr ≡ false
    → api.new_for_config ≡ some e
    → approve api now csr s ≡ (s, some e)
unfolding approve is_approved is_approval with_condition
approve_no_client api now csr s e h failed =
    let absent = replace_condition-absent (approved_condition now) csr.conditions h in
    rw (absent, failed)

-- What is sent is approved, and by this program.
pub approved_csr-is_approved :
    (now : Time) (csr : Csr)
    → is_approved csr ≡ false
    → (is_approved (approved_csr now csr) ≡ true)
      × (is_approved_by_cma (approved_csr now csr) ≡ true)
unfolding approved_csr is_approved is_approval is_approved_by_cma approved_condition
approved_csr-is_approved now csr h =
    let found =
      find_complete approval csr.conditions [] {x = approved_condition now}
        (eq_refl certificate_approved) h in
    (
      any-last approval csr.conditions (eq_refl certificate_approved),
      rw found (eq_refl csr_condition_approve_message),
    )
  where
    approval : Condition → Bool
    approval x = x.type == certificate_approved
