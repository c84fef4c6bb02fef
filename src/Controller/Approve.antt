-- ===== src/Controller/Approve.antt =====
-- `approve` and `hasSameState`
pub mod Laws
pub mod Twice
use cluster_machine_approver.Prelude.{
  Bool, true, false, ◌&&◌, not, Option, none, some, List, [], ◌∷◌, ◌++◌, String, ◌==◌, Error,
  Result, if◌then◌else◌,
}
use cluster_machine_approver.Kube.{Time, Condition, Csr, certificate_approved}
use cluster_machine_approver.CsrCheck.Conditions.{csr_condition_approve_message}
use cluster_machine_approver.Controller.Limits.{State}

-- The typed client for certificates: its construction, the approval subresource, the uncached list.
pub record CertificatesApi : Type 0 where
  pub new_for_config : Option Error
  pub update_approval : Csr → Option Error
  pub list : Result (List Csr)

unfoldable pub has_same_state : Condition → Condition → Bool
has_same_state i j =
    i.type == j.type && (i.status == j.status && (i.reason == j.reason && i.message == j.message))

unfoldable pub approved_condition : (now : Time) → Condition
approved_condition now = record {
  type = certificate_approved;
  status = "True";
  reason = "NodeCSRApprove";
  message = csr_condition_approve_message;
  last_update_time = now;
  last_transition_time = now;
}

-- The loop over the conditions: the conditions after it, `exists` and `needsupdate`.
unfoldable pub replace_condition : Condition → List Condition → List Condition × Bool × Bool
unfolding has_same_state
replace_condition condition [] = ([], false, false)
replace_condition condition (existing ∷ rest) =
    let (rest', exists, needs_update) = replace_condition condition rest in
    if existing.type == condition.type
    then if not (has_same_state existing condition)
      then (condition ∷ rest, true, true)
      else (existing ∷ rest, true, false)
    else (existing ∷ rest', exists, needs_update)

-- The conditions with the approval, and whether they have changed.
unfoldable pub with_condition : Condition → List Condition → List Condition × Bool
unfolding replace_condition
with_condition condition conditions =
    let (conditions', exists, needs_update) = replace_condition condition conditions in
    if not exists then (conditions' ++ condition ∷ [], true) else (conditions', needs_update)

-- A client that cannot be made sends nothing.
abbrev pub send : CertificatesApi → Csr → State → State × Option Error
send api csr s = send_with api.new_for_config
  where
    send_with : Option Error → State × Option Error
    send_with (some e) = (s, some e)
    send_with none = (record s { sent = csr ∷ s.sent }, api.update_approval csr)

unfoldable pub approve : CertificatesApi → (now : Time) → Csr → State → State × Option Error
unfolding with_condition approved_condition
approve api now csr s =
    let (conditions, needs_update) = with_condition (approved_condition now) csr.conditions in
    if needs_update then send api (record csr { conditions = conditions }) s else (s, none)
