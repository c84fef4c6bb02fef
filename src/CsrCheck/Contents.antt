-- ===== src/CsrCheck/Contents.antt =====
-- `validateCSRContents`: whether a request is for a serving certificate, and of which node.
pub mod Laws
use cluster_machine_approver.Prelude.{
  Bool, ◌&&◌, not, List, [], ◌∷◌, String, ◌==◌, Error, too_few_groups, missing_groups,
  too_few_usages, missing_usages, common_name_mismatch, organization_mismatch, Result, ok, err,
  length, contains, ltb, nat_eq, if◌then◌else◌,
}
use cluster_machine_approver.GoStd.Strings.{has_prefix, trim_prefix}
use cluster_machine_approver.Kube.{
  Csr, CertificateRequest, usage_digital_signature, usage_key_encipherment, usage_server_auth,
}
use cluster_machine_approver.Kube.Outside.{Libs}
use cluster_machine_approver.CsrCheck.{node_user_prefix, node_group, authenticated_group}

abbrev pub validation_usage_set_legacy : List String
validation_usage_set_legacy =
    usage_digital_signature ∷ usage_key_encipherment ∷ usage_server_auth ∷ []

abbrev pub validation_usage_set : List String
validation_usage_set = usage_digital_signature ∷ usage_server_auth ∷ []

-- The result "" with no error says that the request is not for a serving certificate.
unfoldable pub validate_csr_contents : Libs → Csr → CertificateRequest → Result String
validate_csr_contents lib req csr =
    if not (has_prefix req.username node_user_prefix)
    then ok ""
    else let node_asking = trim_prefix req.username node_user_prefix in
      if node_asking == ""
      then ok ""
      else if ltb (length req.groups) 2
      then err too_few_groups
      else if not (lib.sets.has_all req.groups (node_group ∷ authenticated_group ∷ []))
      then err (missing_groups req.groups)
      else if not (nat_eq (length req.usages) (length validation_usage_set_legacy))
          && not (nat_eq (length req.usages) (length validation_usage_set))
      then err too_few_usages
      else if not (lib.sets.has_all req.usages validation_usage_set)
          && not (lib.sets.has_all req.usages validation_usage_set_legacy)
      then err (missing_usages req.usages)
      else if not (csr.common_name == req.username)
      then err (common_name_mismatch csr.common_name req.username)
      else if not (contains node_group csr.organization)
      then err (organization_mismatch csr.organization)
      else ok node_asking
