-- ===== src/NodeClient.antt =====
-- pkg/controller/node_client.go
pub mod Laws
use cluster_machine_approver.Prelude.{
  Bool, true, false, ◌&&◌, ◌||◌, not, List, [], ◌∷◌, String, length, all, ltb, nat_eq, contains,
  texts_eq, if◌then◌else◌,
}
use cluster_machine_approver.GoStd.Strings.{has_prefix}
use cluster_machine_approver.Kube.{
  Csr, CertificateRequest, usage_digital_signature, usage_key_encipherment, usage_client_auth,
}

-- `usageMap` by its keys
unfoldable pub has_exact_usages : Csr → List String → Bool
has_exact_usages csr usages =
    if not (nat_eq (length usages) (length csr.usages))
    then false
    else all (λ u. contains u usages) csr.usages

abbrev pub kubelet_client_usages_legacy : List String
kubelet_client_usages_legacy =
    usage_key_encipherment ∷ usage_digital_signature ∷ usage_client_auth ∷ []

abbrev pub kubelet_client_usages : List String
kubelet_client_usages = usage_digital_signature ∷ usage_client_auth ∷ []

unfoldable pub is_node_client_cert : Csr → CertificateRequest → Bool
unfolding has_exact_usages
is_node_client_cert csr x509cr =
    if not (texts_eq ("system:nodes" ∷ []) x509cr.organization)
    then false
    else if ltb 0 (length x509cr.dns_names)
        || ltb 0 (length x509cr.email_addresses)
        || ltb 0 (length x509cr.ip_addresses)
    then false
    else if not (has_exact_usages csr kubelet_client_usages_legacy)
        && not (has_exact_usages csr kubelet_client_usages)
    then false
    else if not (has_prefix x509cr.common_name "system:node:")
    then false
    else true
