-- ===== src/CsrCheck/Renewal.antt =====
-- `verifyCertificateCommonName` and `authorizeServingRenewal`. No error is `none`.
pub mod Laws
use Prim.Native.String
use cluster_machine_approver.Prelude.{
  Bool, ◌&&◌, not, Option, none, some, String, ◌==◌, Error, nothing_to_verify, bad_common_name,
  common_name_changed, sans_do_not_match, ◌then_check◌, if◌then◌else◌,
}
use cluster_machine_approver.Kube.{CertificateRequest, Certificate, CertPool}
use cluster_machine_approver.Kube.Outside.{Libs}
use cluster_machine_approver.CsrCheck.{node_user}
use cluster_machine_approver.CsrCheck.Sans.{equal_strings, equal_urls, equal_ip_addresses}

-- The pointers are `Option`; `options` is its `Roots`.
unfoldable pub verify_certificate_common_name :
    Libs
    → (node_name : String) → Option CertificateRequest
    → Option Certificate
    → Option CertPool
    → Option Error
verify_certificate_common_name lib node_name (some csr) (some current_cert) (some roots) =
    lib.verify current_cert roots
    then_check (if not
          (current_cert.common_name == String.◌++◌ node_user (String.◌++◌ ":" node_name))
        then some bad_common_name
        else if not (current_cert.common_name == csr.common_name)
        then some common_name_changed
        else none)
verify_certificate_common_name lib node_name _ _ _ = some nothing_to_verify

unfoldable pub authorize_serving_renewal :
    Libs → (node_name : String) → CertificateRequest → Certificate → Option CertPool → Option Error
authorize_serving_renewal lib node_name csr current_cert roots =
    verify_certificate_common_name lib node_name (some csr) (some current_cert) roots
    then_check (let match =
          equal_strings current_cert.dns_names csr.dns_names
          && (equal_strings current_cert.email_addresses csr.email_addresses
              && (equal_ip_addresses current_cert.ip_addresses csr.ip_addresses
                  && equal_urls current_cert.uris csr.uris)) in
        if not match then some sans_do_not_match else none)
