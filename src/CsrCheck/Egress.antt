-- ===== src/CsrCheck/Egress.antt =====
-- `authorizeServingRenewalWithEgressIPs` and `needsEgressCheck`.
pub mod Laws
use cluster_machine_approver.Prelude.{
  Bool, ◌&&◌, not, Option, none, some, List, [], ◌∷◌, ◌++◌, map, String, ◌==◌, Error,
  sans_do_not_match, unknown_ip_addresses, host_subnet_failed, egress_cidr_failed, network_failed,
  Result, ok, err, ◌>>=◌, wrap_error, ◌then_check◌, if◌then◌else◌,
}
use cluster_machine_approver.GoStd.ParseIp.{parse_ip}
use cluster_machine_approver.GoStd.ParseCidr.{parse_cidr}
use cluster_machine_approver.GoStd.Ip.{Ip, IpNet}
use cluster_machine_approver.Kube.{CertificateRequest, Certificate, CertPool, HostSubnet}
use cluster_machine_approver.Kube.Outside.{Libs, Client}
use cluster_machine_approver.CsrCheck.{network_type_openshift_sdn, network_cluster_name}
use cluster_machine_approver.CsrCheck.Sans.{equal_strings, equal_urls, subset_ip_addresses}
use cluster_machine_approver.CsrCheck.Renewal.{verify_certificate_common_name}

-- The loop over `EgressCIDRs`, which stops at the first that does not parse.
unfoldable pub parse_cidrs : List String → Result (List IpNet)
parse_cidrs [] = ok []
parse_cidrs (egress_cidr ∷ rest) = do
  cidr ← wrap_error egress_cidr_failed (parse_cidr egress_cidr)
  cidrs ← parse_cidrs rest
  ok (cidr ∷ cidrs)

abbrev check_ips : (super sub : List Ip) → Result (List IpNet) → Option Error
check_ips super sub (err e) = some e
check_ips super sub (ok cidrs) =
    if not (subset_ip_addresses cidrs super sub) then some unknown_ip_addresses else none

abbrev check_subnet : (current requested : List Ip) → Result HostSubnet → Option Error
check_subnet current requested (err e) = some (host_subnet_failed e)
check_subnet current requested (ok host_subnet) =
    check_ips (current ++ map parse_ip host_subnet.egress_ips) requested
      (parse_cidrs host_subnet.egress_cidrs)

unfoldable pub authorize_serving_renewal_with_egress_ips :
    Libs
    → Client
    → (node_name : String) → CertificateRequest
    → Certificate
    → Option CertPool
    → Option Error
unfolding parse_cidrs
authorize_serving_renewal_with_egress_ips lib c node_name csr current_cert roots =
    verify_certificate_common_name lib node_name (some csr) (some current_cert) roots
    then_check (let match =
          equal_strings current_cert.dns_names csr.dns_names
          && (equal_strings current_cert.email_addresses csr.email_addresses
              && equal_urls current_cert.uris csr.uris) in
        if not match then some sans_do_not_match else none)
    then_check check_subnet current_cert.ip_addresses csr.ip_addresses (c.get_host_subnet node_name)

unfoldable pub needs_egress_check : Client → Result Bool
needs_egress_check c = do
  network ← wrap_error network_failed (c.get_network network_cluster_name)
  ok (network.network_type == network_type_openshift_sdn)
