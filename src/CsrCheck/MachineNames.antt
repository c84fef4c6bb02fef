-- ===== src/CsrCheck/MachineNames.antt =====
-- `authorizeServingCertWithMachine`: the names asked for against the addresses of the node's machine.
pub mod Laws
use cluster_machine_approver.Prelude.{
  Bool, false, ◌&&◌, ◌||◌, not, Option, none, some, List, [], ◌∷◌, ◌++◌, String, ◌==◌, Error,
  no_machine_for_serving, dns_name_not_in_machine, ip_address_not_in_machine, Result, ok, err,
  ◌then_check◌, nat_eq, length, if◌then◌else◌,
}
use cluster_machine_approver.GoStd.Ip.{Ip, to_string}
use cluster_machine_approver.GoStd.Strings.{equal_fold}
use cluster_machine_approver.Kube.{
  CertificateRequest, NodeAddress, node_internal_dns, node_external_dns, node_host_name,
  node_internal_ip, node_external_ip,
}
use cluster_machine_approver.Kube.Outside.{Libs}
use cluster_machine_approver.MachineHandler.{Machine, find_matching_machine_from_node_ref}

unfoldable pub is_dns_type : String → Bool
is_dns_type type =
    type == node_internal_dns || (type == node_external_dns || type == node_host_name)

unfoldable pub is_ip_type : String → Bool
is_ip_type type = type == node_internal_ip || type == node_external_ip

-- The loop over the addresses, over `foundSan` and `attemptedAddresses`. Its `break` leaves the
-- `switch` alone, so the loop goes on.
unfoldable pub scan_addresses :
    (is_kind matches : String → Bool)
    → (found : Bool) → (attempted : List String) → List NodeAddress
    → Bool × List String
scan_addresses is_kind matches found attempted [] = (found, attempted)
scan_addresses is_kind matches found attempted (addr ∷ addresses) =
    let hit = is_kind addr.type && matches addr.address in
    let miss = is_kind addr.type && not (matches addr.address) in
    scan_addresses is_kind matches (found || hit)
      (if miss then attempted ++ addr.address ∷ [] else attempted) addresses

unfoldable pub check_dns_names : Libs → Machine → List String → Option Error
unfolding scan_addresses is_dns_type
check_dns_names lib machine [] = none
check_dns_names lib machine (san ∷ sans) =
    let (found_san, attempted) =
      scan_addresses is_dns_type (equal_fold lib.fold san) false [] machine.addresses in
    (if san == ""
      then none
      else if not found_san
      then some (dns_name_not_in_machine san attempted)
      else none)
    then_check check_dns_names lib machine sans

unfoldable pub check_ip_addresses : Machine → List Ip → Option Error
unfolding scan_addresses is_ip_type
check_ip_addresses machine [] = none
check_ip_addresses machine (san ∷ sans) =
    let (found_san, attempted) =
      scan_addresses is_ip_type (λ address. to_string san == address) false [] machine.addresses in
    (if nat_eq (length san) 0
      then none
      else if not found_san
      then some (ip_address_not_in_machine (to_string san) attempted)
      else none)
    then_check check_ip_addresses machine sans

abbrev check_names : Libs → CertificateRequest → Result Machine → Option Error
check_names lib csr (err e) = some no_machine_for_serving
check_names lib csr (ok machine) =
    check_dns_names lib machine csr.dns_names then_check check_ip_addresses machine csr.ip_addresses

unfoldable pub authorize_serving_cert_with_machine :
    Libs → List Machine → (node_asking : String) → CertificateRequest → Option Error
unfolding check_dns_names check_ip_addresses
authorize_serving_cert_with_machine lib machines node_asking csr =
    check_names lib csr (find_matching_machine_from_node_ref machines node_asking)
