-- ===== src/Tests/Checking.antt =====
-- The checks of a request by themselves, the look-up of machines, and the count of requests.
use cluster_machine_approver.Prelude.{
  ◌≡◌, refl, ◌≢◌, true, some, [], ◌∷◌, String, eq_iff, arith, missing_usages, machine_not_found,
  dns_name_not_in_machine, ok, err,
}
use cluster_machine_approver.GoStd.Ip.{Ip, to_string, net_contains}
use cluster_machine_approver.Kube.{
  Csr, usage_digital_signature, usage_server_auth, usage_client_auth,
}
use cluster_machine_approver.MachineHandler.{
  list_machines, find_matching_machine_from_node_ref, find_matching_machine_from_internal_dns,
}
use cluster_machine_approver.MachineHandler.Listing.{Lists, list_machines_iff}
use cluster_machine_approver.NodeClient.{is_node_client_cert}
use cluster_machine_approver.NodeClient.Laws.{IsClientRequest, is_node_client_cert_iff}
use cluster_machine_approver.CsrCheck.Contents.{validate_csr_contents}
use cluster_machine_approver.CsrCheck.Contents.Laws.{
  IsServingRequest, validate_csr_contents_iff, validate_csr_contents-third_usage,
}
use cluster_machine_approver.CsrCheck.Sans.{subset_ip_addresses, equal_ip_addresses}
use cluster_machine_approver.CsrCheck.MachineNames.{authorize_serving_cert_with_machine}
use cluster_machine_approver.CsrCheck.Conditions.{
  is_pending, is_approved, in_time_span, is_approval,
}
use cluster_machine_approver.Controller.Approve.{approved_condition}
use cluster_machine_approver.GoStd.Strings.{has_prefix, trim_prefix, equal_fold}
use cluster_machine_approver.GoStd.Sort.{sort_strings}
use cluster_machine_approver.Prelude.Int.{◌-ℤ◌, ◌+ℤ◌}
use cluster_machine_approver.CsrCheck.Requester.{is_req_from_node_bootstrapper}
use cluster_machine_approver.Tests.World.{
  lib, machines, machine1, machine2, machine_api, gv, client_csr, client_request, serving_csr,
  serving_request, at_hour, ip2, ten_net,
}

abbrev mapped_ip2 : Ip
mapped_ip2 = 0 ∷ 0 ∷ 0 ∷ 0 ∷ 0 ∷ 0 ∷ 0 ∷ 0 ∷ 0 ∷ 0 ∷ 255 ∷ 255 ∷ ip2

abbrev other_ip : Ip
other_ip = 192 ∷ 168 ∷ 0 ∷ 1 ∷ []

abbrev approved_client_csr : Csr
approved_client_csr = record client_csr { conditions = approved_condition (at_hour 101) ∷ [] }

abbrev worker2 : String
worker2 = "worker-2"

named : worker2 ≢ ""
named e = ground (arith, eq_iff "worker-2" "")

contents_accepted : validate_csr_contents lib serving_csr serving_request ≡ ok "worker-2"
unfolding validate_csr_contents has_prefix trim_prefix
contents_accepted = refl

contents_of_client :
    validate_csr_contents lib (record serving_csr { usages = client_csr.usages }) serving_request
    ≡ err (missing_usages client_csr.usages)
unfolding validate_csr_contents has_prefix trim_prefix
contents_of_client = refl

short_accepted :
    validate_csr_contents lib
      (record serving_csr { usages = usage_digital_signature ∷ usage_server_auth ∷ [] })
      serving_request
    ≡ ok "worker-2"
unfolding validate_csr_contents has_prefix trim_prefix
short_accepted = refl

client_recognised : is_node_client_cert client_csr client_request ≡ true
unfolding is_node_client_cert has_prefix
client_recognised = refl

found_by_dns : find_matching_machine_from_internal_dns machines "worker-1" ≡ ok machine1
unfolding find_matching_machine_from_internal_dns
found_by_dns = refl

found_by_ref : find_matching_machine_from_node_ref machines "worker-2" ≡ ok machine2
unfolding find_matching_machine_from_node_ref
found_by_ref = refl

not_found_by_ref : find_matching_machine_from_node_ref machines "worker-1" ≡ err machine_not_found
unfolding find_matching_machine_from_node_ref
not_found_by_ref = refl

unknown_name_refused :
    authorize_serving_cert_with_machine lib machines "worker-2"
      (record serving_request { dns_names = "other.local" ∷ [] })
    ≡ some (dns_name_not_in_machine "other.local" ("worker-2.LOCAL" ∷ []))
unfolding authorize_serving_cert_with_machine find_matching_machine_from_node_ref equal_fold
unknown_name_refused = refl

machines_listed : list_machines machine_api "" gv ≡ ok machines
unfolding list_machines
machines_listed = refl

subset_accepted :
    subset_ip_addresses (ten_net ∷ []) (other_ip ∷ []) (mapped_ip2 ∷ other_ip ∷ []) ≡ true
unfolding subset_ip_addresses to_string net_contains
subset_accepted = refl

ips_equal : equal_ip_addresses (ip2 ∷ other_ip ∷ []) (other_ip ∷ mapped_ip2 ∷ []) ≡ true
unfolding equal_ip_addresses sort_strings to_string
ips_equal = refl

client_pending : is_pending lib (at_hour 101) client_csr ≡ true
unfolding is_pending in_time_span ◌-ℤ◌ ◌+ℤ◌ is_req_from_node_bootstrapper is_approved
client_pending = refl

client_approved : is_approved approved_client_csr ≡ true
unfolding is_approved is_approval approved_condition
client_approved = refl

validate_csr_contents_iff_example : IsServingRequest serving_csr serving_request "worker-2"
validate_csr_contents_iff_example =
    (validate_csr_contents_iff lib serving_csr serving_request "worker-2" named).0 contents_accepted

validate_csr_contents-third_usage_example :
    validate_csr_contents lib
      (record serving_csr {
        usages = usage_digital_signature ∷ usage_server_auth ∷ usage_client_auth ∷ [];
      })
      serving_request
    ≡ ok "worker-2"
validate_csr_contents-third_usage_example =
    validate_csr_contents-third_usage lib serving_csr serving_request "worker-2" usage_client_auth
      named short_accepted

is_node_client_cert_iff_example : (node : String) × IsClientRequest client_csr client_request node
is_node_client_cert_iff_example =
    (is_node_client_cert_iff client_csr client_request).0 client_recognised

list_machines_iff_example : Lists machine_api "" gv machines
list_machines_iff_example = (list_machines_iff machine_api "" gv machines).0 machines_listed
