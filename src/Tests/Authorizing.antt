-- ===== src/Tests/Authorizing.antt =====
-- `authorizeCSR` and its ways: a new node's request, and a known node's.
use mathlib.Core.List.{Perm}
use cluster_machine_approver.Prelude.{
  ◌≡◌, refl, ap, true, false, none, some, [], ◌∷◌, flow_disabled, ok, Error, String, ◌≢◌, eq_iff,
  arith, sym, ◌∙◌, ok_injective,
}
use cluster_machine_approver.Prelude.Int.{◌-ℤ◌, ◌+ℤ◌}
use cluster_machine_approver.GoStd.Strings.{
  trim_prefix, has_prefix, equal_fold, join_host_port, itoa,
}
use cluster_machine_approver.Kube.{CertificateRequest, Csr}
use cluster_machine_approver.Config.{default_config}
use cluster_machine_approver.MachineHandler.{
  Machine, find_matching_machine_from_node_ref, find_matching_machine_from_internal_dns,
}
use cluster_machine_approver.CsrCheck.{node_user_prefix}
use cluster_machine_approver.CsrCheck.Sans.{
  csr_sans, cert_sans, equal_strings, equal_ip_addresses, equal_urls, subset_ip_addresses,
}
use cluster_machine_approver.CsrCheck.Renewal.{
  authorize_serving_renewal, verify_certificate_common_name,
}
use cluster_machine_approver.CsrCheck.Renewal.Laws.{
  IsRenewal, authorize_serving_renewal_iff, authorize_serving_renewal-perm_sans,
}
use cluster_machine_approver.CsrCheck.Egress.{
  authorize_serving_renewal_with_egress_ips, needs_egress_check,
}
use cluster_machine_approver.CsrCheck.Egress.Laws.{
  IsEgressRenewal, authorize_serving_renewal_with_egress_ips_iff,
}
use cluster_machine_approver.CsrCheck.MachineNames.{authorize_serving_cert_with_machine}
use cluster_machine_approver.CsrCheck.MachineNames.Laws.{
  Vouches, authorize_serving_cert_with_machine_iff,
}
use cluster_machine_approver.CsrCheck.ClientFlow.{authorize_node_client_csr}
use cluster_machine_approver.CsrCheck.ClientFlow.Laws.{IsNewNode, authorize_node_client_csr_iff}
use cluster_machine_approver.CsrCheck.Authorize.{
  authorize_csr, authorize_serving, existing_serving_cert, egress_attempt,
}
use cluster_machine_approver.CsrCheck.Authorize.Spec.{IsAuthorized}
use cluster_machine_approver.CsrCheck.Authorize.Decision.{authorize_csr_iff}
use cluster_machine_approver.NodeClient.{is_node_client_cert}
use cluster_machine_approver.CsrCheck.Requester.{is_req_from_node_bootstrapper}
use cluster_machine_approver.CsrCheck.Conditions.{in_time_span}
use cluster_machine_approver.GoStd.Sort.{sort_strings}
use cluster_machine_approver.GoStd.Ip.{to_string}
use cluster_machine_approver.CsrCheck.Contents.{validate_csr_contents}
use cluster_machine_approver.NodeClient.Laws.{IsClientRequest, is_node_client_cert_iff}
use cluster_machine_approver.CsrCheck.Contents.Laws.{IsServingRequest, validate_csr_contents_iff}
use cluster_machine_approver.CsrCheck.ServingCert.{get_serving_cert, node_internal_ip_of}
use cluster_machine_approver.CsrCheck.ServingCert.Laws.{IsPresented, get_serving_cert_iff}
use cluster_machine_approver.CsrCheck.Authorize.Refusals.{
  authorize_csr_retries, authorize_csr_foreign,
}
use cluster_machine_approver.GoStd.ParseCidr.{parse_cidr}
use cluster_machine_approver.GoStd.ParseIp.{parse_ip}
use cluster_machine_approver.Tests.World.{
  lib, client, machines, client_csr, client_request, serving_csr, serving_request, serving_cert,
  pool, at_hour, ip2,
}

authorize_csr_of_client :
    authorize_csr lib client default_config machines
      (some client_csr)
      (some client_request)
      (some pool)
    ≡ (true, none)
unfolding authorize_csr is_node_client_cert has_prefix authorize_node_client_csr
    is_req_from_node_bootstrapper trim_prefix find_matching_machine_from_internal_dns in_time_span
    ◌-ℤ◌ ◌+ℤ◌
authorize_csr_of_client = refl

authorize_csr_without_flow :
    authorize_csr lib client
      (record { node_client_cert = record { disabled = true } })
      machines
      (some client_csr)
      (some client_request)
      (some pool)
    ≡ (false, some (flow_disabled "csr-1"))
unfolding authorize_csr is_node_client_cert has_prefix
authorize_csr_without_flow = refl

-- Three hours after its creation a machine is no longer new.
authorize_csr_too_late :
    authorize_csr lib client default_config machines
      (some (record client_csr { creation_timestamp = at_hour 103 }))
      (some client_request)
      (some pool)
    ≡ (false, none)
unfolding authorize_csr is_node_client_cert has_prefix authorize_node_client_csr
    is_req_from_node_bootstrapper trim_prefix find_matching_machine_from_internal_dns in_time_span
    ◌-ℤ◌ ◌+ℤ◌
authorize_csr_too_late = refl

renewal_authorized :
    authorize_serving_renewal lib "worker-2" serving_request serving_cert (some pool) ≡ none
unfolding authorize_serving_renewal verify_certificate_common_name equal_strings sort_strings
    equal_ip_addresses to_string equal_urls
renewal_authorized = refl

machine_authorized :
    authorize_serving_cert_with_machine lib machines "worker-2" serving_request ≡ none
unfolding authorize_serving_cert_with_machine find_matching_machine_from_node_ref equal_fold
    to_string
machine_authorized = refl

authorize_csr_of_serving :
    authorize_csr lib client default_config machines (some serving_csr) (some serving_request) none
    ≡ (true, none)
unfolding authorize_csr is_node_client_cert validate_csr_contents has_prefix trim_prefix
    authorize_serving existing_serving_cert authorize_serving_cert_with_machine
    find_matching_machine_from_node_ref equal_fold to_string
authorize_csr_of_serving = refl

abbrev egress_request : CertificateRequest
egress_request = record serving_request { ip_addresses = ip2 ∷ (10 ∷ 0 ∷ 0 ∷ 9 ∷ []) ∷ [] }

egress_authorized :
    authorize_serving_renewal_with_egress_ips lib client "worker-2" egress_request serving_cert
      (some pool)
    ≡ none
unfolding authorize_serving_renewal_with_egress_ips verify_certificate_common_name equal_strings
    sort_strings equal_urls subset_ip_addresses to_string parse_cidr parse_ip
egress_authorized = refl

client_authorized :
    authorize_node_client_csr lib client machines client_csr client_request ≡ (true, none)
unfolding authorize_node_client_csr is_req_from_node_bootstrapper trim_prefix
    find_matching_machine_from_internal_dns in_time_span ◌-ℤ◌ ◌+ℤ◌
client_authorized = refl

authorize_csr_iff_example :
    IsAuthorized lib client machines default_config client_csr client_request (some pool)
authorize_csr_iff_example =
    (authorize_csr_iff lib client default_config machines client_csr client_request (some pool)).0
      (ap (λ v. v.0) authorize_csr_of_client)

authorize_node_client_csr_iff_example :
    IsNewNode client machines client_csr (trim_prefix client_request.common_name node_user_prefix)
authorize_node_client_csr_iff_example =
    (authorize_node_client_csr_iff lib client machines client_csr client_request).0
      client_authorized

authorize_serving_cert_with_machine_iff_example :
    (machine : Machine) × (find_matching_machine_from_node_ref machines "worker-2" ≡ ok machine)
    × Vouches lib machine serving_request
authorize_serving_cert_with_machine_iff_example =
    (authorize_serving_cert_with_machine_iff lib machines "worker-2" serving_request).0
      machine_authorized

authorize_serving_renewal_iff_example : IsRenewal lib "worker-2" serving_request serving_cert pool
authorize_serving_renewal_iff_example =
    (authorize_serving_renewal_iff lib "worker-2" serving_request serving_cert pool).0
      renewal_authorized

authorize_serving_renewal_with_egress_ips_iff_example :
    IsEgressRenewal lib client "worker-2" egress_request serving_cert pool
authorize_serving_renewal_with_egress_ips_iff_example =
    (authorize_serving_renewal_with_egress_ips_iff lib client "worker-2" egress_request serving_cert
        pool).0
      egress_authorized

authorize_serving_renewal-perm_sans_example :
    Perm (cert_sans (some serving_cert)) (csr_sans (some serving_request))
authorize_serving_renewal-perm_sans_example =
    authorize_serving_renewal-perm_sans lib "worker-2" serving_request serving_cert pool
      renewal_authorized

serving_is_no_client : is_node_client_cert serving_csr serving_request ≡ false
unfolding is_node_client_cert
serving_is_no_client = refl

not_client :
    (req : Csr)
    → is_node_client_cert req serving_request ≡ false
    → (node : String) → ¬ IsClientRequest req serving_request node
not_client req e node s = cc ((is_node_client_cert_iff req serving_request).1 (node, s), e)

abbrev worker2 : String
worker2 = "worker-2"

named : worker2 ≢ ""
named e = ground (arith, eq_iff worker2 "")

contents_accepted : validate_csr_contents lib serving_csr serving_request ≡ ok worker2
unfolding validate_csr_contents has_prefix trim_prefix
contents_accepted = refl

is_serving : IsServingRequest serving_csr serving_request worker2
is_serving =
    (validate_csr_contents_iff lib serving_csr serving_request worker2 named).0 contents_accepted

refused_without_machine :
    (authorize_csr lib client default_config [] (some serving_csr) (some serving_request) none).0
    ≡ false
unfolding authorize_csr is_node_client_cert validate_csr_contents has_prefix trim_prefix
    authorize_serving existing_serving_cert authorize_serving_cert_with_machine
    find_matching_machine_from_node_ref needs_egress_check egress_attempt
refused_without_machine = refl

abbrev user_csr : Csr
user_csr = record serving_csr { username = "alice" }

user_is_no_client : is_node_client_cert user_csr serving_request ≡ false
unfolding is_node_client_cert
user_is_no_client = refl

user_is_no_node : validate_csr_contents lib user_csr serving_request ≡ ok ""
unfolding validate_csr_contents has_prefix
user_is_no_node = refl

user_not_serving : (node : String) → ¬ IsServingRequest user_csr serving_request node
user_not_serving node s =
    let accepted = (validate_csr_contents_iff lib user_csr serving_request node s.named).1 s in
    absurd (s.named (ok_injective (sym accepted ∙ user_is_no_node)))

cert_retrieved : get_serving_cert lib client "worker-2" (some pool) ≡ ok serving_cert
unfolding get_serving_cert node_internal_ip_of join_host_port itoa
cert_retrieved = refl

authorize_csr_retries_example :
    (e : Error) × (authorize_csr lib client default_config []
        (some serving_csr)
        (some serving_request)
        none
      ≡ (false, some e))
authorize_csr_retries_example =
    authorize_csr_retries lib client default_config [] serving_csr serving_request none worker2
      (not_client serving_csr serving_is_no_client) is_serving refused_without_machine

authorize_csr_foreign_example :
    authorize_csr lib client default_config machines
      (some user_csr)
      (some serving_request)
      (some pool)
    ≡ (false, none)
authorize_csr_foreign_example =
    authorize_csr_foreign lib client default_config machines user_csr serving_request (some pool)
      (not_client user_csr user_is_no_client) user_not_serving

get_serving_cert_iff_example : IsPresented lib client "worker-2" pool serving_cert
get_serving_cert_iff_example =
    (get_serving_cert_iff lib client "worker-2" pool serving_cert).0 cert_retrieved
