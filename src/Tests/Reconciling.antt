-- ===== src/Tests/Reconciling.antt =====
-- Reconciles of the two requests, and a run of them.
use mathlib.Core.List.{Memᴰ}
use cluster_machine_approver.Prelude.{
  ◌≡◌, refl, sym, subst, ◌⊎◌, inl, true, false, some, [], ◌∷◌, ok, arith,
}
use cluster_machine_approver.Kube.{Csr}
use cluster_machine_approver.Config.{default_config}
use cluster_machine_approver.CsrCheck.Conditions.{is_approved, in_time_span, is_approval}
use cluster_machine_approver.CsrCheck.Authorize.{
  authorize_csr, authorize_serving, existing_serving_cert, egress_attempt, egress_stage,
  machine_stage, renewal_attempt,
}
use cluster_machine_approver.CsrCheck.Authorize.Decision.{authorize_csr_iff}
use cluster_machine_approver.Controller.Filters.{lookup}
use cluster_machine_approver.Controller.Approve.{approved_condition}
use cluster_machine_approver.Controller.Approve.Laws.{approved_csr}
use cluster_machine_approver.Controller.Reconcile.{
  read_inputs, reconcile, Inputs, CertificateApprover,
}
use cluster_machine_approver.Controller.Reconcile.OneRequest.{MayApprove}
use cluster_machine_approver.Controller.Reconcile.Safety.{Grounds, reconcile_safe, reconcile_live}
use cluster_machine_approver.Controller.Reconcile.Runs.{Reach, here, next, step}
use cluster_machine_approver.Prelude.Int.{◌-ℤ◌, ◌+ℤ◌}
use cluster_machine_approver.CsrCheck.Requester.{is_req_from_node_bootstrapper}
use cluster_machine_approver.NodeClient.{is_node_client_cert, has_exact_usages}
use cluster_machine_approver.CsrCheck.Contents.{validate_csr_contents}
use cluster_machine_approver.GoStd.Strings.{
  has_prefix, trim_prefix, join_host_port, itoa, equal_fold, fold_rune, strip_prefix,
}
use cluster_machine_approver.CsrCheck.ServingCert.{
  get_serving_cert, node_internal_ip_of, first_internal_ip,
}
use cluster_machine_approver.CsrCheck.Renewal.{
  authorize_serving_renewal, verify_certificate_common_name,
}
use cluster_machine_approver.CsrCheck.Sans.{
  equal_strings, equal_ip_addresses, equal_urls, ip_in_set, subset_ip_addresses,
}
use cluster_machine_approver.GoStd.Sort.{sort_strings, insert, str_leb}
use cluster_machine_approver.GoStd.Ip.{to_string, net_contains, to4}
use cluster_machine_approver.CsrCheck.ClientFlow.{authorize_node_client_csr, judge_machine}
use cluster_machine_approver.CsrCheck.Egress.{
  authorize_serving_renewal_with_egress_ips, needs_egress_check, parse_cidrs,
}
use cluster_machine_approver.CsrCheck.MachineNames.{
  authorize_serving_cert_with_machine, check_dns_names, check_ip_addresses, is_dns_type, is_ip_type,
  scan_addresses,
}
use cluster_machine_approver.MachineHandler.{
  find_matching_machine_from_internal_dns, find_matching_machine_from_node_ref, has_internal_dns,
  has_node_ref, list_machines,
}
use cluster_machine_approver.Controller.KubeletCa.{parse_csr, get_kubelet_ca}
use cluster_machine_approver.Controller.Reconcile.Once.{reconcile_once}
use cluster_machine_approver.Controller.Reconcile.Variables.{Counts, reconcile-Counts}
use cluster_machine_approver.Controller.Reconcile.Uint32.{AreUint32}
use cluster_machine_approver.Tests.World.{
  lib, client, approver, start, machines, node2, client_csr, serving_csr, serving_request, pool,
  at_hour,
}
use cluster_machine_approver.Tests.Controlling.{approved_client_csr, few_pending}

pub serving_waits : is_approved serving_csr ≡ false
unfolding is_approved
serving_waits = refl

abbrev read : Inputs
read = record { csrs = client_csr ∷ serving_csr ∷ []; machines = machines; nodes = node2 ∷ [] }

serving_authorized :
    (authorize_csr lib client default_config machines
      (some serving_csr)
      (some serving_request)
      (some pool)).0
    ≡ true
unfolding authorize_csr is_node_client_cert validate_csr_contents has_prefix trim_prefix
    authorize_serving existing_serving_cert get_serving_cert node_internal_ip_of join_host_port itoa
    authorize_serving_renewal verify_certificate_common_name equal_strings sort_strings
    equal_ip_addresses to_string equal_urls egress_attempt egress_stage machine_stage
    renewal_attempt authorize_node_client_csr judge_machine in_time_span
    authorize_serving_renewal_with_egress_ips needs_egress_check parse_cidrs
    authorize_serving_cert_with_machine check_dns_names check_ip_addresses is_dns_type is_ip_type
    scan_addresses is_req_from_node_bootstrapper ip_in_set subset_ip_addresses first_internal_ip
    net_contains to4 insert str_leb equal_fold fold_rune strip_prefix
    find_matching_machine_from_internal_dns find_matching_machine_from_node_ref has_internal_dns
    has_node_ref has_exact_usages ◌+ℤ◌ ◌-ℤ◌
serving_authorized = refl

pub serving_may : MayApprove lib approver machines serving_csr
unfolding parse_csr get_kubelet_ca lookup
serving_may = record {
  pending = serving_waits;
  request = serving_request;
  parsed = refl;
  authorized =
      (authorize_csr_iff lib client default_config machines serving_csr serving_request
          (some pool)).0
        serving_authorized;
}

inputs_read : read_inputs approver ≡ ok read
unfolding read_inputs list_machines
inputs_read = refl

pub serving-Grounds : Grounds lib approver "csr-2" serving_csr
serving-Grounds = record {
  inputs = read;
  read = inputs_read;
  within = inl (omega (arith, few_pending));
  found = refl;
  may = serving_may;
  made = refl;
}

abbrev pub sent_csr : Csr
sent_csr = approved_csr (at_hour 101) serving_csr

pub csr_sent : (reconcile lib approver "csr-2" start).0.sent ≡ sent_csr ∷ []
csr_sent = reconcile_live lib approver "csr-2" serving_csr start serving-Grounds

one_step : Reach lib start (reconcile lib approver "csr-2" start).0
one_step = next here (step approver "csr-2" start (reconcile lib approver "csr-2" start).0 refl)

sent_in : Memᴰ sent_csr (reconcile lib approver "csr-2" start).0.sent
sent_in = subst (λ l. Memᴰ sent_csr l) (sym csr_sent) (Memᴰ.head refl)

reconcile_safe_example :
    ((reconcile lib approver "csr-1" start).0.sent ≡ [])
    ⊎ ((csr : Csr) × Grounds lib approver "csr-1" csr
        × ((reconcile lib approver "csr-1" start).0.sent ≡ approved_csr (at_hour 101) csr ∷ []))
reconcile_safe_example = reconcile_safe lib approver "csr-1" start

reconcile_live_example : (reconcile lib approver "csr-2" start).0.sent ≡ sent_csr ∷ []
reconcile_live_example = reconcile_live lib approver "csr-2" serving_csr start serving-Grounds

abbrev later : CertificateApprover
later = record approver {
  node_client = record client { list_csrs = ok (approved_client_csr ∷ []) };
}

abbrev read_later : Inputs
read_later = record read { csrs = approved_client_csr ∷ [] }

later_read : read_inputs later ≡ ok read_later
unfolding read_inputs list_machines
later_read = refl

client_done : is_approved approved_client_csr ≡ true
unfolding is_approved is_approval approved_condition
client_done = refl

start_fits : AreUint32 start
start_fits = record { max_pending = omega arith; pending = omega arith }

reconcile_once_example : (reconcile lib later "csr-1" start).0.sent ≡ []
reconcile_once_example =
    reconcile_once lib later "csr-1" approved_client_csr read_later start later_read refl
      client_done

reconcile-Counts_example :
    Counts lib approver "csr-2" read start (reconcile lib approver "csr-2" start).0
reconcile-Counts_example = reconcile-Counts lib approver "csr-2" read start inputs_read
