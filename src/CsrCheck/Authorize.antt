-- ===== src/CsrCheck/Authorize.antt =====
-- `authorizeCSR`: the client flow, and the serving flow with its three ways to be authorised.
pub mod Ways
pub mod Decision
pub mod Spec
pub mod Refusals
use cluster_machine_approver.Prelude.{
  Bool, true, false, ◌&&◌, Option, none, some, List, String, ◌==◌, Error, Errors, none_yet,
  append_error, flow_disabled, egress_unknown, exhausted, Result, ok, err, if◌then◌else◌,
}
use cluster_machine_approver.Kube.{Csr, CertificateRequest, Certificate, CertPool}
use cluster_machine_approver.Kube.Outside.{Libs, Client}
use cluster_machine_approver.Config.{ClusterMachineApproverConfig}
use cluster_machine_approver.MachineHandler.{Machine}
use cluster_machine_approver.NodeClient.{is_node_client_cert}
use cluster_machine_approver.CsrCheck.Contents.{validate_csr_contents}
use cluster_machine_approver.CsrCheck.Renewal.{authorize_serving_renewal}
use cluster_machine_approver.CsrCheck.Egress.{
  authorize_serving_renewal_with_egress_ips, needs_egress_check,
}
use cluster_machine_approver.CsrCheck.MachineNames.{authorize_serving_cert_with_machine}
use cluster_machine_approver.CsrCheck.ClientFlow.{Verdict, authorize_node_client_csr}
use cluster_machine_approver.CsrCheck.ServingCert.{get_serving_cert}

-- One way to be authorised, tried or not.
pub data Attempt : Type 0 where
  skipped : Attempt
  authorized : Attempt
  refused : Error → Attempt

abbrev pub attempt_of : Option Error → Attempt
attempt_of none = authorized
attempt_of (some e) = refused e

-- No error means that the way authorises the request; an error is kept, and the next way is tried.
abbrev pub try_next : Attempt → Errors → (Errors → Verdict) → Verdict
try_next skipped approval_errors rest = rest approval_errors
try_next authorized approval_errors rest = (true, none)
try_next (refused e) approval_errors rest = rest (append_error approval_errors e)

-- The kubelet's present certificate; an error leaves it nil.
abbrev ok_or_nil : Result Certificate → Option Certificate
ok_or_nil (ok cert) = some cert
ok_or_nil (err e) = none

unfoldable pub existing_serving_cert :
    Libs → Client → (node_asking : String) → Option CertPool → Option Certificate
existing_serving_cert lib c node_asking none = none
existing_serving_cert lib c node_asking (some ca) =
    ok_or_nil (get_serving_cert lib c node_asking (some ca))

unfoldable pub renewal_attempt :
    Libs
    → (node_asking : String) → CertificateRequest
    → Option CertPool
    → Option Certificate
    → Attempt
renewal_attempt lib node_asking csr ca none = skipped
renewal_attempt lib node_asking csr ca (some serving_cert) =
    attempt_of (authorize_serving_renewal lib node_asking csr serving_cert ca)

unfoldable pub egress_attempt :
    Libs
    → Client
    → (node_asking : String) → CertificateRequest
    → Option CertPool
    → Option Certificate
    → (egress_enabled : Bool) → Attempt
egress_attempt lib c node_asking csr ca none egress_enabled = skipped
egress_attempt lib c node_asking csr ca (some serving_cert) false = skipped
egress_attempt lib c node_asking csr ca (some serving_cert) true =
    attempt_of (authorize_serving_renewal_with_egress_ips lib c node_asking csr serving_cert ca)

abbrev on_egress : Errors → (Bool → Attempt) → Result Bool → Verdict
on_egress approval_errors egress (err e) = (false, some (egress_unknown e))
on_egress approval_errors egress (ok egress_enabled) =
    try_next (egress egress_enabled) approval_errors λ errors. (false, some (exhausted errors))

-- The last way, and the error of all that were tried.
unfoldable pub egress_stage :
    Libs
    → Client
    → (node_asking : String) → CertificateRequest
    → Option CertPool
    → Option Certificate
    → Errors
    → Verdict
egress_stage lib c node_asking csr ca serving_cert approval_errors =
    on_egress approval_errors (egress_attempt lib c node_asking csr ca serving_cert)
      (needs_egress_check c)

unfoldable pub machine_stage :
    Libs
    → Client
    → List Machine
    → (node_asking : String) → CertificateRequest
    → Option CertPool
    → Option Certificate
    → Errors
    → Verdict
unfolding egress_stage
machine_stage lib c machines node_asking csr ca serving_cert approval_errors =
    try_next (attempt_of (authorize_serving_cert_with_machine lib machines node_asking csr))
      approval_errors (egress_stage lib c node_asking csr ca serving_cert)

-- The serving flow, once the node that asks is known.
unfoldable pub authorize_serving :
    Libs
    → Client
    → List Machine
    → (node_asking : String) → CertificateRequest
    → Option CertPool
    → Verdict
unfolding renewal_attempt machine_stage
authorize_serving lib c machines node_asking csr ca =
    let serving_cert = existing_serving_cert lib c node_asking ca in
    try_next (renewal_attempt lib node_asking csr ca serving_cert) none_yet
      (machine_stage lib c machines node_asking csr ca serving_cert)

-- An error of the contents cannot be mended: it is logged, and no other try is asked for.
abbrev on_contents : (String → Verdict) → Result String → Verdict
on_contents serve (err e) = (false, none)
on_contents serve (ok node_asking) = if node_asking == "" then (false, none) else serve node_asking

-- The request and its parsed form are pointers.
unfoldable pub authorize_csr :
    Libs
    → Client
    → ClusterMachineApproverConfig
    → List Machine
    → Option Csr
    → Option CertificateRequest
    → Option CertPool
    → Verdict
authorize_csr lib c config machines (some req) (some csr) ca =
    if is_node_client_cert req csr
    then if config.node_client_cert.disabled
      then (false, some (flow_disabled req.name))
      else authorize_node_client_csr lib c machines req csr
    else on_contents (λ node_asking. authorize_serving lib c machines node_asking csr ca)
        (validate_csr_contents lib req csr)
authorize_csr lib c config machines _ _ ca = (false, none)
