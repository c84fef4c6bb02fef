-- ===== src/CsrCheck/Authorize/Refusals.antt =====
-- The refusals of `authorizeCSR`: an error asks the controller for another try, and without one the
-- refusal is final.
use cluster_machine_approver.Prelude.{
  ◌≡◌, refl, inl, inr, ◌≢◌, Bool, false, Option, none, some, List, String, ◌==◌, eq_iff, Error,
  Errors, none_yet, append_error, egress_unknown, exhausted, Result, ok, err, arith, Bool-cases,
}
use cluster_machine_approver.Kube.{Csr, CertificateRequest, CertPool}
use cluster_machine_approver.Kube.Outside.{Libs, Client}
use cluster_machine_approver.Config.{ClusterMachineApproverConfig}
use cluster_machine_approver.MachineHandler.{Machine}
use cluster_machine_approver.NodeClient.{is_node_client_cert}
use cluster_machine_approver.NodeClient.Laws.{IsClientRequest, is_node_client_cert_iff}
use cluster_machine_approver.CsrCheck.Contents.{validate_csr_contents}
use cluster_machine_approver.CsrCheck.Contents.Laws.{IsServingRequest, validate_csr_contents_iff}
use cluster_machine_approver.CsrCheck.Egress.{needs_egress_check}
use cluster_machine_approver.CsrCheck.MachineNames.{authorize_serving_cert_with_machine}
use cluster_machine_approver.CsrCheck.ClientFlow.{Verdict}
use cluster_machine_approver.CsrCheck.Authorize.{
  Attempt, skipped, authorized, refused, attempt_of, try_next, existing_serving_cert,
  renewal_attempt, egress_attempt, on_egress, egress_stage, machine_stage, authorize_serving,
  on_contents, authorize_csr,
}

-- A refusal has an error.
abbrev IsRetried : Verdict → Type 0
IsRetried v = v.0 ≡ false → (e : Error) × (v ≡ (false, some e))

try_next-IsRetried :
    (a : Attempt) (errors : Errors) (rest : Errors → Verdict)
    → ((errors' : Errors) → IsRetried (rest errors'))
    → IsRetried (try_next a errors rest)
try_next-IsRetried skipped errors rest k = k errors
try_next-IsRetried authorized errors rest k = λ h. cc
try_next-IsRetried (refused e) errors rest k = k (append_error errors e)

on_egress-IsRetried :
    (errors : Errors) (egress : Bool → Attempt) (r : Result Bool)
    → IsRetried (on_egress errors egress r)
on_egress-IsRetried errors egress (err e) = λ h. (egress_unknown e, refl)
on_egress-IsRetried errors egress (ok b) =
    try_next-IsRetried (egress b) errors _ (λ errors' h. (exhausted errors', refl))

authorize_serving-IsRetried :
    (lib : Libs) (c : Client) (machines : List Machine) (node : String) (csr : CertificateRequest)
    (ca : Option CertPool)
    → IsRetried (authorize_serving lib c machines node csr ca)
unfolding authorize_serving machine_stage egress_stage
authorize_serving-IsRetried lib c machines node csr ca =
    let existing = existing_serving_cert lib c node ca in
    try_next-IsRetried (renewal_attempt lib node csr ca existing) none_yet
      (machine_stage lib c machines node csr ca existing)
      λ errors.
        try_next-IsRetried (attempt_of (authorize_serving_cert_with_machine lib machines node csr))
          errors (egress_stage lib c node csr ca existing)
          λ errors'.
            on_egress-IsRetried errors' (egress_attempt lib c node csr ca existing)
              (needs_egress_check c)

on_contents-named :
    (serve : String → Verdict) (node : String)
    → node ≢ ""
    → on_contents serve (ok node) ≡ serve node
on_contents-named serve node n = ground (arith, eq_iff node "")

no_client :
    (req : Csr) (csr : CertificateRequest)
    → ((other : String) → ¬ IsClientRequest req csr other)
    → is_node_client_cert req csr ≡ false
no_client req csr other = elim (Bool-cases (is_node_client_cert req csr)) [
  | inl client ↦ let (n, r) = (is_node_client_cert_iff req csr).0 client in absurd (other n r)
  | inr e ↦ e
]

-- A serving request of a node, which is no client certificate request, is never refused without an
-- error, whatever the cluster, the configuration and the machines are.
pub authorize_csr_retries :
    (lib : Libs) (c : Client) (config : ClusterMachineApproverConfig) (machines : List Machine)
    (req : Csr) (csr : CertificateRequest) (ca : Option CertPool) (node : String)
    → ((other : String) → ¬ IsClientRequest req csr other)
    → IsServingRequest req csr node
    → (authorize_csr lib c config machines (some req) (some csr) ca).0 ≡ false
    → (e : Error) × (authorize_csr lib c config machines (some req) (some csr) ca ≡ (false, some e))
unfolding authorize_csr
authorize_csr_retries lib c config machines req csr ca node other s =
    rw
      (
        no_client req csr other,
        (validate_csr_contents_iff lib req csr node s.named).1 s,
        on_contents-named (λ n. authorize_serving lib c machines n csr ca) node s.named,
      )
      (authorize_serving-IsRetried lib c machines node csr ca)

-- A request that is neither a client certificate request nor a serving request of any node is refused
-- without an error, whatever the cluster, the configuration and the machines are.
pub authorize_csr_foreign :
    (lib : Libs) (c : Client) (config : ClusterMachineApproverConfig) (machines : List Machine)
    (req : Csr) (csr : CertificateRequest) (ca : Option CertPool)
    → ((node : String) → ¬ IsClientRequest req csr node)
    → ((node : String) → ¬ IsServingRequest req csr node)
    → authorize_csr lib c config machines (some req) (some csr) ca ≡ (false, none)
unfolding authorize_csr
authorize_csr_foreign lib c config machines req csr ca other strange =
    rw (no_client req csr other) (refused_by (validate_csr_contents lib req csr) refl)
  where
    refused_by :
        (r : Result String)
        → validate_csr_contents lib req csr ≡ r
        → on_contents (λ n. authorize_serving lib c machines n csr ca) r ≡ (false, none)
    refused_by (err e) p = refl
    refused_by (ok node) p = elim (Bool-cases (node == "")) [
      | inl empty ↦ rw empty
      | inr named ↦
          let n : node ≢ "" = λ e. ground (arith, eq_iff node "") in
          absurd (strange node ((validate_csr_contents_iff lib req csr node n).0 p))
    ]
