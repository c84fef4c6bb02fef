-- ===== src/CsrCheck/Authorize/Decision.antt =====
-- `authorizeCSR` against the specification.
use cluster_machine_approver.Prelude.{
  ◌≡◌, refl, sym, ap, ◌∙◌, subst, ◌≢◌, ◌↔◌, inl, inr, Bool, true, false, Option, none, some, List,
  String, ◌==◌, eq_iff, Errors, none_yet, append_error, Result, ok, err, arith, Bool-cases,
}
use cluster_machine_approver.GoStd.Strings.{trim_prefix}
use cluster_machine_approver.GoStd.Strings.Prefix.{trim_prefix-append}
use cluster_machine_approver.Kube.{Csr, CertificateRequest, CertPool}
use cluster_machine_approver.Kube.Outside.{Libs, Client}
use cluster_machine_approver.Config.{ClusterMachineApproverConfig}
use cluster_machine_approver.MachineHandler.{Machine}
use cluster_machine_approver.NodeClient.{is_node_client_cert}
use cluster_machine_approver.NodeClient.Laws.{is_node_client_cert_iff}
use cluster_machine_approver.CsrCheck.{node_user_prefix}
use cluster_machine_approver.CsrCheck.Contents.{validate_csr_contents}
use cluster_machine_approver.CsrCheck.Contents.Laws.{validate_csr_contents_iff}
use cluster_machine_approver.CsrCheck.Egress.{needs_egress_check}
use cluster_machine_approver.CsrCheck.MachineNames.{authorize_serving_cert_with_machine}
use cluster_machine_approver.CsrCheck.ClientFlow.{Verdict, authorize_node_client_csr}
use cluster_machine_approver.CsrCheck.ClientFlow.Laws.{
  IsNewNode, IsClear, authorize_node_client_csr_iff, authorize_node_client_csr-IsClear,
}
use cluster_machine_approver.CsrCheck.Authorize.{
  Attempt, skipped, authorized, refused, attempt_of, try_next, existing_serving_cert,
  renewal_attempt, egress_attempt, on_egress, egress_stage, machine_stage, authorize_serving,
  on_contents, authorize_csr,
}
use cluster_machine_approver.CsrCheck.Authorize.Spec.{IsAuthorized, new_node, known_node}
use cluster_machine_approver.CsrCheck.Authorize.Ways.{
  yes_verdict, authorize_serving_sound, authorize_serving_complete,
}

try_next-IsClear :
    (a : Attempt) (errors : Errors) (rest : Errors → Verdict)
    → ((errors' : Errors) → IsClear (rest errors'))
    → IsClear (try_next a errors rest)
try_next-IsClear skipped errors rest k h = k errors h
try_next-IsClear authorized errors rest k h = refl
try_next-IsClear (refused e) errors rest k h = k (append_error errors e) h

on_egress-IsClear :
    (errors : Errors) (egress : Bool → Attempt) (r : Result Bool)
    → IsClear (on_egress errors egress r)
on_egress-IsClear errors egress (err e) h = cc
on_egress-IsClear errors egress (ok b) h = try_next-IsClear (egress b) errors _ (λ errors' k. cc) h

authorize_serving-IsClear :
    (lib : Libs) (c : Client) (machines : List Machine) (node : String) (csr : CertificateRequest)
    (ca : Option CertPool)
    → IsClear (authorize_serving lib c machines node csr ca)
unfolding authorize_serving machine_stage egress_stage
authorize_serving-IsClear lib c machines node csr ca =
    let existing = existing_serving_cert lib c node ca in
    try_next-IsClear (renewal_attempt lib node csr ca existing) none_yet
      (machine_stage lib c machines node csr ca existing)
      λ errors.
        try_next-IsClear (attempt_of (authorize_serving_cert_with_machine lib machines node csr))
          errors (egress_stage lib c node csr ca existing)
          λ errors'.
            on_egress-IsClear errors' (egress_attempt lib c node csr ca existing)
              (needs_egress_check c)

on_contents_sound :
    (serve : String → Verdict) (r : Result String)
    → (on_contents serve r).0 ≡ true
    → (node : String) × (r ≡ ok node) × (node ≢ "") × ((serve node).0 ≡ true)
on_contents_sound serve (err e) h = cc
on_contents_sound serve (ok node) h = elim (Bool-cases (node == "")) [
  | inl empty ↦ ground arith
  | inr named ↦ (node, refl, (λ e. ground (arith, eq_iff node "")), ground arith)
]

on_contents_complete :
    (serve : String → Verdict) {node : String} {v : Verdict}
    → node ≢ ""
    → serve node ≡ v
    → on_contents serve (ok node) ≡ v
on_contents_complete serve {node} n h = ground (arith, eq_iff node "")

not-eq-true : (b : Bool) → (b ≡ true → ⊥) → b ≡ false
not-eq-true true h = absurd (h refl)
not-eq-true false h = refl

module _ (lib : Libs) (c : Client) (config : ClusterMachineApproverConfig) (machines : List Machine)
    (req : Csr) (csr : CertificateRequest) (ca : Option CertPool) where
  client_sound :
      is_node_client_cert req csr ≡ true
      → (authorize_csr lib c config machines (some req) (some csr) ca).0 ≡ true
      → IsAuthorized lib c machines config req csr ca
  unfolding authorize_csr
  client_sound is_client h =
      let (node, s) = (is_node_client_cert_iff req csr).0 is_client in
      let same : trim_prefix csr.common_name node_user_prefix ≡ node =
        ap (λ n. trim_prefix n node_user_prefix) s.name
        ∙ trim_prefix-append node_user_prefix node in
      let enabled : config.node_client_cert.disabled ≡ false = ground arith in
      let yes_client : (authorize_node_client_csr lib c machines req csr).0 ≡ true = ground arith in
      let new =
        (authorize_node_client_csr_iff lib c machines req csr).0
          (authorize_node_client_csr-IsClear lib c machines req csr yes_client) in
      new_node node s enabled (subst (λ n. IsNewNode c machines req n) same new)

  serving_sound :
      is_node_client_cert req csr ≡ false
      → (authorize_csr lib c config machines (some req) (some csr) ca).0 ≡ true
      → IsAuthorized lib c machines config req csr ca
  unfolding authorize_csr
  serving_sound not_client h =
      let (node, accepted, named, serves) =
        on_contents_sound (λ n. authorize_serving lib c machines n csr ca)
          (validate_csr_contents lib req csr) (rw not_client at h) in
      known_node node
        (λ other s. cc (sym not_client ∙ (is_node_client_cert_iff req csr).1 (other, s)))
        ((validate_csr_contents_iff lib req csr node named).0 accepted)
        (authorize_serving_sound lib c machines node csr ca
          (authorize_serving-IsClear lib c machines node csr ca serves))

  pub authorize_csr_complete :
      IsAuthorized lib c machines config req csr ca
      → authorize_csr lib c config machines (some req) (some csr) ca ≡ yes_verdict
  unfolding authorize_csr
  authorize_csr_complete (new_node node s enabled new) =
      let same =
        ap (λ n. trim_prefix n node_user_prefix) s.name
        ∙ trim_prefix-append node_user_prefix node in
      rw ((is_node_client_cert_iff req csr).1 (node, s), enabled)
        ((authorize_node_client_csr_iff lib c machines req csr).1
          (subst (λ n. IsNewNode c machines req n) (sym same) new))
  authorize_csr_complete (known_node node other s way) =
      let not_client =
        not-eq-true (is_node_client_cert req csr)
          λ h. let (n, r) = (is_node_client_cert_iff req csr).0 h in other n r in
      rw (not_client, (validate_csr_contents_iff lib req csr node s.named).1 s)
        (on_contents_complete (λ n. authorize_serving lib c machines n csr ca) s.named
          (authorize_serving_complete lib c machines node csr ca way))

-- A request is authorised exactly when the specification names it: as a new node's, with the client
-- flow not disabled, or, if it is no client certificate request, as a serving request of a node by
-- one of the three ways.
pub authorize_csr_iff :
    (lib : Libs) (c : Client) (config : ClusterMachineApproverConfig) (machines : List Machine)
    (req : Csr) (csr : CertificateRequest) (ca : Option CertPool)
    → ((authorize_csr lib c config machines (some req) (some csr) ca).0 ≡ true)
      ↔ IsAuthorized lib c machines config req csr ca
authorize_csr_iff lib c config machines req csr ca = (
  λ h. elim (Bool-cases (is_node_client_cert req csr)) [
    | inl client ↦ client_sound lib c config machines req csr ca client h
    | inr serving ↦ serving_sound lib c config machines req csr ca serving h
  ],
  λ a. ap (λ v. v.0) (authorize_csr_complete lib c config machines req csr ca a),
)

-- A positive decision comes without an error.
pub authorize_csr_error_free :
    (lib : Libs) (c : Client) (config : ClusterMachineApproverConfig) (machines : List Machine)
    (req : Csr) (csr : CertificateRequest) (ca : Option CertPool)
    → (authorize_csr lib c config machines (some req) (some csr) ca).0 ≡ true
    → (authorize_csr lib c config machines (some req) (some csr) ca).1 ≡ none
authorize_csr_error_free lib c config machines req csr ca h =
    ap (λ v. v.1)
      (authorize_csr_complete lib c config machines req csr ca
        ((authorize_csr_iff lib c config machines req csr ca).0 h))
