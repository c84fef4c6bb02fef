-- ===== src/CsrCheck/Authorize/Ways.antt =====
-- The three ways of a serving certificate, tried in turn, against those of the specification.
use cluster_machine_approver.Prelude.{
  ◌≡◌, refl, ap, ◌∙◌, subst, ◌↔◌, ◌⊎◌, inl, inr, Bool, true, false, Option, none, some, List,
  String, eq_iff, Error, Errors, none_yet, Result, ok, err, >>=-eq-ok, wrap_error, wrap_error-eq-ok,
  network_failed, ok_injective, arith,
}
use cluster_machine_approver.Kube.{CertificateRequest, Certificate, CertPool, Network}
use cluster_machine_approver.Kube.Outside.{Libs, Client}
use cluster_machine_approver.MachineHandler.{Machine, find_matching_machine_from_node_ref}
use cluster_machine_approver.MachineHandler.Find.{find_matching_machine_from_node_ref_iff}
use cluster_machine_approver.CsrCheck.Renewal.{authorize_serving_renewal}
use cluster_machine_approver.CsrCheck.Renewal.Laws.{authorize_serving_renewal_iff}
use cluster_machine_approver.CsrCheck.Egress.{
  authorize_serving_renewal_with_egress_ips, needs_egress_check,
}
use cluster_machine_approver.CsrCheck.Egress.Laws.{
  IsEgressRenewal, authorize_serving_renewal_with_egress_ips_iff,
}
use cluster_machine_approver.CsrCheck.MachineNames.{authorize_serving_cert_with_machine}
use cluster_machine_approver.CsrCheck.MachineNames.Laws.{
  Vouches, authorize_serving_cert_with_machine_iff,
}
use cluster_machine_approver.CsrCheck.ClientFlow.{Verdict}
use cluster_machine_approver.CsrCheck.ServingCert.{get_serving_cert}
use cluster_machine_approver.CsrCheck.Authorize.{
  Attempt, skipped, authorized, refused, attempt_of, try_next, ok_or_nil, existing_serving_cert,
  renewal_attempt, egress_attempt, on_egress, egress_stage, machine_stage, authorize_serving,
}
use cluster_machine_approver.CsrCheck.Authorize.Spec.{ServingWay, by_renewal, by_machine, by_egress}

-- A decision without an error.
abbrev pub yes_verdict : Verdict
yes_verdict = (true, none)

try_next_sound :
    (a : Attempt) (errors : Errors) (rest : Errors → Verdict)
    → try_next a errors rest ≡ yes_verdict
    → (a ≡ authorized) ⊎ ((errors' : Errors) × (rest errors' ≡ yes_verdict))
try_next_sound skipped errors rest h = inr (errors, h)
try_next_sound authorized errors rest h = inl refl
try_next_sound (refused e) errors rest h = inr (_, h)

try_next_this :
    {a : Attempt} (errors : Errors) (rest : Errors → Verdict)
    → a ≡ authorized
    → try_next a errors rest ≡ yes_verdict
try_next_this errors rest e = rw e

try_next_later :
    (a : Attempt) (errors : Errors) (rest : Errors → Verdict)
    → ((errors' : Errors) → rest errors' ≡ yes_verdict)
    → try_next a errors rest ≡ yes_verdict
try_next_later skipped errors rest h = h errors
try_next_later authorized errors rest h = refl
try_next_later (refused e) errors rest h = h _

attempt_of_iff : (e : Option Error) → (attempt_of e ≡ authorized) ↔ (e ≡ none)
attempt_of_iff none = (λ _. refl, λ _. refl)
attempt_of_iff (some e) = (λ h. ground arith, λ h. cc)

on_egress_sound :
    (errors : Errors) (egress : Bool → Attempt) (r : Result Bool)
    → on_egress errors egress r ≡ yes_verdict
    → (b : Bool) × (r ≡ ok b) × (egress b ≡ authorized)
on_egress_sound errors egress (err e) h = ground arith
on_egress_sound errors egress (ok b) h = elim (try_next_sound (egress b) errors _ h) [
  | inl a ↦ (b, refl, a)
  | inr (errors', never) ↦ ground arith
]

ok_or_nil-eq-some :
    (r : Result Certificate) {cert : Certificate} → ok_or_nil r ≡ some cert → r ≡ ok cert
ok_or_nil-eq-some (ok x) h = cc
ok_or_nil-eq-some (err e) h = cc

module _ (lib : Libs) (c : Client) (node : String) (csr : CertificateRequest) where
  existing_sound :
      (ca : Option CertPool) {cert : Certificate}
      → existing_serving_cert lib c node ca ≡ some cert
      → (pool : CertPool) × (ca ≡ some pool) × (get_serving_cert lib c node (some pool) ≡ ok cert)
  unfolding existing_serving_cert
  existing_sound none h = cc
  existing_sound (some pool) h = (pool, refl, ok_or_nil-eq-some _ h)

  existing_complete :
      (pool : CertPool) {cert : Certificate}
      → get_serving_cert lib c node (some pool) ≡ ok cert
      → existing_serving_cert lib c node (some pool) ≡ some cert
  unfolding existing_serving_cert
  existing_complete pool h = rw h

  renewal_attempt_sound :
      (ca : Option CertPool) (existing : Option Certificate)
      → renewal_attempt lib node csr ca existing ≡ authorized
      → (cert : Certificate) × (existing ≡ some cert)
        × (authorize_serving_renewal lib node csr cert ca ≡ none)
  unfolding renewal_attempt
  renewal_attempt_sound ca none h = ground arith
  renewal_attempt_sound ca (some cert) h = (cert, refl, (attempt_of_iff _).0 h)

  egress_attempt_sound :
      (ca : Option CertPool) (existing : Option Certificate) (b : Bool)
      → egress_attempt lib c node csr ca existing b ≡ authorized
      → (cert : Certificate) × (existing ≡ some cert)
        × (b ≡ true)
        × (authorize_serving_renewal_with_egress_ips lib c node csr cert ca ≡ none)
  unfolding egress_attempt
  egress_attempt_sound ca none b h = ground arith
  egress_attempt_sound ca (some cert) false h = ground arith
  egress_attempt_sound ca (some cert) true h = (cert, refl, refl, (attempt_of_iff _).0 h)

-- Egress addresses count exactly when the cluster's network is OpenShift SDN.
pub needs_egress_check_iff :
    (c : Client)
    → (needs_egress_check c ≡ ok true) ↔ (
        (network : Network) × (c.get_network "cluster" ≡ ok network)
        × (network.network_type ≡ "OpenShiftSDN"))
unfolding needs_egress_check
needs_egress_check_iff c = (
  λ h.
      let (network, got, h') =
        >>=-eq-ok (wrap_error network_failed (c.get_network "cluster")) _ h in
      (
        network,
        wrap_error-eq-ok network_failed _ got,
        (eq_iff network.network_type "OpenShiftSDN").0 (ok_injective h'),
      ),
  λ (network, got, sdn). rw got (ap ok ((eq_iff network.network_type "OpenShiftSDN").1 sdn)),
)

module _ (lib : Libs) (c : Client) (machines : List Machine) (node : String)
    (csr : CertificateRequest) where
  egress_stage_sound :
      (ca : Option CertPool) (errors : Errors)
      → egress_stage lib c node csr ca (existing_serving_cert lib c node ca) errors ≡ yes_verdict
      → ServingWay lib c machines node csr ca
  unfolding egress_stage
  egress_stage_sound ca errors h =
      let (b, needs, third) = on_egress_sound errors _ (needs_egress_check c) h in
      let (cert, e, on, r) = egress_attempt_sound lib c node csr ca _ b third in
      let (pool, p, got) = existing_sound lib c node csr ca e in
      let (network, n, sdn) = (needs_egress_check_iff c).0 (needs ∙ ap ok on) in
      let accepted =
        subst (λ roots. authorize_serving_renewal_with_egress_ips lib c node csr cert roots ≡ none)
          p r in
      by_egress pool cert network p got n sdn
        ((authorize_serving_renewal_with_egress_ips_iff lib c node csr cert pool).0 accepted)

  machine_stage_sound :
      (ca : Option CertPool) (errors : Errors)
      → machine_stage lib c machines node csr ca (existing_serving_cert lib c node ca) errors
        ≡ yes_verdict
      → ServingWay lib c machines node csr ca
  unfolding machine_stage
  machine_stage_sound ca errors h = elim (try_next_sound _ errors _ h) [
    | inl second ↦
        let (machine, found, v) =
          (authorize_serving_cert_with_machine_iff lib machines node csr).0
            ((attempt_of_iff _).0 second) in
        by_machine machine ((find_matching_machine_from_node_ref_iff machines node machine).0 found)
          v
    | inr (errors', h') ↦ egress_stage_sound ca errors' h'
  ]

  pub authorize_serving_sound :
      (ca : Option CertPool)
      → authorize_serving lib c machines node csr ca ≡ yes_verdict
      → ServingWay lib c machines node csr ca
  unfolding authorize_serving
  authorize_serving_sound ca h = elim (try_next_sound _ none_yet _ h) [
    | inl first ↦
        let (cert, e, r) = renewal_attempt_sound lib c node csr ca _ first in
        let (pool, p, got) = existing_sound lib c node csr ca e in
        let accepted =
          subst (λ roots. authorize_serving_renewal lib node csr cert roots ≡ none) p r in
        by_renewal pool cert p got
          ((authorize_serving_renewal_iff lib node csr cert pool).0 accepted)
    | inr (errors, h') ↦ machine_stage_sound ca errors h'
  ]

  machine_stage_complete :
      (ca : Option CertPool) (existing : Option Certificate) (errors : Errors) (machine : Machine)
      → find_matching_machine_from_node_ref machines node ≡ ok machine
      → Vouches lib machine csr
      → machine_stage lib c machines node csr ca existing errors ≡ yes_verdict
  unfolding machine_stage
  machine_stage_complete ca existing errors machine found v =
      try_next_this errors (egress_stage lib c node csr ca existing) (
        ap attempt_of
          ((authorize_serving_cert_with_machine_iff lib machines node csr).1 (machine, found, v)))

  egress_stage_complete :
      (pool : CertPool) (cert : Certificate) (errors : Errors)
      → needs_egress_check c ≡ ok true
      → IsEgressRenewal lib c node csr cert pool
      → egress_stage lib c node csr (some pool) (some cert) errors ≡ yes_verdict
  unfolding egress_stage egress_attempt
  egress_stage_complete pool cert errors needs r =
      rw (needs, (authorize_serving_renewal_with_egress_ips_iff lib c node csr cert pool).1 r)

  pub authorize_serving_complete :
      (ca : Option CertPool)
      → ServingWay lib c machines node csr ca
      → authorize_serving lib c machines node csr ca ≡ yes_verdict
  unfolding authorize_serving
  authorize_serving_complete ca (by_renewal pool cert p got r) = rw (
    p,
    existing_complete lib c node csr pool got,
    (authorize_serving_renewal_iff lib node csr cert pool).1 r,
  )
  authorize_serving_complete ca (by_machine machine first v) =
      let found = (find_matching_machine_from_node_ref_iff machines node machine).1 first in
      let existing = existing_serving_cert lib c node ca in
      try_next_later (renewal_attempt lib node csr ca existing) none_yet
        (machine_stage lib c machines node csr ca existing)
        (λ errors. machine_stage_complete ca existing errors machine found v)
  authorize_serving_complete ca (by_egress pool cert network p got n sdn r) =
      let needs = (needs_egress_check_iff c).1 (network, n, sdn) in
      rw (p, existing_complete lib c node csr pool got)
        (try_next_later (renewal_attempt lib node csr (some pool) (some cert)) none_yet
          (machine_stage lib c machines node csr (some pool) (some cert))
          (λ errors.
            try_next_later (attempt_of (authorize_serving_cert_with_machine lib machines node csr))
              errors (egress_stage lib c node csr (some pool) (some cert))
              (λ errors'. egress_stage_complete pool cert errors' needs r)))
