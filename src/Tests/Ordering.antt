-- ===== src/Tests/Ordering.antt =====
-- Reconciles with the listed requests in another order, with the client flow disabled, after an
-- event, and of a denied request.
use mathlib.Core.List.Permᴰ
use cluster_machine_approver.Prelude.{
  ◌≡◌, refl, sym, ap, ◌∙◌, ◌⊎◌, true, [], ◌∷◌, Memᴰ, ◌≢◌, ok, some, eq_iff, ◌==◌,
}
use cluster_machine_approver.Kube.{Csr}
use cluster_machine_approver.Controller.Reconcile.{CertificateApprover, reconcile}
use cluster_machine_approver.Controller.Reconcile.Order.{UniqueNames}
use cluster_machine_approver.Controller.Reconcile.Relisted.{relisted, permuted, reconcile-relisted}
use cluster_machine_approver.Controller.Approve.Laws.{approved_csr}
use cluster_machine_approver.Controller.Reconcile.Disabled.{OfServing, reconcile_disabled}
use cluster_machine_approver.Controller.Filters.{csr_object, create, csr_predicate, to_csrs}
use cluster_machine_approver.Controller.Reconcile.Noticed.{reconcile_noticed}
use cluster_machine_approver.Kube.{Condition, certificate_denied}
use cluster_machine_approver.CsrCheck.Conditions.{is_pending}
use cluster_machine_approver.Controller.Reconcile.{reconcile_csr}
use cluster_machine_approver.Controller.Reconcile.Denied.{with_first, reconcile_csr_denied}
use cluster_machine_approver.Tests.Reconciling.{serving_may, serving-Grounds, sent_csr}
use cluster_machine_approver.Tests.World.{
  machines, lib, approver, start, client_csr, serving_csr, node2, at_hour,
}

names_differ : client_csr.name ≢ serving_csr.name
names_differ h = test_fails ((eq_iff client_csr.name serving_csr.name).1 h)
  where
    test_fails : ¬ ((client_csr.name == serving_csr.name) ≡ true)
    test_fails t = cc

two_names : UniqueNames (client_csr ∷ serving_csr ∷ [])
unfolding UniqueNames
two_names x y (Memᴰ.head e) (Memᴰ.head f) same = e ∙ sym f
two_names x y (Memᴰ.head e) (Memᴰ.tail (Memᴰ.head f)) same =
    absurd (names_differ (sym (ap (λ c. c.name) e) ∙ same ∙ ap (λ c. c.name) f))
two_names x y (Memᴰ.head e) (Memᴰ.tail (Memᴰ.tail k)) same = elim k [ ]
two_names x y (Memᴰ.tail (Memᴰ.head e)) (Memᴰ.head f) same =
    absurd (names_differ (sym (ap (λ c. c.name) f) ∙ sym same ∙ ap (λ c. c.name) e))
two_names x y (Memᴰ.tail (Memᴰ.head e)) (Memᴰ.tail (Memᴰ.head f)) same = e ∙ sym f
two_names x y (Memᴰ.tail (Memᴰ.head e)) (Memᴰ.tail (Memᴰ.tail k)) same = elim k [ ]
two_names x y (Memᴰ.tail (Memᴰ.tail k)) n same = elim k [ ]

reconcile-relisted_example :
    reconcile lib
      (relisted approver
        (serving_csr ∷ client_csr ∷ [])
        (node2 ∷ [])
        (ok (serving_csr ∷ client_csr ∷ [])))
      "csr-2"
      start
    ≡ reconcile lib
        (relisted approver
          (client_csr ∷ serving_csr ∷ [])
          (node2 ∷ [])
          (ok (client_csr ∷ serving_csr ∷ [])))
        "csr-2"
        start
reconcile-relisted_example =
    reconcile-relisted lib approver "csr-2" (client_csr ∷ serving_csr ∷ [])
      (serving_csr ∷ client_csr ∷ []) (node2 ∷ []) (node2 ∷ []) (ok (client_csr ∷ serving_csr ∷ []))
      (ok (serving_csr ∷ client_csr ∷ [])) start two_names (Permᴰ.swap refl refl)
      (Permᴰ.refl (node2 ∷ [])) (permuted (Permᴰ.swap refl refl))

abbrev without_client_flow : CertificateApprover
without_client_flow = record approver {
  config = record { node_client_cert = record { disabled = true } };
}

reconcile_disabled_example :
    ((reconcile lib without_client_flow "csr-2" start).0.sent ≡ [])
    ⊎ ((csr : Csr) × OfServing lib csr
        × ((reconcile lib without_client_flow "csr-2" start).0.sent
            ≡ approved_csr (at_hour 101) csr ∷ []))
reconcile_disabled_example = reconcile_disabled lib without_client_flow "csr-2" start refl

reconcile_noticed_example :
    (csr_predicate (at_hour 101) (create (csr_object serving_csr)) ≡ some true)
    × Memᴰ "csr-2" (to_csrs (at_hour 101) (ok (client_csr ∷ serving_csr ∷ [])))
    × ((reconcile lib approver "csr-2" start).0.sent ≡ sent_csr ∷ [])
reconcile_noticed_example =
    reconcile_noticed lib approver serving_csr (at_hour 101) (create (csr_object serving_csr))
      (client_csr ∷ serving_csr ∷ []) start serving-Grounds refl (Memᴰ.tail (Memᴰ.head refl))

abbrev denial : Condition
denial = record {
  type = certificate_denied;
  status = "True";
  reason = "ByHand";
  message = "not this one";
  last_update_time = at_hour 100;
  last_transition_time = at_hour 100;
}

reconcile_csr_denied_example :
    (is_pending lib (at_hour 101) (with_first denial serving_csr)
      ≡ is_pending lib (at_hour 101) serving_csr)
    × ((reconcile_csr lib approver (with_first denial serving_csr) machines start).0.sent
        ≡ approved_csr (at_hour 101) (with_first denial serving_csr) ∷ [])
reconcile_csr_denied_example =
    reconcile_csr_denied lib approver machines denial serving_csr (at_hour 101) start refl
      serving_may refl
