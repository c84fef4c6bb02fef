-- ===== src/Controller/Filters/Laws.antt =====
-- The filters of the controller against descriptions of what they let through.
use cluster_machine_approver.Prelude.{
  ◌≡◌, refl, ◌≢◌, ◌↔◌, true, not, Option, none, some, List, [], ◌∷◌, map, String, ◌==◌, eq_iff, ok,
  arith, ap, sym, ◌∙◌, false, Memᴰ, ◌&&◌, ◌||◌, Bool-cases, inl, inr,
}
use cluster_machine_approver.Kube.{Time, Csr, ConfigMap}
use cluster_machine_approver.CsrCheck.Conditions.{
  is_approved, is_recently_approved, is_approved_by_cma,
}
use cluster_machine_approver.Controller.Filters.{
  Object, csr_object, config_map_object, other_object, pending_cert_filter, to_csrs, lookup,
  is_ca_config_map, ca_config_map_filter, ca_bundle_key, config_namespace, kubelet_ca_config_map,
  value, is_found,
}

-- The requests that the event filter lets through, in the order of the list.
pub passing : (now : Time) → List Csr → List Csr
passing now [] = []
passing now (csr ∷ csrs) = elim (pending_cert_filter now (csr_object csr)) [
  | some true ↦ csr ∷ passing now csrs
  | _ ↦ passing now csrs
]

-- A change of the CA bundle leads to a reconcile of exactly the listed requests that the event filter
-- lets through at the same instant, in their order.
pub to_csrs-passing :
    (now : Time) (csrs : List Csr)
    → to_csrs now (ok csrs) ≡ map (λ csr. csr.name) (passing now csrs)
unfolding to_csrs pending_cert_filter passing
to_csrs-passing now [] = refl
to_csrs-passing now (csr ∷ csrs) = ground (arith, to_csrs-passing now csrs)

-- A change of the CA bundle leads to a reconcile of each listed request that is not approved.
pub to_csrs-pending :
    (now : Time) (csr : Csr) (csrs : List Csr)
    → is_approved csr ≡ false
    → Memᴰ csr csrs
    → Memᴰ csr.name (to_csrs now (ok csrs))
unfolding to_csrs
to_csrs-pending now csr [] pending m = elim m [ ]
to_csrs-pending now csr (x ∷ xs) pending (Memᴰ.head e) =
    let waits : is_approved x ≡ false = ap is_approved (sym e) ∙ pending in
    rw waits (Memᴰ.head (ap (λ c. c.name) e))
to_csrs-pending now csr (x ∷ xs) pending (Memᴰ.tail m) =
    let later = to_csrs-pending now csr xs pending m in
    elim (Bool-cases
      (is_approved x && (not (is_recently_approved now x) || is_approved_by_cma x))) [
        | inl skipped ↦ rw skipped later
        | inr kept ↦ rw kept (Memᴰ.tail later)
      ]

-- The request filter reads through a nil pointer exactly at an object that is no request.
pub pending_cert_filter_panics_iff :
    (now : Time) (o : Object)
    → (pending_cert_filter now o ≡ none) ↔ ((csr : Csr) → o ≢ csr_object csr)
unfolding pending_cert_filter
pending_cert_filter_panics_iff now (csr_object csr) = (λ h. cc, λ h. absurd (h csr refl))
pending_cert_filter_panics_iff now (config_map_object cm) = (λ h csr e. cc, λ h. refl)
pending_cert_filter_panics_iff now other_object = (λ h csr e. cc, λ h. refl)

-- The config map with the kubelet's CA.
pub record IsCaConfigMap (cm : ConfigMap) : Type 0 where
  pub name : cm.name ≡ kubelet_ca_config_map
  pub namespace : cm.namespace ≡ config_namespace

is_ca_config_map_iff : (cm : ConfigMap) → (is_ca_config_map cm ≡ true) ↔ IsCaConfigMap cm
unfolding is_ca_config_map
is_ca_config_map_iff cm = (
  λ h. record {
    name = ground (arith, eq_iff cm.name kubelet_ca_config_map);
    namespace = ground (arith, eq_iff cm.namespace config_namespace);
  },
  λ s. ground (
    arith,
    s.name,
    s.namespace,
    eq_iff cm.name kubelet_ca_config_map,
    eq_iff cm.namespace config_namespace,
  ),
)

-- The new map has a bundle, and it is another text than the old one's, a missing one being "".
pub record IsNewBundle (cm cm_new : ConfigMap) (bundle : String) : Type 0 where
  pub ca : IsCaConfigMap cm
  pub found : lookup ca_bundle_key cm_new.items ≡ some bundle
  pub differs : lookup ca_bundle_key cm.items ≢ some bundle
  pub not_both_empty : bundle ≡ "" → lookup ca_bundle_key cm.items ≢ none

changed_iff :
    (old : Option String) (bundle : String)
    → (not (value old == bundle) ≡ true) ↔ ((old ≢ some bundle) × (bundle ≡ "" → old ≢ none))
changed_iff none bundle = (
  λ h. ((λ e. cc), λ e _. ground (arith, eq_iff "" bundle)),
  λ (d, k). ground (arith, eq_iff "" bundle, k),
)
changed_iff (some t) bundle = (
  λ h. ((λ e. ground (arith, eq_iff t bundle)), λ e f. cc),
  λ (d, k). ground (arith, eq_iff t bundle),
)

found_iff : (o : Option String) → (is_found o ≡ true) ↔ ((b : String) × (o ≡ some b))
found_iff none = (λ h. cc, λ (b, e). cc)
found_iff (some b) = (λ h. (b, refl), λ _. refl)

-- An update of a config map leads to a reconcile exactly when the old one is the kubelet's CA, by name
-- and namespace, and the new one has a bundle that is another text than the old one's, where a
-- missing one counts as empty.
pub ca_config_map_filter_update_iff :
    (cm cm_new : ConfigMap)
    → (ca_config_map_filter (config_map_object cm) (some (config_map_object cm_new)) ≡ some true)
      ↔ ((bundle : String) × IsNewBundle cm cm_new bundle)
unfolding ca_config_map_filter
ca_config_map_filter_update_iff cm cm_new = (sound, complete)
  where
    sound :
        ca_config_map_filter (config_map_object cm) (some (config_map_object cm_new)) ≡ some true
        → (bundle : String) × IsNewBundle cm cm_new bundle
    sound h =
        let ca : is_ca_config_map cm ≡ true = ground arith in
        let has : is_found (lookup ca_bundle_key cm_new.items) ≡ true = ground arith in
        let (bundle, found) = (found_iff (lookup ca_bundle_key cm_new.items)).0 has in
        let fresh : not (value (lookup ca_bundle_key cm.items) == bundle) ≡ true = ground arith in
        let (differs, not_both) = (changed_iff (lookup ca_bundle_key cm.items) bundle).0 fresh in
        (
          bundle,
          record {
            ca = (is_ca_config_map_iff cm).0 ca;
            found = found;
            differs = differs;
            not_both_empty = not_both;
          },
        )

    complete :
        ((bundle : String) × IsNewBundle cm cm_new bundle)
        → ca_config_map_filter (config_map_object cm) (some (config_map_object cm_new)) ≡ some true
    complete (bundle, s) = ground (
      arith,
      (is_ca_config_map_iff cm).1 s.ca,
      s.found,
      (changed_iff (lookup ca_bundle_key cm.items) bundle).1 (s.differs, s.not_both_empty),
    )
