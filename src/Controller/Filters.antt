-- ===== src/Controller/Filters.antt =====
-- Which events lead to a reconcile: `pendingCertFilter`, `toCSRs`, `caConfigMapFilter`, and the
-- predicates of `buildWithManager`.
pub mod Laws
pub mod Events
use cluster_machine_approver.Prelude.{
  Bool, true, false, ◌&&◌, ◌||◌, not, Option, none, some, List, [], ◌∷◌, String, ◌==◌, Result, ok,
  err, if◌then◌else◌,
}
use cluster_machine_approver.Kube.{Time, Csr, ConfigMap}
use cluster_machine_approver.CsrCheck.Conditions.{
  is_approved, is_recently_approved, is_approved_by_cma,
}

abbrev pub config_namespace : String
config_namespace = "openshift-config-managed"

abbrev pub kubelet_ca_config_map : String
kubelet_ca_config_map = "csr-controller-ca"

abbrev pub ca_bundle_key : String
ca_bundle_key = "ca-bundle.crt"

-- runtime.Object, by the types that the filters ask for
pub data Object : Type 0 where
  csr_object : Csr → Object
  config_map_object : ConfigMap → Object
  other_object : Object

-- The result `none` is a panic: the code reads through a nil pointer.
unfoldable pub pending_cert_filter : (now : Time) → Object → Option Bool
pending_cert_filter now (csr_object cert) =
    some
      (not (is_approved cert) || (is_recently_approved now cert && not (is_approved_by_cma cert)))
pending_cert_filter now (config_map_object cm) = none
pending_cert_filter now other_object = none

to_requests : (now : Time) → List Csr → List String
to_requests now [] = []
to_requests now (csr ∷ csrs) =
    if is_approved csr && (not (is_recently_approved now csr) || is_approved_by_cma csr)
    then to_requests now csrs
    else csr.name ∷ to_requests now csrs

-- The names of the requests to reconcile.
unfoldable pub to_csrs : (now : Time) → Result (List Csr) → List String
unfolding to_requests
to_csrs now (err e) = []
to_csrs now (ok items) = to_requests now items

-- A read of a Go map.
unfoldable pub lookup : String → List (String × String) → Option String
lookup key [] = none
lookup key ((k, v) ∷ rest) = if k == key then some v else lookup key rest

abbrev is_found : Option String → Bool
is_found none = false
is_found (some v) = true

-- "" on a missing key
abbrev value : Option String → String
value none = ""
value (some v) = v

unfoldable pub is_ca_config_map : ConfigMap → Bool
is_ca_config_map cm = cm.name == kubelet_ca_config_map && cm.namespace == config_namespace

-- With the old map at hand.
abbrev filter_new : ConfigMap → Option Object → Option Bool
filter_new cm none = some (is_ca_config_map cm && is_found (lookup ca_bundle_key cm.items))
filter_new cm (some (config_map_object cm_new)) =
    let data_new = lookup ca_bundle_key cm_new.items in
    some (
      is_ca_config_map cm
      && (is_found data_new && not (value (lookup ca_bundle_key cm.items) == value data_new)))
filter_new cm (some (csr_object csr)) = none
filter_new cm (some other_object) = none

unfoldable pub ca_config_map_filter : Object → (new : Option Object) → Option Bool
unfolding is_ca_config_map
ca_config_map_filter (config_map_object cm) new =
    if not (is_ca_config_map cm) then some false else filter_new cm new
ca_config_map_filter (csr_object csr) new = some false
ca_config_map_filter other_object new = some false

-- controller-runtime's events, with their objects
pub data Event : Type 0 where
  create : (object : Object) → Event
  update : (object_old object_new : Object) → Event
  generic : (object : Object) → Event
  delete : (object : Object) → Event

-- The predicates of `buildWithManager`, for the requests and for the config maps.
unfoldable pub csr_predicate : (now : Time) → Event → Option Bool
csr_predicate now (create object) = pending_cert_filter now object
csr_predicate now (update object_old object_new) = pending_cert_filter now object_new
csr_predicate now (generic object) = pending_cert_filter now object
csr_predicate now (delete object) = some false

unfoldable pub config_map_predicate : Event → Option Bool
config_map_predicate (create object) = ca_config_map_filter object none
config_map_predicate (update object_old object_new) =
    ca_config_map_filter object_old (some object_new)
config_map_predicate (generic object) = ca_config_map_filter object none
config_map_predicate (delete object) = some false
