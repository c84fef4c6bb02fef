-- ===== src/Status/Operator.antt =====
-- `statusAvailable`, `getOrCreateClusterOperator`, `syncStatus`, `getReleaseVersion`
pub mod Laws
use Prim.Native.String
use cluster_machine_approver.Prelude.{
  ℕ, Bool, true, false, ◌&&◌, not, Option, none, some, List, [], ◌∷◌, String, ◌==◌, Error,
  api_not_found, cluster_operator_create_failed, cluster_operator_get_failed, Result, ok, err,
  wrap_error, if◌then◌else◌,
}
use cluster_machine_approver.Kube.{Time}

abbrev pub cluster_operator_name : String
cluster_operator_name = "machine-approver"

abbrev pub cluster_operator_namespace : String
cluster_operator_namespace = "openshift-cluster-machine-approver"

abbrev pub unknown_version_value : String
unknown_version_value = "unknown"

abbrev pub operator_version_key : String
operator_version_key = "operator"

abbrev pub release_version_env_variable_name : String
release_version_env_variable_name = "RELEASE_VERSION"

abbrev pub reason_as_expected : String
reason_as_expected = "AsExpected"

-- osconfigv1.ClusterOperatorStatusCondition
pub record StatusCondition : Type 0 where
  pub type : String
  pub status : String
  pub last_transition_time : Time
  pub reason : String
  pub message : String

-- osconfigv1.ObjectReference
pub record RelatedObject : Type 0 where
  pub group : String
  pub resource : String
  pub name : String

-- osconfigv1.OperandVersion
pub record OperandVersion : Type 0 where
  pub name : String
  pub version : String

-- osconfigv1.ClusterOperator
pub record ClusterOperator : Type 0 where
  pub name : String
  pub conditions : List StatusCondition
  pub versions : List OperandVersion
  pub related_objects : List RelatedObject

abbrev pub related_objects : List RelatedObject
related_objects =
    record { group = ""; resource = "namespaces"; name = cluster_operator_namespace }
    ∷ record { group = "certificates.k8s.io"; resource = "certificatesigningrequests"; name = "" }
    ∷ []

abbrev pub operator_available : String
operator_available = "Available"

abbrev pub operator_degraded : String
operator_degraded = "Degraded"

abbrev pub operator_progressing : String
operator_progressing = "Progressing"

abbrev pub operator_upgradeable : String
operator_upgradeable = "Upgradeable"

-- What the controller calls: the ClusterOperator client, the version getter's entry for "operator",
-- and v1helpers.SetStatusCondition on a slice.
pub record OperatorApi : Type 0 where
  pub get : (name : String) → Result ClusterOperator
  pub create : ClusterOperator → Result ClusterOperator
  pub update_status : ClusterOperator → Option Error
  pub operator_version : String
  pub set_status_condition : List StatusCondition → StatusCondition → List StatusCondition

-- The environment's RELEASE_VERSION, "" if it is not set.
unfoldable pub get_release_version : (env : String) → String
get_release_version env = if env == "" then unknown_version_value else env

abbrev new_cluster_operator : ClusterOperator
new_cluster_operator = record {
  name = cluster_operator_name;
  conditions = [];
  versions = [];
  related_objects = [];
}

abbrev on_get : OperatorApi → Result ClusterOperator → Result ClusterOperator
on_get api (err (api_not_found message)) =
    wrap_error cluster_operator_create_failed (api.create new_cluster_operator)
on_get api (err e) = err (cluster_operator_get_failed e)
on_get api (ok co) = ok co

unfoldable pub get_or_create_cluster_operator : OperatorApi → Result ClusterOperator
get_or_create_cluster_operator api = on_get api (api.get cluster_operator_name)

related_eq : RelatedObject → RelatedObject → Bool
related_eq a b = a.group == b.group && (a.resource == b.resource && a.name == b.name)

-- equality.Semantic.DeepEqual on the slices
related_objects_eq : List RelatedObject → List RelatedObject → Bool
unfolding related_eq
related_objects_eq [] [] = true
related_objects_eq [] (b ∷ bs) = false
related_objects_eq (a ∷ as') [] = false
related_objects_eq (a ∷ as') (b ∷ bs) = related_eq a b && related_objects_eq as' bs

unfoldable pub set_all :
    OperatorApi → List StatusCondition → List StatusCondition → List StatusCondition
set_all api conditions [] = conditions
set_all api conditions (c ∷ conds) = set_all api (api.set_status_condition conditions c) conds

-- What is sent to the API server, and the error.
unfoldable pub sync_status :
    OperatorApi → ClusterOperator → List StatusCondition → ClusterOperator × Option Error
unfolding set_all related_objects_eq
sync_status api co conds =
    let conditions = set_all api co.conditions conds in
    let related =
      if not (related_objects_eq co.related_objects related_objects)
      then related_objects
      else co.related_objects in
    let co' = record co { conditions = conditions; related_objects = related } in
    (co', api.update_status co')

abbrev pub condition : (type status : String) → Time → (message : String) → StatusCondition
condition type status now message = record {
  type = type;
  status = status;
  last_transition_time = now;
  reason = reason_as_expected;
  message = message;
}

-- The four conditions; `clock i` is the clock at its i-th read.
unfoldable pub available_conditions : OperatorApi → (clock : ℕ → Time) → List StatusCondition
available_conditions api clock =
    condition operator_available "True" (clock 0)
      (String.◌++◌ "Cluster Machine Approver is available at " api.operator_version)
    ∷ condition operator_degraded "False" (clock 1) ""
    ∷ condition operator_progressing "False" (clock 2) ""
    ∷ condition operator_upgradeable "True" (clock 3) ""
    ∷ []

abbrev report :
    OperatorApi
    → (clock : ℕ → Time) → (env : String) → Result ClusterOperator
    → Option ClusterOperator × Option Error
report api clock env (err e) = (none, some e)
report api clock env (ok co) =
    let versions = record { name = "operator"; version = get_release_version env } ∷ [] in
    let (sent, e) =
      sync_status api (record co { versions = versions }) (available_conditions api clock) in
    (some sent, e)

-- The object sent, if any, and the error.
unfoldable pub status_available :
    OperatorApi → (clock : ℕ → Time) → (env : String) → Option ClusterOperator × Option Error
unfolding available_conditions
status_available api clock env = report api clock env (get_or_create_cluster_operator api)
