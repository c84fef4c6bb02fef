-- ===== src/CsrCheck.antt =====
-- pkg/controller/csr_check.go: its constants, and a module for each group of its functions.
pub mod Requester
pub mod Contents
pub mod Conditions
pub mod Sans
pub mod Renewal
pub mod Egress
pub mod MachineNames
pub mod ClientFlow
pub mod ServingCert
pub mod Authorize
use Prim.Native.String
use cluster_machine_approver.Prelude.{ℕ, ◌*◌, ◌^◌, List, [], ◌∷◌, String}

abbrev pub node_user : String
node_user = "system:node"

abbrev pub node_group : String
node_group = "system:nodes"

abbrev pub node_user_prefix : String
node_user_prefix = "system:node:"

abbrev pub authenticated_group : String
authenticated_group = "system:authenticated"

-- Durations in nanoseconds.
abbrev pub second : ℕ
second = 1_000_000_000

abbrev pub max_pending_delta : ℕ
max_pending_delta = 3600 * second

abbrev pub max_approved_delta : ℕ
max_approved_delta = 30 * second

abbrev pub max_diff_between_pending_csrs_and_machines_count : ℕ
max_diff_between_pending_csrs_and_machines_count = 100

abbrev pub max_machine_clock_skew : ℕ
max_machine_clock_skew = 10 * second

abbrev pub max_machine_delta : ℕ
max_machine_delta = 7200 * second

abbrev pub node_bootstrapper_username : String
node_bootstrapper_username =
    "system:serviceaccount:openshift-machine-config-operator:node-bootstrapper"

abbrev pub node_bootstrapper_groups : List String
node_bootstrapper_groups =
    "system:serviceaccounts:openshift-machine-config-operator" ∷ "system:serviceaccounts"
    ∷ authenticated_group ∷ []

abbrev pub network_type_openshift_sdn : String
network_type_openshift_sdn = "OpenShiftSDN"

abbrev pub network_cluster_name : String
network_cluster_name = "cluster"
