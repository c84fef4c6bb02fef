-- ===== src/Main/Options.antt =====
-- The command line's options: the variables of `main` that the flags set, with their defaults.
use cluster_machine_approver.Prelude.{ℕ, ◌*◌, ◌^◌, Bool, true, false, List, [], String}

-- A time.Duration that a flag gives, in nanoseconds.
abbrev pub second : ℕ
second = 10 ^ 9

pub record Options : Type 0 where
  pub cli_config : String
  pub api_group_versions : List String
  pub api_group : String
  pub management_kube_config_path : String
  pub machine_namespace : String
  pub workload_kube_config_path : String
  pub disable_status_controller : Bool
  pub leader_elect : Bool
  pub leader_elect_lease_duration : ℕ
  pub leader_elect_renew_deadline : ℕ
  pub leader_elect_retry_period : ℕ
  pub leader_elect_resource_name : String
  pub leader_elect_resource_namespace : String

-- What the options are when no flag is given.
abbrev pub default_options : Options
default_options = record {
  cli_config = "";
  api_group_versions = [];
  api_group = "";
  management_kube_config_path = "";
  machine_namespace = "";
  workload_kube_config_path = "";
  disable_status_controller = false;
  leader_elect = true;
  leader_elect_lease_duration = 137 * second;
  leader_elect_renew_deadline = 107 * second;
  leader_elect_retry_period = 26 * second;
  leader_elect_resource_name = "cluster-machine-approver-leader";
  leader_elect_resource_namespace = "openshift-cluster-machine-approver";
}
