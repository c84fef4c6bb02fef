-- ===== src/Config.antt =====
-- pkg/controller/config.go
pub mod Laws
use cluster_machine_approver.Prelude.{
  ℕ, Bool, false, Option, none, some, List, String, ◌==◌, Result, ok, err, length, nat_eq,
  if◌then◌else◌,
}

pub record NodeClientCert : Type 0 where
  pub disabled : Bool

pub record ClusterMachineApproverConfig : Type 0 where
  pub node_client_cert : NodeClientCert

-- ioutil.ReadFile, kyaml.ToJSON, and json.Unmarshal into a config. The last writes into the config it
-- is given, also when it then fails: it returns that config, and whether it failed.
pub record ConfigReader : Type 0 where
  pub read_file : String → Result (List ℕ)
  pub to_json : List ℕ → Result (List ℕ)
  pub unmarshal : List ℕ → ClusterMachineApproverConfig → ClusterMachineApproverConfig × Bool

abbrev pub default_config : ClusterMachineApproverConfig
default_config = record { node_client_cert = record { disabled = false } }

abbrev of_json : ConfigReader → Result (List ℕ) → ClusterMachineApproverConfig
of_json r (err e) = default_config
of_json r (ok json) = (r.unmarshal json default_config).0

abbrev of_content : ConfigReader → Result (List ℕ) → ClusterMachineApproverConfig
of_content r (err e) = default_config
of_content r (ok content) =
    if nat_eq (length content) 0 then default_config else of_json r (r.to_json content)

-- `LoadConfig`
unfoldable pub load_config : ConfigReader → (cli_config : String) → ClusterMachineApproverConfig
load_config r cli_config =
    if cli_config == "" then default_config else of_content r (r.read_file cli_config)
