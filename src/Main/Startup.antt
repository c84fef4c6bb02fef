-- ===== src/Main/Startup.antt =====
-- `main` from the options on: what it builds, in which order, and where it ends.
pub mod Prepared
pub mod Started
pub mod Stages
pub mod Failures
pub mod Ends
use Prim.Native.String
use cluster_machine_approver.Prelude.{
  ℕ, Bool, true, false, Option, none, some, List, [], ◌∷◌, String, Error, client_configs_failed,
  manager_failed, delegating_client_failed, csr_controller_failed, run_manager_failed, Result, ok,
  err, ◌>>=◌, wrap_error, require, not, if◌then◌else◌,
}
use cluster_machine_approver.Config.{ClusterMachineApproverConfig, ConfigReader, load_config}
use cluster_machine_approver.MachineHandler.{GroupVersion}
use cluster_machine_approver.Status.Operator.{
  get_release_version, operator_version_key, release_version_env_variable_name,
}
use cluster_machine_approver.Main.{api_group_versions_of, metrics_port, create_client_configs}
use cluster_machine_approver.Main.Options.{Options, default_options}

-- manager.Options
pub record ManagerOptions : Type 0 where
  pub bind_address : String
  pub leader_election_namespace : String
  pub leader_election : Bool
  pub lease_duration : ℕ
  pub leader_election_id : String
  pub leader_election_resource_lock : String
  pub leader_election_release_on_cancel : Bool
  pub retry_period : ℕ
  pub renew_deadline : ℕ

-- The kinds of objects that a client is told to read without the manager's cache.
pub data Kind : Type 0 where
  node network host_subnet : Kind

-- client.Options, with the manager's client as the cache's reader
pub record ClientOptions : Type 0 where
  pub unstructured : Bool
  pub disable_for : List Kind

-- What `main` calls and is not in the repository, with the answers. `parse` is the flag set's, which
-- starts from the defaults, and exits on a command line that it refuses. A call that takes the
-- manager or its scheme may change it, which no later answer here depends on.
pub record Platform : Type 1 where
  pub RestConfig : Type 0
  pub Manager : Type 0
  pub ApiClient : Type 0
  pub parse : Options → Option Options
  pub lookup_env : String → Option String
  pub build_config_from_flags : String → Result RestConfig
  pub new_manager : RestConfig → ManagerOptions → Result Manager
  pub install_config : Manager → Option Error  -- configv1.Install, on the manager's scheme
  pub install_network : Manager → Option Error  -- networkv1.Install
  pub new_client : RestConfig → Manager → ClientOptions → Result ApiClient
  pub config_reader : ConfigReader
  pub set_up_with_manager : Manager → Option Error
  pub manager_config : Manager → RestConfig
  pub new_clientset : RestConfig → Option Error  -- osclientset.NewForConfig
  pub start : Manager → Option Error

module _ (p : Platform) where
  open p use {RestConfig, Manager, ApiClient}

  -- The fields that `main` gives the CertificateApprover.
  pub record Approver : Type 0 where
    pub machine_client : ApiClient
    pub machine_rest_cfg : RestConfig
    pub machine_namespace : String
    pub node_client : ApiClient
    pub node_rest_cfg : RestConfig
    pub config : ClusterMachineApproverConfig
    pub api_group_versions : List GroupVersion

  -- What `main` does with its parts once it has them; the last is how it ends.
  pub data Action : Type 0 where
    exit_on_flags : Action
    fatal : Error → Action
    set_up_controller : Approver → Action
    run_status_controller : Action  -- once the manager is elected, with one worker
    set_version : (name version : String) → Action
    start_manager : Manager → Action
    close_stop : Action  -- deferred, so not on `klog.Fatal`

unfoldable pub manager_options : (metrics_port : String) → Options → ManagerOptions
manager_options metrics_port o = record {
  bind_address = metrics_port;
  leader_election_namespace = o.leader_elect_resource_namespace;
  leader_election = o.leader_elect;
  lease_duration = o.leader_elect_lease_duration;
  leader_election_id = o.leader_elect_resource_name;
  leader_election_resource_lock = "leases";
  leader_election_release_on_cancel = true;
  retry_period = o.leader_elect_retry_period;
  renew_deadline = o.leader_elect_renew_deadline;
}

abbrev pub management_client_options : ClientOptions
management_client_options = record { unstructured = false; disable_for = [] }

abbrev pub workload_client_options : ClientOptions
workload_client_options = record {
  unstructured = false;
  disable_for = node ∷ network ∷ host_subnet ∷ [];
}

-- The manager, for the workload cluster, with the types of both APIs in its scheme.
unfoldable pub set_up_manager :
    (p : Platform) → Options → (port : String) → p.RestConfig → Result p.Manager
set_up_manager p o port config = do
  mgr ← wrap_error manager_failed (p.new_manager config (manager_options port o))
  config_installed ← require (p.install_config mgr)
  network_installed ← require (p.install_network mgr)
  ok mgr

-- The clients for the management and for the workload cluster.
unfoldable pub new_clients :
    (p : Platform)
    → p.Manager
    → (management_config workload_config : p.RestConfig) → Result (p.ApiClient × p.ApiClient)
new_clients p mgr management_config workload_config = do
  uncached_management_client ←
      wrap_error delegating_client_failed
        (p.new_client management_config mgr management_client_options)
  uncached_workload_client ←
      wrap_error delegating_client_failed (p.new_client workload_config mgr workload_client_options)
  ok (uncached_management_client, uncached_workload_client)

-- All that comes before the controllers: the manager and the CertificateApprover, or the error that
-- ends the program.
unfoldable pub prepare : (p : Platform) → Options → Result (p.Manager × Approver p)
unfolding set_up_manager new_clients
prepare p o = do
  groups ← api_group_versions_of o.api_group o.api_group_versions
  port ← metrics_port (p.lookup_env "METRICS_PORT")
  configs ← wrap_error client_configs_failed (
      create_client_configs p.build_config_from_flags o.management_kube_config_path
        o.workload_kube_config_path)
  mgr ← set_up_manager p o port configs.1
  clients ← new_clients p mgr configs.0 configs.1
  ok (
    mgr,
    record {
      machine_client = clients.0;
      machine_rest_cfg = configs.0;
      machine_namespace = o.machine_namespace;
      node_client = clients.1;
      node_rest_cfg = configs.1;
      config = load_config p.config_reader o.cli_config;
      api_group_versions = groups;
    },
  )

abbrev get_env : Option String → String
get_env none = ""
get_env (some v) = v

abbrev end_with : (p : Platform) → Option Error → List (Action p)
end_with p (some e) = fatal (run_manager_failed e) ∷ []
end_with p none = close_stop ∷ []

abbrev on_clientset : (p : Platform) → Option Error → List (Action p) → List (Action p)
on_clientset p (some e) rest = fatal e ∷ []
on_clientset p none rest =
    run_status_controller
    ∷ set_version operator_version_key
        (get_release_version (get_env (p.lookup_env release_version_env_variable_name)))
    ∷ rest

-- From the status controller to the end.
unfoldable pub start_all : (p : Platform) → Options → p.Manager → List (Action p)
start_all p o mgr =
    let rest = start_manager mgr ∷ end_with p (p.start mgr) in
    if not o.disable_status_controller
    then on_clientset p (p.new_clientset (p.manager_config mgr)) rest
    else rest

abbrev on_set_up : (p : Platform) → Options → p.Manager → Option Error → List (Action p)
on_set_up p o mgr (some e) = fatal (csr_controller_failed e) ∷ []
on_set_up p o mgr none = start_all p o mgr

abbrev on_prepared : (p : Platform) → Options → Result (p.Manager × Approver p) → List (Action p)
on_prepared p o (err e) = fatal e ∷ []
on_prepared p o (ok (mgr, approver)) =
    set_up_controller approver ∷ on_set_up p o mgr (p.set_up_with_manager mgr)

abbrev on_options : (p : Platform) → Option Options → List (Action p)
on_options p none = exit_on_flags ∷ []
on_options p (some o) = on_prepared p o (prepare p o)

-- `main`
unfoldable pub main : (p : Platform) → List (Action p)
unfolding prepare start_all
main p = on_options p (p.parse default_options)
