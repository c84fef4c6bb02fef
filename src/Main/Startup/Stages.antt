-- ===== src/Main/Startup/Stages.antt =====
-- The calls of `main` before the controllers are set up, in their order, and the first that fails.
use cluster_machine_approver.Prelude.{
  ◌≡◌, none, some, List, String, Error, client_configs_failed, manager_failed,
  delegating_client_failed, ok, err,
}
use cluster_machine_approver.MachineHandler.{GroupVersion}
use cluster_machine_approver.Main.{api_group_versions_of, metrics_port}
use cluster_machine_approver.Main.Options.{Options}
use cluster_machine_approver.Main.Startup.{
  Platform, manager_options, management_client_options, workload_client_options,
}

module _ (p : Platform) (o : Options) where
  -- The options and the environment are in order.
  pub record Settings (port : String) : Type 0 where
    pub groups : List GroupVersion
    pub chosen : api_group_versions_of o.api_group o.api_group_versions ≡ ok groups
    pub listens : metrics_port (p.lookup_env "METRICS_PORT") ≡ ok port

  -- Both configurations could be built.
  pub record Configs (management workload : p.RestConfig) : Type 0 where
    pub port : String
    pub settings : Settings port
    pub of_management : p.build_config_from_flags o.management_kube_config_path ≡ ok management
    pub of_workload : p.build_config_from_flags o.workload_kube_config_path ≡ ok workload

  -- The manager could be made.
  pub record Managed (management workload : p.RestConfig) (mgr : p.Manager) : Type 0 where
    pub configs : Configs management workload
    pub made : p.new_manager workload (manager_options configs.port o) ≡ ok mgr

  -- The first call that fails, after those before it have succeeded, and the error that it leads to.
  pub data FailsFirst : Error → Type 0 where
    no_groups :
        {e : Error} → api_group_versions_of o.api_group o.api_group_versions ≡ err e → FailsFirst e
    no_port :
        {e : Error} (groups : List GroupVersion)
        → api_group_versions_of o.api_group o.api_group_versions ≡ ok groups
        → metrics_port (p.lookup_env "METRICS_PORT") ≡ err e
        → FailsFirst e
    no_management_config :
        {e : Error} (port : String)
        → Settings port
        → p.build_config_from_flags o.management_kube_config_path ≡ err e
        → FailsFirst (client_configs_failed e)
    no_workload_config :
        {e : Error} (port : String) (management : p.RestConfig)
        → Settings port
        → p.build_config_from_flags o.management_kube_config_path ≡ ok management
        → p.build_config_from_flags o.workload_kube_config_path ≡ err e
        → FailsFirst (client_configs_failed e)
    no_manager :
        {e : Error} (management workload : p.RestConfig) (c : Configs management workload)
        → p.new_manager workload (manager_options c.port o) ≡ err e
        → FailsFirst (manager_failed e)
    no_config_types :
        {e : Error} (management workload : p.RestConfig) (mgr : p.Manager)
        → Managed management workload mgr
        → p.install_config mgr ≡ some e
        → FailsFirst e
    no_network_types :
        {e : Error} (management workload : p.RestConfig) (mgr : p.Manager)
        → Managed management workload mgr
        → p.install_config mgr ≡ none
        → p.install_network mgr ≡ some e
        → FailsFirst e
    no_machine_client :
        {e : Error} (management workload : p.RestConfig) (mgr : p.Manager)
        → Managed management workload mgr
        → p.install_config mgr ≡ none
        → p.install_network mgr ≡ none
        → p.new_client management mgr management_client_options ≡ err e
        → FailsFirst (delegating_client_failed e)
    no_node_client :
        {e : Error} (management workload : p.RestConfig) (mgr : p.Manager)
        (machine_client : p.ApiClient)
        → Managed management workload mgr
        → p.install_config mgr ≡ none
        → p.install_network mgr ≡ none
        → p.new_client management mgr management_client_options ≡ ok machine_client
        → p.new_client workload mgr workload_client_options ≡ err e
        → FailsFirst (delegating_client_failed e)
