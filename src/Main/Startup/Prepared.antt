-- ===== src/Main/Startup/Prepared.antt =====
-- What has to succeed before the controllers are set up, and what they are then given.
use cluster_machine_approver.Prelude.{
  ◌≡◌, ◌↔◌, refl, sym, ap, ◌∙◌, none, String, Memᴰ, Result, ok, >>=-eq-ok, wrap_error,
  wrap_error-eq-ok, require, require-eq-ok, ok_injective, subst,
}
use cluster_machine_approver.MachineHandler.{GroupVersion}
use cluster_machine_approver.Config.{load_config}
use cluster_machine_approver.Main.{api_group_versions_of, metrics_port, create_client_configs}
use cluster_machine_approver.Main.Options.{Options}
use cluster_machine_approver.Main.Groups.{Chosen, IsKnownGroup, api_group_versions_of_iff}
use cluster_machine_approver.Main.Startup.{
  Platform, Approver, manager_options, management_client_options, workload_client_options,
  set_up_manager, new_clients, prepare,
}

pub create_client_configs_sound :
    {C : Type 0} (build : String → Result C) (management workload : String) {c : C × C}
    → create_client_configs build management workload ≡ ok c
    → (build management ≡ ok c.0) × (build workload ≡ ok c.1)
unfolding create_client_configs
create_client_configs_sound build management workload {c} h =
    let (m, built, h') = >>=-eq-ok (build management) _ h in
    let (w, built', h'') = >>=-eq-ok (build workload) _ h' in
    (built ∙ ap (λ x. ok x.0) (ok_injective h''), built' ∙ ap (λ x. ok x.1) (ok_injective h''))

-- The manager and the CertificateApprover that the options and the platform lead to: the groups are
-- those of the options and known, each configuration is built from its own path, the manager and the
-- nodes' client are for the workload cluster and the machines' client for the management cluster.
pub record Plan (p : Platform) (o : Options) (mgr : p.Manager) (a : Approver p) : Type 0 where
  pub groups : Chosen o.api_group o.api_group_versions a.api_group_versions
  pub known : (gv : GroupVersion) → Memᴰ gv a.api_group_versions → IsKnownGroup gv.group
  pub port : String
  pub listens : metrics_port (p.lookup_env "METRICS_PORT") ≡ ok port
  pub management : p.build_config_from_flags o.management_kube_config_path ≡ ok a.machine_rest_cfg
  pub workload : p.build_config_from_flags o.workload_kube_config_path ≡ ok a.node_rest_cfg
  pub manager : p.new_manager a.node_rest_cfg (manager_options port o) ≡ ok mgr
  pub config_installed : p.install_config mgr ≡ none
  pub network_installed : p.install_network mgr ≡ none
  pub machine_client :
      p.new_client a.machine_rest_cfg mgr management_client_options ≡ ok a.machine_client
  pub node_client : p.new_client a.node_rest_cfg mgr workload_client_options ≡ ok a.node_client
  pub namespace : a.machine_namespace ≡ o.machine_namespace
  pub config : a.config ≡ load_config p.config_reader o.cli_config

pub set_up_manager_iff :
    (p : Platform) (o : Options) (port : String) (config : p.RestConfig) (mgr : p.Manager)
    → (set_up_manager p o port config ≡ ok mgr) ↔ (
        (p.new_manager config (manager_options port o) ≡ ok mgr)
        × (p.install_config mgr ≡ none)
        × (p.install_network mgr ≡ none))
unfolding set_up_manager
set_up_manager_iff p o port config mgr = (
  λ h.
      let (m, manager, h1) =
        >>=-eq-ok (wrap_error _ (p.new_manager config (manager_options port o))) _ h in
      let (u, config_installed, h2) = >>=-eq-ok (require (p.install_config m)) _ h1 in
      let (u', network_installed, h3) = >>=-eq-ok (require (p.install_network m)) _ h2 in
      let same : m ≡ mgr = ok_injective h3 in
      (
        wrap_error-eq-ok _ _ manager ∙ ap ok same,
        ap p.install_config (sym same) ∙ require-eq-ok _ config_installed,
        ap p.install_network (sym same) ∙ require-eq-ok _ network_installed,
      ),
  λ (manager, config_installed, network_installed).
      rw (manager, config_installed, network_installed) refl,
)

new_clients_iff :
    (p : Platform) (mgr : p.Manager) (management workload : p.RestConfig)
    (c : p.ApiClient × p.ApiClient)
    → (new_clients p mgr management workload ≡ ok c) ↔ (
        (p.new_client management mgr management_client_options ≡ ok c.0)
        × (p.new_client workload mgr workload_client_options ≡ ok c.1))
unfolding new_clients
new_clients_iff p mgr management workload c = (
  λ h.
      let (m, made, h1) =
        >>=-eq-ok (wrap_error _ (p.new_client management mgr management_client_options)) _ h in
      let (w, made', h2) =
        >>=-eq-ok (wrap_error _ (p.new_client workload mgr workload_client_options)) _ h1 in
      (
        wrap_error-eq-ok _ _ made ∙ ap (λ x. ok x.0) (ok_injective h2),
        wrap_error-eq-ok _ _ made' ∙ ap (λ x. ok x.1) (ok_injective h2),
      ),
  λ (made, made'). rw (made, made') refl,
)

module _ (p : Platform) (o : Options) (mgr : p.Manager) (a : Approver p) where
  pub prepare_sound : prepare p o ≡ ok (mgr, a) → Plan p o mgr a
  unfolding prepare
  prepare_sound h =
      let (groups, chosen, h1) =
        >>=-eq-ok (api_group_versions_of o.api_group o.api_group_versions) _ h in
      let (port, listens, h2) = >>=-eq-ok (metrics_port (p.lookup_env "METRICS_PORT")) _ h1 in
      let (configs, made, h3) =
        >>=-eq-ok
          (wrap_error _ (
            create_client_configs p.build_config_from_flags o.management_kube_config_path
              o.workload_kube_config_path))
          _ h2 in
      let (m, set_up, h4) = >>=-eq-ok (set_up_manager p o port configs.1) _ h3 in
      let (clients, created, h5) = >>=-eq-ok (new_clients p m configs.0 configs.1) _ h4 in
      let (management, workload) =
        create_client_configs_sound p.build_config_from_flags o.management_kube_config_path
          o.workload_kube_config_path (wrap_error-eq-ok _ _ made) in
      let (groups_chosen, known) =
        (api_group_versions_of_iff o.api_group o.api_group_versions groups).0 chosen in
      let (manager, config_installed, network_installed) =
        (set_up_manager_iff p o port configs.1 m).0 set_up in
      let (machine_client, node_client) =
        (new_clients_iff p m configs.0 configs.1 clients).0 created in
      let plan : Plan p o m _ = record {
        groups = groups_chosen;
        known = known;
        port = port;
        listens = listens;
        management = management;
        workload = workload;
        manager = manager;
        config_installed = config_installed;
        network_installed = network_installed;
        machine_client = machine_client;
        node_client = node_client;
        namespace = refl;
        config = refl;
      } in
      subst (λ x. Plan p o x.0 x.1) (ok_injective h5) plan

  pub prepare_complete : Plan p o mgr a → prepare p o ≡ ok (mgr, a)
  unfolding prepare create_client_configs
  prepare_complete plan =
      let chosen =
        (api_group_versions_of_iff o.api_group o.api_group_versions a.api_group_versions).1
          (plan.groups, plan.known) in
      let set_up =
        (set_up_manager_iff p o plan.port a.node_rest_cfg mgr).1
          (plan.manager, plan.config_installed, plan.network_installed) in
      let created =
        (new_clients_iff p mgr a.machine_rest_cfg a.node_rest_cfg
            (a.machine_client, a.node_client)).1
          (plan.machine_client, plan.node_client) in
      rw (
        chosen,
        plan.listens,
        plan.management,
        plan.workload,
        set_up,
        created,
        sym plan.namespace,
        sym plan.config,
      )
