-- ===== src/Main/Startup/Failures.antt =====
-- When what comes before the controllers fails, and with which error.
use cluster_machine_approver.Prelude.{
  ◌≡◌, ◌↔◌, refl, inl, inr, none, Error, client_configs_failed, manager_failed,
  delegating_client_failed, ok, err, ◌>>=◌, >>=-eq-err, wrap_error, wrap_error-eq-ok,
  wrap_error-eq-err, require, require-eq-ok, require-eq-err, subst, String,
}
use cluster_machine_approver.Main.{api_group_versions_of, metrics_port, create_client_configs}
use cluster_machine_approver.Main.Options.{Options}
use cluster_machine_approver.Main.Startup.{
  Platform, manager_options, management_client_options, workload_client_options, set_up_manager,
  new_clients, prepare,
}
use cluster_machine_approver.Main.Startup.Prepared.{create_client_configs_sound, set_up_manager_iff}
use cluster_machine_approver.Main.Startup.Stages.{
  Settings, Configs, Managed, FailsFirst, no_groups, no_port, no_management_config,
  no_workload_config, no_manager, no_config_types, no_network_types, no_machine_client,
  no_node_client,
}

module _ (p : Platform) (o : Options) where
  create_client_configs_failed :
      {e : Error} (port : String)
      → Settings p o port
      → create_client_configs p.build_config_from_flags o.management_kube_config_path
          o.workload_kube_config_path
        ≡ err e
      → FailsFirst p o (client_configs_failed e)
  unfolding create_client_configs
  create_client_configs_failed port s h =
      elim (>>=-eq-err (p.build_config_from_flags o.management_kube_config_path) _ h) [
        | inl no_management ↦ no_management_config port s no_management
        | inr (management, built, h1) ↦
            elim (>>=-eq-err (p.build_config_from_flags o.workload_kube_config_path) _ h1) [
              | inl no_workload ↦ no_workload_config port management s built no_workload
              | inr (workload, built', h2) ↦ cc
            ]
      ]

  set_up_manager_failed :
      {e : Error} (management workload : p.RestConfig) (c : Configs p o management workload)
      → set_up_manager p o c.port workload ≡ err e
      → FailsFirst p o e
  unfolding set_up_manager
  set_up_manager_failed management workload c h =
      let new = p.new_manager workload (manager_options c.port o) in
      elim (>>=-eq-err (wrap_error manager_failed new) _ h) [
        | inl failed ↦
            let (x, why, same) = wrap_error-eq-err manager_failed new failed in
            subst (FailsFirst p o) same (no_manager management workload c why)
        | inr (mgr, made, h1) ↦
            let managed : Managed p o management workload mgr = record {
              configs = c;
              made = wrap_error-eq-ok manager_failed new made;
            } in
            elim (>>=-eq-err (require (p.install_config mgr)) _ h1) [
              | inl failed ↦
                  no_config_types management workload mgr managed (require-eq-err _ failed)
              | inr (u, config_installed, h2) ↦
                  elim (>>=-eq-err (require (p.install_network mgr)) _ h2) [
                    | inl failed ↦
                        no_network_types management workload mgr managed
                          (require-eq-ok _ config_installed) (require-eq-err _ failed)
                    | inr (u', network_installed, h3) ↦ cc
                  ]
            ]
      ]

  new_clients_failed :
      {e : Error} (management workload : p.RestConfig) (mgr : p.Manager)
      → Managed p o management workload mgr
      → p.install_config mgr ≡ none
      → p.install_network mgr ≡ none
      → new_clients p mgr management workload ≡ err e
      → FailsFirst p o e
  unfolding new_clients
  new_clients_failed management workload mgr managed config_installed network_installed h =
      let for_machines = p.new_client management mgr management_client_options in
      let for_nodes = p.new_client workload mgr workload_client_options in
      elim (>>=-eq-err (wrap_error delegating_client_failed for_machines) _ h) [
        | inl failed ↦
            let (x, why, same) = wrap_error-eq-err _ for_machines failed in
            subst (FailsFirst p o) same (
              no_machine_client management workload mgr managed config_installed network_installed
                why)
        | inr (machine_client, made, h1) ↦
            elim (>>=-eq-err (wrap_error delegating_client_failed for_nodes) _ h1) [
              | inl failed ↦
                  let (x, why, same) = wrap_error-eq-err _ for_nodes failed in
                  subst (FailsFirst p o) same (
                    no_node_client management workload mgr machine_client managed config_installed
                      network_installed (wrap_error-eq-ok _ _ made) why)
              | inr (node_client, made', h2) ↦ cc
            ]
      ]

  -- The part of `prepare` after the settings.
  built_failed :
      {A : Type 0}
      (finish : p.RestConfig × p.RestConfig → p.Manager → p.ApiClient × p.ApiClient → A) {e : Error}
      (port : String)
      → Settings p o port
      → (do
        configs ← wrap_error client_configs_failed (
            create_client_configs p.build_config_from_flags o.management_kube_config_path
              o.workload_kube_config_path)
        mgr ← set_up_manager p o port configs.1
        clients ← new_clients p mgr configs.0 configs.1
        ok (finish configs mgr clients))
        ≡ err e
      → FailsFirst p o e
  built_failed finish port s h =
      let configs =
        create_client_configs p.build_config_from_flags o.management_kube_config_path
          o.workload_kube_config_path in
      elim (>>=-eq-err (wrap_error client_configs_failed configs) _ h) [
        | inl failed ↦
            let (x, why, same) = wrap_error-eq-err _ configs failed in
            subst (FailsFirst p o) same (create_client_configs_failed port s why)
        | inr (c, built, h1) ↦
            let (of_management, of_workload) =
              create_client_configs_sound p.build_config_from_flags o.management_kube_config_path
                o.workload_kube_config_path (wrap_error-eq-ok _ _ built) in
            let both : Configs p o c.0 c.1 = record {
              port = port;
              settings = s;
              of_management = of_management;
              of_workload = of_workload;
            } in
            elim (>>=-eq-err (set_up_manager p o port c.1) _ h1) [
              | inl failed ↦ set_up_manager_failed c.0 c.1 both failed
              | inr (mgr, set_up, h2) ↦
                  let (made, config_installed, network_installed) =
                    (set_up_manager_iff p o port c.1 mgr).0 set_up in
                  let managed : Managed p o c.0 c.1 mgr = record { configs = both; made = made } in
                  elim (>>=-eq-err (new_clients p mgr c.0 c.1) _ h2) [
                    | inl failed ↦
                        new_clients_failed c.0 c.1 mgr managed config_installed network_installed
                          failed
                    | inr (clients, created, h3) ↦ cc
                  ]
            ]
      ]

  prepare_failed : {e : Error} → prepare p o ≡ err e → FailsFirst p o e
  unfolding prepare
  prepare_failed h =
      elim (>>=-eq-err (api_group_versions_of o.api_group o.api_group_versions) _ h) [
        | inl failed ↦ no_groups failed
        | inr (groups, chosen, h1) ↦
            elim (>>=-eq-err (metrics_port (p.lookup_env "METRICS_PORT")) _ h1) [
              | inl failed ↦ no_port groups chosen failed
              | inr (port, listens, h2) ↦
                  built_failed _ port
                    (record { groups = groups; chosen = chosen; listens = listens }) h2
            ]
      ]

  prepare_fails : {e : Error} → FailsFirst p o e → prepare p o ≡ err e
  unfolding prepare set_up_manager new_clients create_client_configs
  prepare_fails (no_groups failed) = rw failed refl
  prepare_fails (no_port groups chosen failed) = rw (chosen, failed) refl
  prepare_fails (no_management_config port s failed) = rw (s.chosen, s.listens, failed) refl
  prepare_fails (no_workload_config port management s built failed) =
      rw (s.chosen, s.listens, built, failed) refl
  prepare_fails (no_manager management workload c failed) =
      let s = c.settings in rw (s.chosen, s.listens, c.of_management, c.of_workload, failed) refl
  prepare_fails (no_config_types management workload mgr m failed) =
      let c = m.configs in
      let s = c.settings in
      rw (s.chosen, s.listens, c.of_management, c.of_workload, m.made, failed) refl
  prepare_fails (no_network_types management workload mgr m installed failed) =
      let c = m.configs in
      let s = c.settings in
      rw (s.chosen, s.listens, c.of_management, c.of_workload, m.made, installed, failed) refl
  prepare_fails (no_machine_client management workload mgr m installed installed' failed) =
      let c = m.configs in
      let s = c.settings in
      rw
        (s.chosen, s.listens, c.of_management, c.of_workload, m.made, installed, installed', failed)
        refl
  prepare_fails (no_node_client management workload mgr client m installed installed' made failed) =
      let c = m.configs in
      let s = c.settings in
      rw
        (
          s.chosen, s.listens, c.of_management, c.of_workload, m.made, installed, installed', made,
          failed,
        )
        refl

  -- What comes before the controllers fails with an error exactly when the first of its calls that
  -- fails leads to it.
  pub prepare_fails_iff : (e : Error) → (prepare p o ≡ err e) ↔ FailsFirst p o e
  prepare_fails_iff e = (prepare_failed, prepare_fails)
