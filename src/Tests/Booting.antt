-- ===== src/Tests/Booting.antt =====
-- Runs of `main` on a platform where everything succeeds, and on ones where something fails.
use cluster_machine_approver.Prelude.{
  ◌≡◌, refl, inr, true, none, some, [], ◌∷◌, String, ◌==◌, external, client_configs_failed, ok, err,
  if◌then◌else◌,
}
use cluster_machine_approver.Config.{default_config, load_config}
use cluster_machine_approver.Main.{api_group_versions_of, metrics_port, create_client_configs}
use cluster_machine_approver.Main.Options.{Options, default_options}
use cluster_machine_approver.Main.Startup.{
  Platform, Approver, exit_on_flags, fatal, set_up_controller, run_status_controller, set_version,
  start_manager, close_stop, prepare, main, manager_options,
}
use cluster_machine_approver.Main.Startup.Prepared.{prepare_sound}
use cluster_machine_approver.Main.Startup.Ends.{no_clientset, main_ends_iff}
use cluster_machine_approver.Main.Startup.Started.{CanStart, started, main_starts_iff}
use cluster_machine_approver.Status.Operator.{get_release_version}
use cluster_machine_approver.Tests.World.{gv}

abbrev options : Options
options = record default_options {
  machine_namespace = "openshift-machine-api";
  management_kube_config_path = "management";
}

-- Configurations by their path, and clients by their configuration.
abbrev platform : Platform
platform = record {
  RestConfig = String;
  Manager = String;
  ApiClient = String;
  parse = λ o. some options;
  lookup_env = λ name. if name == "RELEASE_VERSION" then some "4.17" else none;
  build_config_from_flags = λ path. ok path;
  new_manager = λ config o. ok o.bind_address;
  install_config = λ mgr. none;
  install_network = λ mgr. none;
  new_client = λ config mgr o. ok config;
  config_reader = record {
    read_file = λ path. err (external "no file");
    to_json = λ content. ok content;
    unmarshal = λ json config. (config, true);
  };
  set_up_with_manager = λ mgr. none;
  manager_config = λ mgr. "";
  new_clientset = λ config. none;
  start = λ mgr. none;
}

abbrev approver : Approver platform
approver = record {
  machine_client = "management";
  machine_rest_cfg = "management";
  machine_namespace = "openshift-machine-api";
  node_client = "";
  node_rest_cfg = "";
  config = default_config;
  api_group_versions = gv ∷ [];
}

prepared : prepare platform options ≡ ok ("127.0.0.1:9191", approver)
unfolding prepare api_group_versions_of metrics_port create_client_configs manager_options
    load_config
prepared = refl

abbrev boots : CanStart platform "127.0.0.1:9191"
boots = record {
  options = options;
  parsed = refl;
  approver = approver;
  plan = prepare_sound platform options "127.0.0.1:9191" approver prepared;
  set_up = refl;
  reports = inr refl;
}

main_starts_iff_example : main platform ≡ started platform "127.0.0.1:9191" boots
main_starts_iff_example = (main_starts_iff platform "127.0.0.1:9191").1 boots

boots_in_order :
    main platform
    ≡ set_up_controller approver
      ∷ run_status_controller
      ∷ set_version "operator" "4.17"
      ∷ start_manager "127.0.0.1:9191"
      ∷ close_stop
      ∷ []
unfolding main api_group_versions_of metrics_port create_client_configs load_config
    get_release_version manager_options
boots_in_order = refl

bad_flags_exit : main (record platform { parse = λ o. none }) ≡ exit_on_flags ∷ []
unfolding main
bad_flags_exit = refl

no_config_is_fatal :
    main (record platform { build_config_from_flags = λ path. err (external path) })
    ≡ fatal (client_configs_failed (external "management")) ∷ []
unfolding main api_group_versions_of metrics_port create_client_configs
no_config_is_fatal = refl

-- The client of the status controller cannot be made.
abbrev no_reports : Platform
no_reports = record platform { new_clientset = λ config. some (external "no client") }

abbrev same_approver : Approver no_reports
same_approver = record {
  machine_client = approver.machine_client;
  machine_rest_cfg = approver.machine_rest_cfg;
  machine_namespace = approver.machine_namespace;
  node_client = approver.node_client;
  node_rest_cfg = approver.node_rest_cfg;
  config = approver.config;
  api_group_versions = approver.api_group_versions;
}

prepared_all_the_same : prepare no_reports options ≡ ok ("127.0.0.1:9191", same_approver)
unfolding prepare api_group_versions_of metrics_port create_client_configs manager_options
    load_config
prepared_all_the_same = refl

main_ends_iff_example :
    main no_reports ≡ set_up_controller same_approver ∷ fatal (external "no client") ∷ []
main_ends_iff_example =
    (main_ends_iff no_reports
        (set_up_controller same_approver ∷ fatal (external "no client") ∷ [])).1
      (no_clientset options "127.0.0.1:9191" same_approver (external "no client") refl
        (prepare_sound no_reports options "127.0.0.1:9191" same_approver prepared_all_the_same) refl
        refl refl)
