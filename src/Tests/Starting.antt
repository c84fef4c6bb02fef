-- ===== src/Tests/Starting.antt =====
-- The start of the program: its options and its configuration; and the status controller.
use mathlib.Core.List.{Memᴰ}
use cluster_machine_approver.Prelude.{
  ℕ, suc, ◌≡◌, refl, sym, ◌≢◌, inl, inr, true, false, none, some, List, [], ◌∷◌, String, ◌==◌,
  eq_iff, eq_refl, external, api_not_found, bad_group_version, unsupported_api_group, ok, err,
  arith, if◌then◌else◌, Bool-cases, bad_metrics_port,
}
use cluster_machine_approver.MachineHandler.{GroupVersion}
use cluster_machine_approver.Config.{ConfigReader}
use cluster_machine_approver.Main.{
  count_slashes, parse_group_version, api_group_versions_of, capi_group, mapi_group, metrics_port,
}
use cluster_machine_approver.Main.GroupVersions.{joined, parse_group_version-joined}
use cluster_machine_approver.Main.Groups.{IsKnownGroup, Chosen, api_group_versions_of_iff}
use cluster_machine_approver.Status.Operator.{
  OperatorApi, ClusterOperator, StatusCondition, get_or_create_cluster_operator,
  get_release_version, status_available,
}
use cluster_machine_approver.Status.Operator.Laws.{
  SetsConditions, IsHealthy, find_condition, status_available-IsHealthy,
}
use cluster_machine_approver.Status.Queue.{RateLimitingQueue, handle_err}
use cluster_machine_approver.Status.Queue.Retries.{CountsRequeues, fail_times, handle_err_retries}
use cluster_machine_approver.GoStd.Strings.{itoa}
use cluster_machine_approver.GoStd.Atoi.{atoi}
use cluster_machine_approver.Tests.World.{at_hour}

abbrev reader : ConfigReader
reader = record {
  read_file = λ path. if path == "empty" then ok [] else err (external "no file");
  to_json = λ content. ok content;
  unmarshal = λ json config. (config, true);
}

abbrev versions : List String
versions = "cluster.x-k8s.io/v1beta1" ∷ "machine.openshift.io" ∷ []

abbrev groups : List GroupVersion
groups =
    record { group = capi_group; version = "v1beta1" }
    ∷ record { group = mapi_group; version = "" }
    ∷ []

abbrev no_group : String
no_group = ""

groups_accepted : api_group_versions_of no_group versions ≡ ok groups
unfolding api_group_versions_of parse_group_version
groups_accepted = refl

other_group_refused : api_group_versions_of "apps" [] ≡ err (unsupported_api_group "apps")
unfolding api_group_versions_of
other_group_refused = refl

two_slashes : parse_group_version "a/b/c" ≡ err (bad_group_version "a/b/c")
unfolding parse_group_version
two_slashes = refl

no_slash_in_group : count_slashes "cluster.x-k8s.io" ≡ 0
unfolding count_slashes
no_slash_in_group = refl

no_slash_in_version : count_slashes "v1beta1" ≡ 0
unfolding count_slashes
no_slash_in_version = refl

-- A queue that holds one key's count.
abbrev counting_queue : RateLimitingQueue
counting_queue = record {
  Queue = ℕ;
  get = λ s. (some "key", s);
  done = λ key s. s;
  forget = λ key s. 0;
  add_rate_limited = λ key s. suc s;
  num_requeues = λ key s. s;
  add = λ key s. s;
  shut_down = λ s. s;
  elapse = λ s. s;
}

counts : CountsRequeues counting_queue
counts = record { after_add = λ key s. refl; after_forget = λ key s. refl }

abbrev operator_api : OperatorApi
operator_api = record {
  get = λ name. err (api_not_found name);
  create = λ co. ok co;
  update_status = λ co. none;
  operator_version = "4.12";
  set_status_condition = λ conditions c. c ∷ conditions;
}

find_head :
    (c : StatusCondition) (conditions : List StatusCondition)
    → find_condition c.type (c ∷ conditions) ≡ some c
find_head c conditions = ground (arith, eq_refl c.type)

find_tail :
    (c : StatusCondition) (conditions : List StatusCondition) (type : String)
    → type ≢ c.type
    → find_condition type (c ∷ conditions) ≡ find_condition type conditions
find_tail c conditions type other = elim (Bool-cases (c.type == type)) [
  | inl e ↦ absurd (other (sym ((eq_iff c.type type).0 e)))
  | inr e ↦ rw e
]

sets_conditions : SetsConditions operator_api
sets_conditions = record {
  sets = λ conditions c. (c, find_head c conditions, refl, refl);
  keeps = λ conditions c type other. find_tail c conditions type other;
}

abbrev created : ClusterOperator
created = record { name = "machine-approver"; conditions = []; versions = []; related_objects = [] }

operator_created : get_or_create_cluster_operator operator_api ≡ ok created
unfolding get_or_create_cluster_operator
operator_created = refl

api_group_versions_of_iff_example :
    Chosen no_group versions groups × ((g : GroupVersion) → Memᴰ g groups → IsKnownGroup g.group)
api_group_versions_of_iff_example =
    (api_group_versions_of_iff no_group versions groups).0 groups_accepted

parse_group_version-joined_example :
    (parse_group_version (joined "cluster.x-k8s.io" "v1beta1")
      ≡ ok (record { group = "cluster.x-k8s.io"; version = "v1beta1" }))
    × (parse_group_version "cluster.x-k8s.io"
        ≡ ok (record { group = "cluster.x-k8s.io"; version = "" }))
parse_group_version-joined_example =
    parse_group_version-joined "cluster.x-k8s.io" "v1beta1" no_slash_in_group no_slash_in_version

handle_err_retries_example :
    (handle_err counting_queue
        (some (external "conflict"))
        "key"
        (fail_times counting_queue (external "conflict") "key" 29 0)
      ≡ (suc (fail_times counting_queue (external "conflict") "key" 29 0), false))
    × ((handle_err counting_queue
          (some (external "conflict"))
          "key"
          (fail_times counting_queue (external "conflict") "key" 30 0)).1
        ≡ true)
    × (fail_times counting_queue (external "conflict") "key" 31 0 ≡ 0)
handle_err_retries_example =
    handle_err_retries counting_queue (external "conflict") "key" 0 29 counts refl (omega arith)

status_available-IsHealthy_example :
    (sent : ClusterOperator) × ((status_available operator_api at_hour "").0 ≡ some sent)
    × IsHealthy (get_release_version "") sent
    × ((status_available operator_api at_hour "").1 ≡ none)
status_available-IsHealthy_example =
    status_available-IsHealthy operator_api at_hour "" created sets_conditions operator_created

port_tests :
    (metrics_port none ≡ ok "127.0.0.1:9191")
    × (metrics_port (some "9193") ≡ ok ":9193")
    × (metrics_port (some "") ≡ err (bad_metrics_port "" (external "invalid syntax")))
unfolding metrics_port atoi itoa
port_tests = (refl, refl, refl)
