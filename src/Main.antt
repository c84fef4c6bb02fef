-- ===== src/Main.antt =====
-- main.go: the API groups from the command line, the metrics port, and the clients. The children
-- Options and Startup are the rest of `main`.
pub mod Options
pub mod Startup
pub mod GroupVersions
pub mod Groups
pub mod Port
use Prim.Native.String
use cluster_machine_approver.Prelude.{
  ℕ, zero, suc, ◌+◌, Bool, true, false, ◌&&◌, ◌||◌, not, List, [], ◌∷◌, String, code, ◌==◌, Error,
  external, unsupported_api_group, bad_group_version, bad_group_version_option, bad_metrics_port,
  create_client_failed, Option, none, some, wrap_error, Result, ok, err, ◌>>=◌, length, ltb, nat_eq,
  if◌then◌else◌,
}
use cluster_machine_approver.GoStd.Strings.{itoa}
use cluster_machine_approver.GoStd.Atoi.{atoi}
use cluster_machine_approver.MachineHandler.{GroupVersion}

abbrev pub capi_group : String
capi_group = "cluster.x-k8s.io"

abbrev pub mapi_group : String
mapi_group = "machine.openshift.io"

unfoldable pub validate_api_group : String → Result (Unit {0})
validate_api_group api_group =
    if not (api_group == capi_group) && not (api_group == mapi_group)
    then err (unsupported_api_group api_group)
    else ok tt

-- `strings.Count(gv, "/")`
unfoldable pub count_slashes : String → ℕ
count_slashes String.[] = 0
count_slashes (String.◌∷◌ c s) =
    if nat_eq (code c) b'/' then suc (count_slashes s) else count_slashes s

-- `gv[:i]` and `gv[i+1:]` at the first slash
unfoldable pub before_slash : String → String
before_slash String.[] = ""
before_slash (String.◌∷◌ c s) = if nat_eq (code c) b'/' then "" else String.◌∷◌ c (before_slash s)

unfoldable pub after_slash : String → String
after_slash String.[] = ""
after_slash (String.◌∷◌ c s) = if nat_eq (code c) b'/' then s else after_slash s

unfoldable pub parse_group_version : String → Result GroupVersion
unfolding count_slashes before_slash after_slash
parse_group_version gv =
    if gv == "" || gv == "/"
    then ok (record { group = ""; version = "" })
    else let slashes = count_slashes gv in
      if nat_eq slashes 0
      then ok (record { group = gv; version = "" })
      else if nat_eq slashes 1
      then ok (record { group = before_slash gv; version = after_slash gv })
      else err (bad_group_version gv)

parse_all : List String → Result (List GroupVersion)
parse_all [] = ok []
parse_all (gv ∷ gvs) = do
  parsed ← wrap_error (λ e. bad_group_version_option gv) (parse_group_version gv)
  rest ← parse_all gvs
  ok (parsed ∷ rest)

validate_all : List GroupVersion → Result (Unit {0})
unfolding validate_api_group
validate_all [] = ok tt
validate_all (gv ∷ gvs) = do valid ← validate_api_group gv.group; validate_all gvs

-- The groups of the options before they are validated: `--api-group-version`, the default, and the
-- older `--apigroup`, which excludes the first.
chosen_groups :
    (api_group : String) → (api_group_versions : List String) → Result (List GroupVersion)
unfolding parse_all
chosen_groups api_group api_group_versions =
    if not (api_group == "") && ltb 0 (length api_group_versions)
    then err (external "Cannot set both --apigroup and --api-group-version options together.")
    else if not (api_group == "")
    then ok (record { group = api_group; version = "" } ∷ [])
    else if ltb 0 (length api_group_versions)
    then parse_all api_group_versions
    else ok (record { group = mapi_group; version = "" } ∷ [])

-- An error ends the program (`klog.Fatal`).
unfoldable pub api_group_versions_of :
    (api_group : String) → (api_group_versions : List String) → Result (List GroupVersion)
unfolding chosen_groups validate_all
api_group_versions_of api_group api_group_versions = do
  parsed ← chosen_groups api_group api_group_versions
  valid ← validate_all parsed
  ok parsed

-- metrics.DefaultMetricsPort
abbrev pub default_metrics_port : String
default_metrics_port = "127.0.0.1:9191"

-- The bind address of the metrics, from the environment's METRICS_PORT if it is set.
unfoldable pub metrics_port : (env : Option String) → Result String
metrics_port none = ok default_metrics_port
metrics_port (some port) = do
  v ← wrap_error (bad_metrics_port port) (atoi port)
  ok (String.◌++◌ ":" (itoa v))

-- `createClientConfigs`, over clientcmd.BuildConfigFromFlags: the management cluster's configuration
-- and the workload cluster's.
unfoldable pub create_client_configs {ℓ} :
    {C : Type ℓ} → (build : String → Result C) → (management workload : String) → Result (C × C)
create_client_configs build management workload = do
  management_config ← build management
  workload_config ← build workload
  ok (management_config, workload_config)

-- `createClients`, over client.New with no options
unfoldable pub create_clients {ℓ κ} :
    {C : Type ℓ} {K : Type κ} → (new : C → Result K) → (management workload : C) → Result (K × K)
create_clients new management_config workload_config = do
  management_client ← wrap_error create_client_failed (new management_config)
  workload_client ← wrap_error create_client_failed (new workload_config)
  ok (management_client, workload_client)
