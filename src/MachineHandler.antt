-- ===== src/MachineHandler.antt =====
-- pkg/machinehandler/machinehandler.go
pub mod Find
pub mod Listing
pub mod Hook
use cluster_machine_approver.Prelude.{
  ℕ, ◌≡◌, Bool, true, false, ◌&&◌, not, Option, none, some, List, [], ◌∷◌, ◌++◌, map, String, ◌==◌,
  Error, api_group_not_found, machine_not_found, config_nil, discovery_client_failed,
  server_groups_failed, Result, ok, err, ◌>>=◌, wrap_error, any, find, if◌then◌else◌,
}
use cluster_machine_approver.GoStd.Rfc3339.{parse_rfc3339}
use cluster_machine_approver.Kube.{Time, NodeAddress, ObjectReference, node_internal_dns}

pub record Machine : Type 0 where
  pub name : String
  pub creation_timestamp : Time
  pub node_ref : Option ObjectReference
  pub addresses : List NodeAddress

pub record GroupVersion : Type 0 where
  pub group : String
  pub version : String

-- metav1.APIGroup
pub record ApiGroup : Type 0 where
  pub name : String
  pub preferred_version : String

-- A part of an object that mapstructure decodes, by what the hook asks of its type, and the type that
-- it is to have.
pub data Value (Data : Type 0) : Type 0 where
  string_value : String → Value Data
  time_value : Time → Value Data
  other_value : Data → Value Data

pub data Target : Type 0 where
  time_target other_target : Target

abbrev pub DecodeHook : (Data : Type 0) → Type 0
DecodeHook Data = Target → Value Data → Result (Value Data)

-- `stringToTimeHook`
unfoldable pub string_to_time_hook : {Data : Type 0} → DecodeHook Data
string_to_time_hook time_target (string_value s) = do time ← parse_rfc3339 s; ok (time_value time)
string_to_time_hook time_target (time_value t) = ok (time_value t)
string_to_time_hook time_target (other_value d) = ok (other_value d)
string_to_time_hook other_target v = ok v

-- What `ListMachines` asks of the management cluster: whether the handler has a config, discovery,
-- the list of objects (group, version, namespace, "" for all), and the decoding of one object, which
-- mapstructure does with the hook that it is given.
pub record MachineApi : Type 1 where
  pub Object : Type 0
  pub Data : Type 0
  pub has_config : Bool
  pub new_discovery_client : Option Error
  pub server_groups : Result (List ApiGroup)
  pub list_objects : (group version namespace : String) → Result (List Object)
  pub decode : DecodeHook Data → Object → Result Machine

find_group : String → List ApiGroup → Result String
find_group api_group [] = err api_group_not_found
find_group api_group (g ∷ gs) =
    if g.name == api_group then ok g.preferred_version else find_group api_group gs

-- `getAPIGroupPreferredVersion`
unfoldable pub get_api_group_preferred_version : MachineApi → String → Result String
unfolding find_group
get_api_group_preferred_version api api_group =
    if not api.has_config then err config_nil else elim api.new_discovery_client [
      | some e ↦ err (discovery_client_failed e)
      | none ↦ do
        groups ← wrap_error server_groups_failed api.server_groups
        find_group api_group groups
    ]

unfoldable pub decode_all : (api : MachineApi) → List api.Object → Result (List Machine)
decode_all api [] = ok []
decode_all api (o ∷ os) = do
  machine ← api.decode string_to_time_hook o
  rest ← decode_all api os
  ok (machine ∷ rest)

-- A group that the server does not know has no machines.
list_versioned :
    (api : MachineApi) (namespace : String) (gv : GroupVersion)
    → Result String
    → Result (List Machine)
unfolding decode_all
list_versioned api namespace gv (err api_group_not_found) = ok []
list_versioned api namespace gv (err e) = err e
list_versioned api namespace gv (ok preferred) = do
  objects ← api.list_objects gv.group (if gv.version == "" then preferred else gv.version) namespace
  decode_all api objects

-- `ListMachines`; the namespace is the handler's, and "" leaves the option out.
unfoldable pub list_machines :
    MachineApi → (namespace : String) → GroupVersion → Result (List Machine)
unfolding list_versioned get_api_group_preferred_version
list_machines api namespace gv =
    list_versioned api namespace gv (get_api_group_preferred_version api gv.group)

unfoldable pub has_internal_dns : String → Machine → Bool
has_internal_dns node_name m =
    any (λ a. a.type == node_internal_dns && a.address == node_name) m.addresses

abbrev pub or_not_found : Option Machine → Result Machine
or_not_found none = err machine_not_found
or_not_found (some m) = ok m

-- `FindMatchingMachineFromInternalDNS`
unfoldable pub find_matching_machine_from_internal_dns : List Machine → String → Result Machine
unfolding has_internal_dns
find_matching_machine_from_internal_dns machines node_name =
    or_not_found (find (has_internal_dns node_name) machines)

abbrev ref_is : String → Option ObjectReference → Bool
ref_is node_name none = false
ref_is node_name (some r) = r.name == node_name

unfoldable pub has_node_ref : String → Machine → Bool
has_node_ref node_name m = ref_is node_name m.node_ref

-- `FindMatchingMachineFromNodeRef`
unfoldable pub find_matching_machine_from_node_ref : List Machine → String → Result Machine
unfolding has_node_ref
find_matching_machine_from_node_ref machines node_name =
    or_not_found (find (has_node_ref node_name) machines)
