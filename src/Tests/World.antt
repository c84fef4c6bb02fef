-- ===== src/Tests/World.antt =====
-- A cluster with two machines: worker-1, whose node does not exist yet, and worker-2, whose node does.
use cluster_machine_approver.Prelude.{
  ℕ, ◌*◌, ◌≡◌, ◌↔◌, Bool, true, ◌&&◌, none, some, List, [], ◌∷◌, Memᴰ, String, ◌==◌, external,
  api_not_found, Result, ok, err, all, all_sound, all_complete, and_iff, contains, contains_iff,
  nat_eq, length, if◌then◌else◌,
}
use cluster_machine_approver.Prelude.Int.{pos}
use cluster_machine_approver.GoStd.Ip.{Ip, IpNet}
use cluster_machine_approver.Kube.{
  Time, Csr, CertificateRequest, Certificate, CertPool, Node, ConfigMap, usage_digital_signature,
  usage_key_encipherment, usage_server_auth, usage_client_auth, node_internal_dns, node_internal_ip,
}
use cluster_machine_approver.Kube.Outside.{StringSets, Libs, Client}
use cluster_machine_approver.Config.{default_config}
use cluster_machine_approver.MachineHandler.{Machine, GroupVersion, MachineApi}
use cluster_machine_approver.CsrCheck.{
  second, node_bootstrapper_username, node_bootstrapper_groups, node_group, authenticated_group,
}
use cluster_machine_approver.Controller.Limits.{State}
use cluster_machine_approver.Controller.Approve.{CertificatesApi}
use cluster_machine_approver.Controller.Reconcile.{CertificateApprover}

-- Sets of texts as lists.
abbrev sub : (xs ys : List String) → Bool
sub xs ys = all (λ y. contains y xs) ys

pub sub_iff : (xs ys : List String) → (sub xs ys ≡ true) ↔ ((y : String) → Memᴰ y ys → Memᴰ y xs)
sub_iff xs ys = (
  λ h y m. (contains_iff y xs).0 (all_sound (λ z. contains z xs) h m),
  λ k. all_complete (λ z. contains z xs) ys λ y m. (contains_iff y xs).1 (k y m),
)

pub same_iff :
    (xs ys : List String)
    → ((sub xs ys && sub ys xs) ≡ true) ↔ ((y : String) → Memᴰ y xs ↔ Memᴰ y ys)
same_iff xs ys = (
  λ h y. let (a, b) = (and_iff _ _).0 h in ((sub_iff ys xs).0 b y, (sub_iff xs ys).0 a y),
  λ k. (and_iff _ _).1 ((sub_iff xs ys).1 (λ y m. (k y).1 m), (sub_iff ys xs).1 (λ y m. (k y).0 m)),
)

abbrev pub string_sets : StringSets
string_sets = record {
  has_all = sub;
  equal = λ xs ys. sub xs ys && sub ys xs;
  has_all_iff = sub_iff;
  equal_iff = same_iff;
}

abbrev pub hour : ℕ
hour = 3600 * second

abbrev pub at_hour : ℕ → Time
at_hour n = pos (n * hour)

abbrev pub ip2 : Ip
ip2 = 10 ∷ 0 ∷ 0 ∷ 2 ∷ []

abbrev pub client_request : CertificateRequest
client_request = record {
  common_name = "system:node:worker-1";
  organization = "system:nodes" ∷ [];
  dns_names = [];
  email_addresses = [];
  ip_addresses = [];
  uris = [];
}

abbrev pub serving_request : CertificateRequest
serving_request = record {
  common_name = "system:node:worker-2";
  organization = "system:nodes" ∷ [];
  dns_names = "Worker-2.local" ∷ "" ∷ [];
  email_addresses = [];
  ip_addresses = ip2 ∷ [];
  uris = [];
}

abbrev pub serving_cert : Certificate
serving_cert = record {
  serial = 1;
  common_name = "system:node:worker-2";
  dns_names = "" ∷ "Worker-2.local" ∷ [];
  email_addresses = [];
  ip_addresses = ip2 ∷ [];
  uris = [];
}

abbrev pub client_csr : Csr
client_csr = record {
  name = "csr-1";
  creation_timestamp = at_hour 101;
  username = node_bootstrapper_username;
  groups = node_bootstrapper_groups;
  usages = usage_key_encipherment ∷ usage_digital_signature ∷ usage_client_auth ∷ [];
  request = 1 ∷ [];
  conditions = [];
}

abbrev pub serving_csr : Csr
serving_csr = record {
  name = "csr-2";
  creation_timestamp = at_hour 101;
  username = "system:node:worker-2";
  groups = node_group ∷ authenticated_group ∷ [];
  usages = usage_digital_signature ∷ usage_server_auth ∷ [];
  request = 2 ∷ [];
  conditions = [];
}

abbrev pub machine1 : Machine
machine1 = record {
  name = "machine-1";
  creation_timestamp = at_hour 100;
  node_ref = none;
  addresses = record { type = node_internal_dns; address = "worker-1" } ∷ [];
}

abbrev pub machine2 : Machine
machine2 = record {
  name = "machine-2";
  creation_timestamp = at_hour 90;
  node_ref = some (record { name = "worker-2" });
  addresses =
      record { type = node_internal_dns; address = "worker-2.LOCAL" }
      ∷ record { type = node_internal_ip; address = "10.0.0.2" }
      ∷ [];
}

abbrev pub machines : List Machine
machines = machine1 ∷ machine2 ∷ []

abbrev pub node2 : Node
node2 = record {
  name = "worker-2";
  addresses = record { type = node_internal_ip; address = "10.0.0.2" } ∷ [];
  kubelet_port = pos 10250;
}

abbrev pub ten_net : IpNet
ten_net = record { ip = 10 ∷ 0 ∷ 0 ∷ 0 ∷ []; mask = 255 ∷ 0 ∷ 0 ∷ 0 ∷ [] }

abbrev request_of : List ℕ → Result CertificateRequest
request_of [] = err (external "no request")
request_of (b ∷ bs) = if nat_eq b 1 then ok client_request else ok serving_request

abbrev pub lib : Libs
lib = record {
  sets = string_sets;
  fold = λ c. c;
  verify = λ cert pool. if nat_eq cert.serial 1 then none else some (external "expired");
  pem_decode = λ bytes.
      if nat_eq (length bytes) 0
      then none
      else some (record { type = "CERTIFICATE REQUEST"; bytes = bytes });
  parse_certificate_request = request_of;
  append_certs_from_pem = λ bundle. bundle == "pem";
  dial = λ address ca server.
      if address == "10.0.0.2:10250" then ok serving_cert else err (external "timeout");
}

abbrev pub ca_config_map : ConfigMap
ca_config_map = record {
  name = "csr-controller-ca";
  namespace = "openshift-config-managed";
  items = ("ca-bundle.crt", "pem") ∷ [];
}

abbrev pub pool : CertPool
pool = record { bundle = "pem" }

abbrev pub client : Client
client = record {
  get_node = λ name. if name == "worker-2" then ok node2 else err (api_not_found "nodes");
  get_network = λ name. ok (record { network_type = "OpenShiftSDN" });
  get_host_subnet =
      λ name. ok (record { egress_ips = "10.0.0.9" ∷ []; egress_cidrs = "10.0.0.0/8" ∷ [] });
  get_config_map = λ namespace name. ok ca_config_map;
  list_csrs = ok (client_csr ∷ serving_csr ∷ []);
  list_nodes = ok (node2 ∷ []);
}

abbrev pub certificates : CertificatesApi
certificates = record {
  new_for_config = none;
  update_approval = λ csr. none;
  list = ok (serving_csr ∷ []);
}

abbrev pub machine_api : MachineApi
machine_api = record {
  Object = Machine;
  Data = String;
  has_config = true;
  new_discovery_client = none;
  server_groups = ok (record { name = "machine.openshift.io"; preferred_version = "v1beta1" } ∷ []);
  list_objects = λ group version namespace. ok machines;
  decode = λ hook m. ok m;
}

abbrev pub gv : GroupVersion
gv = record { group = "machine.openshift.io"; version = "" }

abbrev pub approver : CertificateApprover
approver = record {
  node_client = client;
  certificates = certificates;
  machine_api = machine_api;
  machine_namespace = "";
  config = default_config;
  api_group_versions = gv ∷ [];
  now_at_start = at_hour 101;
  now_at_approval = at_hour 101;
  now_at_end = at_hour 101;
}

abbrev pub start : State
start = record { max_pending_csrs = 0; pending_csrs = 0; sent = [] }
