-- ===== src/Kube.antt =====
-- The data that the program reads and writes: API objects, certificates, and what lies outside the
-- repository. Only the fields that the program touches are kept.
pub mod Outside
use cluster_machine_approver.Prelude.{
  ℕ, ◌≡◌, refl, Bool, true, false, ◌&&◌, Option, none, some, List, String, ◌==◌, Error, Result, ltb,
}
use cluster_machine_approver.Prelude.Int.{ℤ, ltb_ℤ}
use cluster_machine_approver.GoStd.Ip.{Ip, IpNet}

-- An instant, in nanoseconds from the start of 1970, UTC.
abbrev pub Time : Type 0
Time = ℤ

-- A URL goes into the program's decisions by its `String` alone.
pub record Url : Type 0 where
  pub text : String

-- certificatesv1.CertificateSigningRequestCondition
pub record Condition : Type 0 where
  pub type : String
  pub status : String
  pub reason : String
  pub message : String
  pub last_update_time : Time
  pub last_transition_time : Time

-- certificatesv1.CertificateSigningRequest
pub record Csr : Type 0 where
  pub name : String
  pub creation_timestamp : Time
  pub username : String
  pub groups : List String
  pub usages : List String
  pub request : List ℕ
  pub conditions : List Condition

-- x509.CertificateRequest
pub record CertificateRequest : Type 0 where
  pub common_name : String
  pub organization : List String
  pub dns_names : List String
  pub email_addresses : List String
  pub ip_addresses : List Ip
  pub uris : List Url

-- x509.Certificate; `serial` stands for all of it that only `Verify` reads.
pub record Certificate : Type 0 where
  pub serial : ℕ
  pub common_name : String
  pub dns_names : List String
  pub email_addresses : List String
  pub ip_addresses : List Ip
  pub uris : List Url

-- x509.CertPool, by the bundle that it was read from
pub record CertPool : Type 0 where
  pub bundle : String

-- corev1.NodeAddress
pub record NodeAddress : Type 0 where
  pub type : String
  pub address : String

-- corev1.Node
pub record Node : Type 0 where
  pub name : String
  pub addresses : List NodeAddress
  pub kubelet_port : ℤ

-- configv1.Network
pub record Network : Type 0 where
  pub network_type : String

-- networkv1.HostSubnet
pub record HostSubnet : Type 0 where
  pub egress_ips : List String
  pub egress_cidrs : List String

-- corev1.ConfigMap
pub record ConfigMap : Type 0 where
  pub name : String
  pub namespace : String
  pub items : List (String × String)

-- corev1.ObjectReference
pub record ObjectReference : Type 0 where
  pub name : String

-- The constants of certificates/v1 and core/v1.
abbrev pub certificate_approved : String
certificate_approved = "Approved"

abbrev pub certificate_denied : String
certificate_denied = "Denied"

abbrev pub usage_digital_signature : String
usage_digital_signature = "digital signature"

abbrev pub usage_key_encipherment : String
usage_key_encipherment = "key encipherment"

abbrev pub usage_server_auth : String
usage_server_auth = "server auth"

abbrev pub usage_client_auth : String
usage_client_auth = "client auth"

abbrev pub node_internal_dns : String
node_internal_dns = "InternalDNS"

abbrev pub node_external_dns : String
node_external_dns = "ExternalDNS"

abbrev pub node_host_name : String
node_host_name = "Hostname"

abbrev pub node_internal_ip : String
node_internal_ip = "InternalIP"

abbrev pub node_external_ip : String
node_external_ip = "ExternalIP"
