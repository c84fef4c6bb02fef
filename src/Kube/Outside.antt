-- ===== src/Kube/Outside.antt =====
-- What the program calls and does not implement, as parameters: sets of texts, the Unicode tables,
-- X.509 and PEM, the network, and the API servers' answers.
use cluster_machine_approver.Prelude.{
  ℕ, ◌≡◌, Bool, true, Option, List, String, ◌↔◌, Memᴰ, Error, Result,
}
use cluster_machine_approver.Kube.{
  Csr, CertificateRequest, Certificate, CertPool, Node, Network, HostSubnet, ConfigMap,
}

-- k8s.io/apimachinery/pkg/util/sets: `NewString(xs...).HasAll(ys...)` and
-- `NewString(xs...).Equal(NewString(ys...))`, with their meaning.
pub record StringSets : Type 0 where
  pub has_all : (xs ys : List String) → Bool
  pub equal : (xs ys : List String) → Bool
  pub has_all_iff :
      (xs ys : List String) → (has_all xs ys ≡ true) ↔ ((y : String) → Memᴰ y ys → Memᴰ y xs)
  pub equal_iff :
      (xs ys : List String) → (equal xs ys ≡ true) ↔ ((y : String) → Memᴰ y xs ↔ Memᴰ y ys)

-- encoding/pem's block
pub record PemBlock : Type 0 where
  pub type : String
  pub bytes : List ℕ

-- Libraries, and connections to kubelets.
pub record Libs : Type 0 where
  pub sets : StringSets
  pub fold : ℕ → ℕ  -- unicode.SimpleFold beyond ASCII
  pub verify : Certificate → CertPool → Option Error  -- x509.Certificate.Verify
  pub pem_decode : List ℕ → Option PemBlock
  pub parse_certificate_request : List ℕ → Result CertificateRequest
  pub append_certs_from_pem : String → Bool  -- x509.CertPool.AppendCertsFromPEM
  -- tls.DialWithDialer: the address, the roots and the server name; the peer's first certificate
  pub dial : String → CertPool → String → Result Certificate

-- The answers of the workload cluster's API server (`client.Client`) to the reads of one reconcile.
-- A read of one kind with one key is made at most once in a reconcile.
pub record Client : Type 0 where
  pub get_node : String → Result Node
  pub get_network : String → Result Network
  pub get_host_subnet : String → Result HostSubnet
  pub get_config_map : (namespace name : String) → Result ConfigMap
  pub list_csrs : Result (List Csr)
  pub list_nodes : Result (List Node)
