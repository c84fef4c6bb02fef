-- ===== src/CsrCheck/ServingCert/Laws.antt =====
-- What `getServingCert` asks of a node.
use cluster_machine_approver.Prelude.{
  ◌≡◌, refl, ◌∙◌, ap, inl, inr, ◌↔◌, some, List, [], ◌∷◌, String, ◌==◌, ok, >>=-eq-ok, find,
  ok_injective, arith, Bool-cases,
}
use cluster_machine_approver.GoStd.Strings.{itoa, join_host_port}
use cluster_machine_approver.Kube.{Certificate, CertPool, Node, NodeAddress, node_internal_ip}
use cluster_machine_approver.Kube.Outside.{Libs, Client}
use cluster_machine_approver.CsrCheck.ServingCert.{
  first_internal_ip, node_internal_ip_of, get_serving_cert,
}

-- The kubelet at the first internal IP address of the node, at its port, presents the certificate
-- over a connection that is verified against the roots for that address.
pub record IsPresented (lib : Libs) (c : Client) (name : String) (ca : CertPool)
    (cert : Certificate) : Type 0 where
  pub node : Node
  pub fetched : c.get_node name ≡ ok node
  pub address : NodeAddress
  pub first : find (λ a. a.type == node_internal_ip) node.addresses ≡ some address
  pub dialled :
      lib.dial (join_host_port address.address (itoa node.kubelet_port)) ca address.address
      ≡ ok cert

first_internal_ip_sound :
    (name : String) (addresses : List NodeAddress) {host : String}
    → first_internal_ip name addresses ≡ ok host
    → (a : NodeAddress) × (find (λ x. x.type == node_internal_ip) addresses ≡ some a)
      × (a.address ≡ host)
unfolding first_internal_ip
first_internal_ip_sound name [] h = cc
first_internal_ip_sound name (a ∷ rest) h = elim (Bool-cases (a.type == node_internal_ip)) [
  | inl e ↦ rw e (a, refl, ok_injective (rw e at h))
  | inr e ↦ rw e (first_internal_ip_sound name rest (rw e at h))
]

first_internal_ip_complete :
    (name : String) (addresses : List NodeAddress) {a : NodeAddress}
    → find (λ x. x.type == node_internal_ip) addresses ≡ some a
    → first_internal_ip name addresses ≡ ok a.address
unfolding first_internal_ip
first_internal_ip_complete name [] h = cc
first_internal_ip_complete name (x ∷ rest) {a} h = elim (Bool-cases (x.type == node_internal_ip)) [
  | inl e ↦ let same : x ≡ a = ground arith in rw e (ap (λ y. ok y.address) same)
  | inr e ↦ rw e (first_internal_ip_complete name rest (rw e at h))
]

-- With a pool of roots at hand, a certificate is retrieved exactly when the node can be fetched and has
-- an internal IP address, and the kubelet at the first such address, at its port, presents the
-- certificate over a connection verified against the roots for that address.
pub get_serving_cert_iff :
    (lib : Libs) (c : Client) (name : String) (ca : CertPool) (cert : Certificate)
    → (get_serving_cert lib c name (some ca) ≡ ok cert) ↔ IsPresented lib c name ca cert
unfolding get_serving_cert node_internal_ip_of
get_serving_cert_iff lib c name ca cert = (sound, complete)
  where
    sound : get_serving_cert lib c name (some ca) ≡ ok cert → IsPresented lib c name ca cert
    sound h =
        let (node, fetched, h') = >>=-eq-ok (c.get_node name) _ h in
        let (host, chosen, dialled) = >>=-eq-ok (first_internal_ip node.name node.addresses) _ h' in
        let (address, first, same) = first_internal_ip_sound node.name node.addresses chosen in
        record {
          node = node;
          fetched = fetched;
          address = address;
          first = first;
          dialled =
              ap (λ x. lib.dial (join_host_port x (itoa node.kubelet_port)) ca x) same ∙ dialled;
        }

    complete : IsPresented lib c name ca cert → get_serving_cert lib c name (some ca) ≡ ok cert
    complete p =
        rw (p.fetched, first_internal_ip_complete p.node.name p.node.addresses p.first) p.dialled
