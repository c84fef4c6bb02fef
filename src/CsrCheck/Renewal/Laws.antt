-- ===== src/CsrCheck/Renewal/Laws.antt =====
-- When a renewal is authorised by the present certificate alone.
use mathlib.Core.List.{Perm}
use mathlib.Core.List.Perm
use Prim.Native.String
use text.Mathlib.TextLemmas.{append_assoc}
use cluster_machine_approver.Prelude.{
  ◌≡◌, refl, sym, ◌↔◌, Bool, true, false, not, none, some, map, String, Error, if◌then◌else◌,
  eq_iff, and_iff, then_check-eq-none, then_check-none, arith,
}
use cluster_machine_approver.GoStd.Ip.{to_string}
use cluster_machine_approver.Kube.{CertificateRequest, Certificate, CertPool}
use cluster_machine_approver.Kube.Outside.{Libs}
use cluster_machine_approver.CsrCheck.{node_user, node_user_prefix}
use cluster_machine_approver.CsrCheck.Sans.{url_string, csr_sans, cert_sans}
use cluster_machine_approver.CsrCheck.Sans.Laws.{
  equal_strings_iff, equal_urls_iff, equal_ip_addresses_iff,
}
use cluster_machine_approver.CsrCheck.Renewal.{
  verify_certificate_common_name, authorize_serving_renewal,
}

-- The present certificate is good, is the node's, and has the request's name.
pub record IsNodeCert (lib : Libs) (node : String) (csr : CertificateRequest) (cert : Certificate)
    (pool : CertPool) : Type 0 where
  pub verified : lib.verify cert pool ≡ none
  pub of_node : cert.common_name ≡ String.◌++◌ node_user_prefix node
  pub same_name : cert.common_name ≡ csr.common_name

prefix_spelled :
    (node : String)
    → String.◌++◌ node_user (String.◌++◌ ":" node) ≡ String.◌++◌ node_user_prefix node
prefix_spelled node = sym (append_assoc node_user ":" node)

module _ (lib : Libs) (node : String) (csr : CertificateRequest) (cert : Certificate)
    (pool : CertPool) where
  pub verify_certificate_common_name_iff :
      (verify_certificate_common_name lib node (some csr) (some cert) (some pool) ≡ none)
      ↔ IsNodeCert lib node csr cert pool
  unfolding verify_certificate_common_name
  verify_certificate_common_name_iff = (
    λ h.
        let (v, rest) = then_check-eq-none (lib.verify cert pool) _ h in
        record {
          verified = v;
          of_node = ground (
            arith,
            prefix_spelled node,
            eq_iff cert.common_name (String.◌++◌ node_user (String.◌++◌ ":" node)),
          );
          same_name = ground (arith, eq_iff cert.common_name csr.common_name);
        },
    λ s. ground (
      arith,
      s.verified,
      s.of_node,
      s.same_name,
      prefix_spelled node,
      eq_iff cert.common_name csr.common_name,
      eq_iff cert.common_name (String.◌++◌ node_user (String.◌++◌ ":" node)),
    ),
  )

-- What makes a renewal: a good certificate of the node, and the same names in any order.
pub record IsRenewal (lib : Libs) (node : String) (csr : CertificateRequest) (cert : Certificate)
    (pool : CertPool) : Type 0 where
  pub node_cert : IsNodeCert lib node csr cert pool
  pub dns_names : Perm cert.dns_names csr.dns_names
  pub email_addresses : Perm cert.email_addresses csr.email_addresses
  pub ip_addresses : Perm (map to_string cert.ip_addresses) (map to_string csr.ip_addresses)
  pub uris : Perm (map url_string cert.uris) (map url_string csr.uris)

pub match-eq-none_iff :
    (b : Bool) (e : Error) → ((if not b then some e else none) ≡ none) ↔ (b ≡ true)
match-eq-none_iff true e = (λ _. refl, λ _. refl)
match-eq-none_iff false e = (λ h. cc, λ h. cc)

-- With a pool of roots at hand, a renewal is authorised exactly when the present certificate
-- verifies against it, is the node's, has the request's common name, and has the request's DNS
-- names, email addresses, IP addresses and URIs, each up to order.
pub authorize_serving_renewal_iff :
    (lib : Libs) (node : String) (csr : CertificateRequest) (cert : Certificate) (pool : CertPool)
    → (authorize_serving_renewal lib node csr cert (some pool) ≡ none)
      ↔ IsRenewal lib node csr cert pool
unfolding authorize_serving_renewal
authorize_serving_renewal_iff lib node csr cert pool = (
  λ h.
      let (c, m) =
        then_check-eq-none
          (verify_certificate_common_name lib node (some csr) (some cert) (some pool)) _ h in
      let (d, r) = (and_iff _ _).0 ((match-eq-none_iff _ _).0 m) in
      let (e, r') = (and_iff _ _).0 r in
      let (i, u) = (and_iff _ _).0 r' in
      record {
        node_cert = (verify_certificate_common_name_iff lib node csr cert pool).0 c;
        dns_names = (equal_strings_iff _ _).0 d;
        email_addresses = (equal_strings_iff _ _).0 e;
        ip_addresses = (equal_ip_addresses_iff _ _).0 i;
        uris = (equal_urls_iff _ _).0 u;
      },
  λ s. then_check-none ((verify_certificate_common_name_iff lib node csr cert pool).1 s.node_cert) (
      (match-eq-none_iff _ _).1 (
        (and_iff _ _).1 (
          (equal_strings_iff _ _).1 s.dns_names,
          (and_iff _ _).1 (
            (equal_strings_iff _ _).1 s.email_addresses,
            (and_iff _ _).1
                ((equal_ip_addresses_iff _ _).1 s.ip_addresses, (equal_urls_iff _ _).1 s.uris),
          ),
        ))),
)

-- A request that is authorised as a renewal asks for the names of the present certificate, in some
-- order, and for no other: the lists that the log shows are rearrangements of one another.
pub authorize_serving_renewal-perm_sans :
    (lib : Libs) (node : String) (csr : CertificateRequest) (cert : Certificate) (pool : CertPool)
    → authorize_serving_renewal lib node csr cert (some pool) ≡ none
    → Perm (cert_sans (some cert)) (csr_sans (some csr))
unfolding cert_sans csr_sans
authorize_serving_renewal-perm_sans lib node csr cert pool h =
    let r = (authorize_serving_renewal_iff lib node csr cert pool).0 h in
    Perm.append r.dns_names (Perm.append r.email_addresses (Perm.append r.ip_addresses r.uris))
