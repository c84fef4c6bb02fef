-- ===== src/CsrCheck/Egress/Laws.antt =====
-- When a renewal is authorised with the node's egress addresses allowed besides.
use mathlib.Core.List.{Perm}
use cluster_machine_approver.Prelude.{
  ◌≡◌, refl, ◌∙◌, ap, ap₂, ◌↔◌, none, some, List, [], ◌∷◌, ◌++◌, map, Memᴰ, String, Result, ok, err,
  egress_cidr_failed, ok_injective, wrap_error, wrap_error-eq-ok, >>=-eq-ok, and_iff,
  then_check-eq-none, then_check-none,
}
use cluster_machine_approver.GoStd.ParseIp.{parse_ip}
use cluster_machine_approver.GoStd.ParseCidr.{parse_cidr}
use cluster_machine_approver.GoStd.Ip.{Ip, IpNet}
use cluster_machine_approver.Kube.{CertificateRequest, Certificate, CertPool, HostSubnet}
use cluster_machine_approver.Kube.Outside.{Libs, Client}
use cluster_machine_approver.CsrCheck.Sans.{url_string}
use cluster_machine_approver.CsrCheck.Sans.Laws.{
  IsAllowed, equal_strings_iff, equal_urls_iff, subset_ip_addresses_iff,
}
use cluster_machine_approver.CsrCheck.Renewal.{verify_certificate_common_name}
use cluster_machine_approver.CsrCheck.Renewal.Laws.{
  IsNodeCert, verify_certificate_common_name_iff, match-eq-none_iff,
}
use cluster_machine_approver.CsrCheck.Egress.{
  parse_cidrs, check_ips, check_subnet, authorize_serving_renewal_with_egress_ips,
}

-- What makes a renewal with egress addresses.
pub record IsEgressRenewal (lib : Libs) (c : Client) (node : String) (csr : CertificateRequest)
    (cert : Certificate) (pool : CertPool) : Type 0 where
  pub node_cert : IsNodeCert lib node csr cert pool
  pub dns_names : Perm cert.dns_names csr.dns_names
  pub email_addresses : Perm cert.email_addresses csr.email_addresses
  pub uris : Perm (map url_string cert.uris) (map url_string csr.uris)
  pub subnet : HostSubnet
  pub got : c.get_host_subnet node ≡ ok subnet
  pub cidrs : List IpNet
  pub parsed : map parse_cidr subnet.egress_cidrs ≡ map ok cidrs
  pub allowed :
      (ip : Ip)
      → Memᴰ ip csr.ip_addresses
      → IsAllowed cidrs (cert.ip_addresses ++ map parse_ip subnet.egress_ips) ip

parse_cidrs_sound :
    (texts : List String) (cidrs : List IpNet)
    → parse_cidrs texts ≡ ok cidrs
    → map parse_cidr texts ≡ map ok cidrs
unfolding parse_cidrs
parse_cidrs_sound [] cidrs h = ap (map ok) (ok_injective h)
parse_cidrs_sound (t ∷ ts) cidrs h =
    let (cidr, parsed, h') = >>=-eq-ok (wrap_error egress_cidr_failed (parse_cidr t)) _ h in
    let (rest, more, h'') = >>=-eq-ok (parse_cidrs ts) _ h' in
    ap₂ ◌∷◌ (wrap_error-eq-ok egress_cidr_failed _ parsed) (parse_cidrs_sound ts rest more)
    ∙ ap (map ok) (ok_injective h'')

parse_cidrs_complete :
    (texts : List String) (cidrs : List IpNet)
    → map parse_cidr texts ≡ map ok cidrs
    → parse_cidrs texts ≡ ok cidrs
unfolding parse_cidrs
parse_cidrs_complete [] [] h = refl
parse_cidrs_complete [] (cidr ∷ cidrs) h = cc
parse_cidrs_complete (t ∷ ts) [] h = cc
parse_cidrs_complete (t ∷ ts) (cidr ∷ cidrs) h =
    let parsed : parse_cidr t ≡ ok cidr = cc in
    let more : parse_cidrs ts ≡ ok cidrs = parse_cidrs_complete ts cidrs (cc) in rw (parsed, more)

-- The networks parse exactly when each one does.
pub parse_cidrs_iff :
    (texts : List String) (cidrs : List IpNet)
    → (parse_cidrs texts ≡ ok cidrs) ↔ (map parse_cidr texts ≡ map ok cidrs)
parse_cidrs_iff texts cidrs = (parse_cidrs_sound texts cidrs, parse_cidrs_complete texts cidrs)

module _ (super sub : List Ip) where
  check_ips_sound :
      (r : Result (List IpNet))
      → check_ips super sub r ≡ none
      → (cidrs : List IpNet) × (r ≡ ok cidrs) × ((ip : Ip) → Memᴰ ip sub → IsAllowed cidrs super ip)
  check_ips_sound (err e) h = cc
  check_ips_sound (ok cidrs) h =
      (cidrs, refl, (subset_ip_addresses_iff cidrs super sub).0 ((match-eq-none_iff _ _).0 h))

check_subnet_sound :
    (lib : Libs) (current requested : List Ip) (r : Result HostSubnet)
    → check_subnet current requested r ≡ none
    → (subnet : HostSubnet) × (r ≡ ok subnet)
      × (check_ips
            (current ++ map parse_ip subnet.egress_ips)
            requested
            (parse_cidrs subnet.egress_cidrs)
          ≡ none)
check_subnet_sound lib current requested (err e) h = cc
check_subnet_sound lib current requested (ok subnet) h = (subnet, refl, h)

-- With a pool of roots at hand, a renewal with egress addresses is authorised exactly when the
-- present certificate is the node's as for a renewal, has the request's DNS names, email addresses
-- and URIs up to order, the node's HostSubnet can be fetched, each of its egress networks parses, and
-- each requested address is one of the certificate's or of the egress addresses, or lies in one of
-- the networks.
pub authorize_serving_renewal_with_egress_ips_iff :
    (lib : Libs) (c : Client) (node : String) (csr : CertificateRequest) (cert : Certificate)
    (pool : CertPool)
    → (authorize_serving_renewal_with_egress_ips lib c node csr cert (some pool) ≡ none)
      ↔ IsEgressRenewal lib c node csr cert pool
unfolding authorize_serving_renewal_with_egress_ips
authorize_serving_renewal_with_egress_ips_iff lib c node csr cert pool = (
  λ h.
      let (v, h') =
        then_check-eq-none
          (verify_certificate_common_name lib node (some csr) (some cert) (some pool)) _ h in
      let (m, s) = then_check-eq-none _ _ h' in
      let (d, r) = (and_iff _ _).0 ((match-eq-none_iff _ _).0 m) in
      let (e, u) = (and_iff _ _).0 r in
      let (subnet, got, ips) =
        check_subnet_sound lib cert.ip_addresses csr.ip_addresses (c.get_host_subnet node) s in
      let (cidrs, parsed, allowed) =
        check_ips_sound (cert.ip_addresses ++ map parse_ip subnet.egress_ips) csr.ip_addresses
          (parse_cidrs subnet.egress_cidrs) ips in
      record {
        node_cert = (verify_certificate_common_name_iff lib node csr cert pool).0 v;
        dns_names = (equal_strings_iff _ _).0 d;
        email_addresses = (equal_strings_iff _ _).0 e;
        uris = (equal_urls_iff _ _).0 u;
        subnet = subnet;
        got = got;
        cidrs = cidrs;
        parsed = (parse_cidrs_iff subnet.egress_cidrs cidrs).0 parsed;
        allowed = allowed;
      },
  λ s. then_check-none ((verify_certificate_common_name_iff lib node csr cert pool).1 s.node_cert) (
      then_check-none
        ((match-eq-none_iff _ _).1 (
          (and_iff _ _).1 (
            (equal_strings_iff _ _).1 s.dns_names,
            (and_iff _ _).1
                ((equal_strings_iff _ _).1 s.email_addresses, (equal_urls_iff _ _).1 s.uris),
          )))
        (rw (s.got, (parse_cidrs_iff s.subnet.egress_cidrs s.cidrs).1 s.parsed)
          ((match-eq-none_iff _ _).1 ((subset_ip_addresses_iff s.cidrs _ _).1 s.allowed)))),
)
