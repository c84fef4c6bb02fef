-- ===== src/CsrCheck/Sans.antt =====
-- Comparing subject alternative names: `equalStrings`, `equalURLs`, `equalIPAddresses`,
-- `subsetIPAddresses`, `ipInSet`, `csrSANs`, `certSANs`.
pub mod Laws
use cluster_machine_approver.Prelude.{
  Bool, true, false, ◌&&◌, not, Option, none, some, List, [], ◌∷◌, ◌++◌, map, String, length, all,
  any, contains, texts_eq, nat_eq, if◌then◌else◌,
}
use cluster_machine_approver.GoStd.Sort.{sort_strings}
use cluster_machine_approver.GoStd.Ip.{Ip, IpNet, to_string, net_contains}
use cluster_machine_approver.Kube.{Url, CertificateRequest, Certificate}

unfoldable pub equal_strings : (a b : List String) → Bool
equal_strings a b = texts_eq (sort_strings a) (sort_strings b)

abbrev pub url_string : Url → String
url_string u = u.text

unfoldable pub equal_urls : (a b : List Url) → Bool
equal_urls a b =
    if not (nat_eq (length a) (length b))
    then false
    else texts_eq (sort_strings (map url_string a)) (sort_strings (map url_string b))

unfoldable pub equal_ip_addresses : (a b : List Ip) → Bool
equal_ip_addresses a b =
    if not (nat_eq (length a) (length b))
    then false
    else texts_eq (sort_strings (map to_string a)) (sort_strings (map to_string b))

-- `ipSet` by its keys
unfoldable pub ip_in_set : List IpNet → (ip_set : List String) → Ip → Bool
ip_in_set cidrs ip_set ip_addr =
    if contains (to_string ip_addr) ip_set
    then true
    else any (λ cidr. net_contains cidr ip_addr) cidrs

unfoldable pub subset_ip_addresses : List IpNet → (super sub : List Ip) → Bool
unfolding ip_in_set
subset_ip_addresses cidrs super sub =
    let super_set = map to_string super in all (λ ip_addr. ip_in_set cidrs super_set ip_addr) sub

abbrev pub sans :
    (dns_names email_addresses : List String) (ip_addresses : List Ip) (uris : List Url)
    → List String
sans dns_names email_addresses ip_addresses uris =
    dns_names ++ (email_addresses ++ (map to_string ip_addresses ++ map url_string uris))

unfoldable pub csr_sans : Option CertificateRequest → List String
csr_sans none = []
csr_sans (some csr) = sans csr.dns_names csr.email_addresses csr.ip_addresses csr.uris

unfoldable pub cert_sans : Option Certificate → List String
cert_sans none = []
cert_sans (some cert) = sans cert.dns_names cert.email_addresses cert.ip_addresses cert.uris
