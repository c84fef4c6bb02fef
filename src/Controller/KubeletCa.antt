-- ===== src/Controller/KubeletCa.antt =====
-- `getKubeletCA` and `parseCSR`
use cluster_machine_approver.Prelude.{
  Option, none, some, String, ◌==◌, bad_pem_block, Result, ok, err, if◌then◌else◌,
}
use cluster_machine_approver.Kube.{Csr, CertificateRequest, CertPool, ConfigMap}
use cluster_machine_approver.Kube.Outside.{Libs, Client, PemBlock}
use cluster_machine_approver.Controller.Filters.{
  lookup, config_namespace, kubelet_ca_config_map, ca_bundle_key,
}

abbrev pool_of : Libs → Option String → Option CertPool
pool_of lib none = none
pool_of lib (some ca_bundle) =
    if lib.append_certs_from_pem ca_bundle then some (record { bundle = ca_bundle }) else none

abbrev pool_in : Libs → Result ConfigMap → Option CertPool
pool_in lib (err e) = none
pool_in lib (ok config_map) = pool_of lib (lookup ca_bundle_key config_map.items)

unfoldable pub get_kubelet_ca : Libs → Client → Option CertPool
get_kubelet_ca lib c = pool_in lib (c.get_config_map config_namespace kubelet_ca_config_map)

abbrev parse_block : Libs → Option PemBlock → Result CertificateRequest
parse_block lib none = err bad_pem_block
parse_block lib (some block) =
    if block.type == "CERTIFICATE REQUEST"
    then lib.parse_certificate_request block.bytes
    else err bad_pem_block

unfoldable pub parse_csr : Libs → Csr → Result CertificateRequest
parse_csr lib obj = parse_block lib (lib.pem_decode obj.request)
