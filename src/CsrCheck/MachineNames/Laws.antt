-- ===== src/CsrCheck/MachineNames/Laws.antt =====
-- Which names a machine vouches for.
use cluster_machine_approver.Prelude.{
  ◌≡◌, refl, sym, ap, ◌∙◌, ◌≢◌, ◌↔◌, ◌⊎◌, inl, inr, Bool, true, false, ◌&&◌, ◌||◌, not, none, some,
  List, [], ◌∷◌, ◌++◌, Memᴰ, String, ◌==◌, eq_iff, Result, ok, err, any, any_sound, any_complete,
  all, nat_eq, length, arith, Bool-cases, then_check-eq-none, then_check-none, if◌then◌else◌, Error,
}
use cluster_machine_approver.GoStd.Ip.{Ip, to_string}
use cluster_machine_approver.GoStd.Strings.{equal_fold}
use cluster_machine_approver.Kube.{
  CertificateRequest, NodeAddress, Url, node_internal_dns, node_external_dns, node_host_name,
  node_internal_ip, node_external_ip,
}
use cluster_machine_approver.Kube.Outside.{Libs}
use cluster_machine_approver.MachineHandler.{Machine, find_matching_machine_from_node_ref}
use cluster_machine_approver.CsrCheck.MachineNames.{
  is_dns_type, is_ip_type, scan_addresses, check_dns_names, check_ip_addresses, check_names,
  authorize_serving_cert_with_machine,
}

-- The machine has the DNS name, up to case, as one of its DNS addresses.
abbrev pub HasDnsName : Libs → Machine → String → Type 0
HasDnsName lib machine san =
    (a : NodeAddress) × Memᴰ a machine.addresses
    × ((a.type ≡ node_internal_dns) ⊎ ((a.type ≡ node_external_dns) ⊎ (a.type ≡ node_host_name)))
    × (equal_fold lib.fold san a.address ≡ true)

-- The machine has the text of the address as one of its IP addresses.
abbrev pub HasIpAddress : Machine → Ip → Type 0
HasIpAddress machine san =
    (a : NodeAddress) × Memᴰ a machine.addresses
    × ((a.type ≡ node_internal_ip) ⊎ (a.type ≡ node_external_ip))
    × (to_string san ≡ a.address)

abbrev hit : (is_kind matches : String → Bool) → NodeAddress → Bool
hit is_kind matches a = is_kind a.type && matches a.address

-- The loop finds what the first hit would.
scan_addresses-found :
    (is_kind matches : String → Bool) (found : Bool) (attempted : List String)
    (addresses : List NodeAddress)
    → (scan_addresses is_kind matches found attempted addresses).0
      ≡ (found || any (hit is_kind matches) addresses)
unfolding scan_addresses
scan_addresses-found is_kind matches found attempted [] = ground arith
scan_addresses-found is_kind matches found attempted (a ∷ rest) = ground (
  arith,
  scan_addresses-found is_kind matches (found || (is_kind a.type && matches a.address))
      (if is_kind a.type && not (matches a.address) then attempted ++ a.address ∷ [] else attempted)
      rest,
)

-- One name is let through if it is empty or found.
let_through_iff :
    (skip found : Bool) (e : Error)
    → ((if skip then none else if not found then some e else none) ≡ none)
      ↔ ((skip ≡ true) ⊎ (found ≡ true))
let_through_iff true found e = (λ _. inl refl, λ _. refl)
let_through_iff false true e = (λ _. inr refl, λ _. refl)
let_through_iff false false e = (λ h. cc, λ h. ground arith)

nil_of_empty : (ip : Ip) → nat_eq (length ip) 0 ≡ true → ip ≡ []
nil_of_empty [] h = refl
nil_of_empty (b ∷ bs) h = ground arith

module _ (lib : Libs) (machine : Machine) where
  dns_found_iff :
      (san : String)
      → ((scan_addresses is_dns_type (equal_fold lib.fold san) false [] machine.addresses).0 ≡ true)
        ↔ HasDnsName lib machine san
  unfolding is_dns_type
  dns_found_iff san =
      let found =
        scan_addresses-found is_dns_type (equal_fold lib.fold san) false [] machine.addresses in
      (
        λ h.
            let (a, m, p) =
              any_sound (hit is_dns_type (equal_fold lib.fold san)) machine.addresses
                (sym found ∙ h) in
            (
              a,
              m,
              ground (
                arith,
                eq_iff a.type node_internal_dns,
                eq_iff a.type node_external_dns,
                eq_iff a.type node_host_name,
              ),
              ground arith,
            ),
        λ (a, m, t, e).
            found
            ∙ any_complete (hit is_dns_type (equal_fold lib.fold san)) m (
                ground (
                  arith,
                  eq_iff a.type node_internal_dns,
                  eq_iff a.type node_external_dns,
                  eq_iff a.type node_host_name,
                )),
      )

  abbrev equals : Ip → String → Bool
  equals san address = to_string san == address

  ip_found_iff :
      (san : Ip)
      → ((scan_addresses is_ip_type (equals san) false [] machine.addresses).0 ≡ true)
        ↔ HasIpAddress machine san
  unfolding is_ip_type
  ip_found_iff san =
      let found = scan_addresses-found is_ip_type (equals san) false [] machine.addresses in
      (
        λ h.
            let (a, m, p) =
              any_sound (hit is_ip_type (equals san)) machine.addresses (sym found ∙ h) in
            (
              a,
              m,
              ground (arith, eq_iff a.type node_internal_ip, eq_iff a.type node_external_ip),
              ground (arith, eq_iff (to_string san) a.address),
            ),
        λ (a, m, t, e).
            found
            ∙ any_complete (hit is_ip_type (equals san)) m (
                ground (
                  arith,
                  eq_iff a.type node_internal_ip,
                  eq_iff a.type node_external_ip,
                  eq_iff (to_string san) a.address,
                )),
      )

  check_dns_names_sound :
      (sans : List String)
      → check_dns_names lib machine sans ≡ none
      → (san : String) → Memᴰ san sans
      → san ≢ ""
      → HasDnsName lib machine san
  unfolding check_dns_names
  check_dns_names_sound [] h san m ne = elim m [ ]
  check_dns_names_sound (s ∷ sans) h san (Memᴰ.tail m) ne =
      check_dns_names_sound sans (then_check-eq-none _ _ h).1 san m ne
  check_dns_names_sound (s ∷ sans) h san (Memᴰ.head e) ne =
      elim ((let_through_iff _ _ _).0 (then_check-eq-none _ _ h).0) [
        | inl empty ↦ absurd (ne (e ∙ (eq_iff s "").0 empty))
        | inr found ↦ rw e ((dns_found_iff s).0 found)
      ]

  check_dns_names_complete :
      (sans : List String)
      → ((san : String) → Memᴰ san sans → san ≢ "" → HasDnsName lib machine san)
      → check_dns_names lib machine sans ≡ none
  unfolding check_dns_names
  check_dns_names_complete [] all = refl
  check_dns_names_complete (s ∷ sans) all =
      then_check-none
        ((let_through_iff _ _ _).1 (elim (Bool-cases (s == "")) [
          | inl empty ↦ inl empty
          | inr named ↦
              inr ((dns_found_iff s).1 (all s (Memᴰ.head refl) (λ e. ground (arith, eq_iff s ""))))
        ]))
        (check_dns_names_complete sans λ san m. all san (Memᴰ.tail m))

  check_ip_addresses_sound :
      (sans : List Ip)
      → check_ip_addresses machine sans ≡ none
      → (san : Ip) → Memᴰ san sans
      → san ≢ []
      → HasIpAddress machine san
  unfolding check_ip_addresses
  check_ip_addresses_sound [] h san m ne = elim m [ ]
  check_ip_addresses_sound (s ∷ sans) h san (Memᴰ.tail m) ne =
      check_ip_addresses_sound sans (then_check-eq-none _ _ h).1 san m ne
  check_ip_addresses_sound (s ∷ sans) h san (Memᴰ.head e) ne =
      elim ((let_through_iff _ _ _).0 (then_check-eq-none _ _ h).0) [
        | inl empty ↦ absurd (ne (e ∙ nil_of_empty s empty))
        | inr found ↦ rw e ((ip_found_iff s).0 found)
      ]

  check_ip_addresses_complete :
      (sans : List Ip)
      → ((san : Ip) → Memᴰ san sans → san ≢ [] → HasIpAddress machine san)
      → check_ip_addresses machine sans ≡ none
  unfolding check_ip_addresses
  check_ip_addresses_complete [] all = refl
  check_ip_addresses_complete (s ∷ sans) all =
      then_check-none
        ((let_through_iff _ _ _).1 (elim (Bool-cases (nat_eq (length s) 0)) [
          | inl empty ↦ inl empty
          | inr some_bytes ↦
              inr ((ip_found_iff s).1 (all s (Memᴰ.head refl) (λ e. ground (arith, ap length e))))
        ]))
        (check_ip_addresses_complete sans λ san m. all san (Memᴰ.tail m))

-- A machine vouches for a request if it has each name and each address that is not empty.
pub record Vouches (lib : Libs) (machine : Machine) (csr : CertificateRequest) : Type 0 where
  pub dns_names : (san : String) → Memᴰ san csr.dns_names → san ≢ "" → HasDnsName lib machine san
  pub ip_addresses : (san : Ip) → Memᴰ san csr.ip_addresses → san ≢ [] → HasIpAddress machine san

check_names_sound :
    (lib : Libs) (csr : CertificateRequest) (r : Result Machine)
    → check_names lib csr r ≡ none
    → (machine : Machine) × (r ≡ ok machine) × Vouches lib machine csr
check_names_sound lib csr (err e) h = cc
check_names_sound lib csr (ok machine) h =
    let (d, i) = then_check-eq-none _ _ h in
    (
      machine,
      refl,
      record {
        dns_names = check_dns_names_sound lib machine csr.dns_names d;
        ip_addresses = check_ip_addresses_sound lib machine csr.ip_addresses i;
      },
    )

-- The machine flow authorises a request exactly when a machine has the node as its reference, and
-- the first such machine has, among its DNS addresses, each requested DNS name that is not empty, up
-- to case, and among its IP addresses the text of each requested address that is not empty.
pub authorize_serving_cert_with_machine_iff :
    (lib : Libs) (machines : List Machine) (node : String) (csr : CertificateRequest)
    → (authorize_serving_cert_with_machine lib machines node csr ≡ none) ↔ (
        (machine : Machine) × (find_matching_machine_from_node_ref machines node ≡ ok machine)
        × Vouches lib machine csr)
unfolding authorize_serving_cert_with_machine
authorize_serving_cert_with_machine_iff lib machines node csr = (
  λ h. check_names_sound lib csr (find_matching_machine_from_node_ref machines node) h,
  λ (machine, found, v). rw found (
      then_check-none (check_dns_names_complete lib machine csr.dns_names v.dns_names)
        (check_ip_addresses_complete lib machine csr.ip_addresses v.ip_addresses)),
)

-- The machine flow does not look at the email addresses and the URIs that are asked for: whatever
-- they are, the answer is the same.
pub authorize_serving_cert_with_machine_ignores :
    (lib : Libs) (machines : List Machine) (node : String) (csr : CertificateRequest)
    (email_addresses : List String) (uris : List Url)
    → authorize_serving_cert_with_machine lib machines node
        (record csr { email_addresses = email_addresses; uris = uris })
      ≡ authorize_serving_cert_with_machine lib machines node csr
unfolding authorize_serving_cert_with_machine
authorize_serving_cert_with_machine_ignores lib machines node csr email_addresses uris = refl
