-- ===== src/NodeClient/Laws.antt =====
-- Which requests are for a node's client certificate, and what the check of the usages lets through.
use Prim.Native.String
use cluster_machine_approver.Prelude.{
  ◌≡◌, refl, sym, ap, ◌↔◌, ◌⊎◌, inl, inr, Bool, true, false, List, [], ◌∷◌, Memᴰ, String, length,
  all, all_sound, all_complete, contains, contains_iff, texts_eq, texts_eq_iff, ltb, arith,
}
use cluster_machine_approver.GoStd.Strings.{has_prefix}
use cluster_machine_approver.GoStd.Strings.Prefix.{has_prefix_iff}
use cluster_machine_approver.Kube.{Csr, CertificateRequest, usage_digital_signature}
use cluster_machine_approver.NodeClient.{
  has_exact_usages, kubelet_client_usages_legacy, kubelet_client_usages, is_node_client_cert,
}

-- As many usages as the list has, and each of them in the list.
pub record HasUsages (csr : Csr) (usages : List String) : Type 0 where
  pub count : length csr.usages ≡ length usages
  pub listed : (u : String) → Memᴰ u csr.usages → Memᴰ u usages

-- The usages fit exactly when they are as many as in the list and each is in it. None of the list
-- need be among them.
pub has_exact_usages_iff :
    (csr : Csr) (usages : List String) → (has_exact_usages csr usages ≡ true) ↔ HasUsages csr usages
unfolding has_exact_usages
has_exact_usages_iff csr usages = (
  λ h.
      let every : all in_usages csr.usages ≡ true = ground arith in
      record {
        count = ground arith;
        listed = λ u m. (contains_iff u usages).0 (all_sound in_usages every m);
      },
  λ s.
      let every =
        all_complete in_usages csr.usages λ u m. (contains_iff u usages).1 (s.listed u m) in
      ground (arith, s.count, every),
)
  where
    in_usages : String → Bool
    in_usages u = contains u usages

-- A request for a node's client certificate, told without the code's tests.
pub record IsClientRequest (req : Csr) (csr : CertificateRequest) (node : String) : Type 0 where
  pub organization : csr.organization ≡ "system:nodes" ∷ []
  pub no_dns_names : csr.dns_names ≡ []
  pub no_email_addresses : csr.email_addresses ≡ []
  pub no_ip_addresses : csr.ip_addresses ≡ []
  pub usages : HasUsages req kubelet_client_usages_legacy ⊎ HasUsages req kubelet_client_usages
  pub name : csr.common_name ≡ String.◌++◌ "system:node:" node

nil_of_length {ℓ} : {A : Type ℓ} (xs : List A) → ltb 0 (length xs) ≡ false → xs ≡ []
nil_of_length [] h = refl
nil_of_length (x ∷ xs) h = absurd (ground arith)

module _ (req : Csr) (csr : CertificateRequest) where
  record Passed : Type 0 where
    organization : texts_eq ("system:nodes" ∷ []) csr.organization ≡ true
    dns_names : ltb 0 (length csr.dns_names) ≡ false
    email_addresses : ltb 0 (length csr.email_addresses) ≡ false
    ip_addresses : ltb 0 (length csr.ip_addresses) ≡ false
    usages :
        (has_exact_usages req kubelet_client_usages_legacy ≡ true)
        ⊎ (has_exact_usages req kubelet_client_usages ≡ true)
    prefix : has_prefix csr.common_name "system:node:" ≡ true

  is_node_client_cert-Passed : is_node_client_cert req csr ≡ true → Passed
  unfolding is_node_client_cert
  is_node_client_cert-Passed h = ground arith

  Passed-is_node_client_cert : Passed → is_node_client_cert req csr ≡ true
  unfolding is_node_client_cert
  Passed-is_node_client_cert p = ground arith

-- A request is taken for a client certificate request exactly when it is one for some node: the
-- organization is system:nodes alone, it asks for no DNS name, email address or IP address, its
-- usages are as many as in one of the two lists and all in it, and its common name has the prefix.
pub is_node_client_cert_iff :
    (req : Csr) (csr : CertificateRequest)
    → (is_node_client_cert req csr ≡ true) ↔ ((node : String) × IsClientRequest req csr node)
is_node_client_cert_iff req csr = (
  λ h.
      let p = is_node_client_cert-Passed req csr h in
      let (node, name) = (has_prefix_iff csr.common_name "system:node:").0 p.prefix in
      (
        node,
        record {
          organization =
              sym ((texts_eq_iff ("system:nodes" ∷ []) csr.organization).0 p.organization);
          no_dns_names = nil_of_length csr.dns_names p.dns_names;
          no_email_addresses = nil_of_length csr.email_addresses p.email_addresses;
          no_ip_addresses = nil_of_length csr.ip_addresses p.ip_addresses;
          usages = either p.usages;
          name = name;
        },
      ),
  λ (node, s). Passed-is_node_client_cert req csr (record {
    organization = (texts_eq_iff ("system:nodes" ∷ []) csr.organization).1 (sym s.organization);
    dns_names = ap (λ l. ltb 0 (length l)) s.no_dns_names;
    email_addresses = ap (λ l. ltb 0 (length l)) s.no_email_addresses;
    ip_addresses = ap (λ l. ltb 0 (length l)) s.no_ip_addresses;
    usages = back s.usages;
    prefix = (has_prefix_iff csr.common_name "system:node:").1 (node, s.name);
  }),
)
  where
    either :
        (has_exact_usages req kubelet_client_usages_legacy ≡ true)
          ⊎ (has_exact_usages req kubelet_client_usages ≡ true)
        → HasUsages req kubelet_client_usages_legacy ⊎ HasUsages req kubelet_client_usages
    either (inl h) = inl ((has_exact_usages_iff req _).0 h)
    either (inr h) = inr ((has_exact_usages_iff req _).0 h)

    back :
        HasUsages req kubelet_client_usages_legacy ⊎ HasUsages req kubelet_client_usages
        → (has_exact_usages req kubelet_client_usages_legacy ≡ true)
          ⊎ (has_exact_usages req kubelet_client_usages ≡ true)
    back (inl s) = inl ((has_exact_usages_iff req _).1 s)
    back (inr s) = inr ((has_exact_usages_iff req _).1 s)

twice-HasUsages :
    (req : Csr)
    → HasUsages
        (record req { usages = usage_digital_signature ∷ usage_digital_signature ∷ [] })
        kubelet_client_usages
twice-HasUsages req = record { count = refl; listed = listed }
  where
    listed :
        (u : String)
        → Memᴰ u (usage_digital_signature ∷ usage_digital_signature ∷ [])
        → Memᴰ u kubelet_client_usages
    listed u (Memᴰ.head e) = Memᴰ.head e
    listed u (Memᴰ.tail (Memᴰ.head e)) = Memᴰ.head e
    listed u (Memᴰ.tail (Memᴰ.tail m)) = elim m [ ]

-- Client auth is not needed: a client certificate request stays one when its usages are replaced by
-- digital signature, given twice.
pub is_node_client_cert-repeated_usage :
    (req : Csr) (csr : CertificateRequest)
    → is_node_client_cert req csr ≡ true
    → is_node_client_cert
        (record req { usages = usage_digital_signature ∷ usage_digital_signature ∷ [] })
        csr
      ≡ true
is_node_client_cert-repeated_usage req csr h =
    let (node, s) = (is_node_client_cert_iff req csr).0 h in
    (is_node_client_cert_iff _ csr).1 (
      node,
      record {
        organization = s.organization;
        no_dns_names = s.no_dns_names;
        no_email_addresses = s.no_email_addresses;
        no_ip_addresses = s.no_ip_addresses;
        usages = inr (twice-HasUsages req);
        name = s.name;
      },
    )
