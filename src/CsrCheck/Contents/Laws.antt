-- ===== src/CsrCheck/Contents/Laws.antt =====
-- What the contents of a serving request are, and what the check of the usages lets through.
use Prim.Native.String
use cluster_machine_approver.Prelude.{
  ◌≤◌, ◌≡◌, refl, sym, ◌∙◌, subst, ◌≢◌, ◌↔◌, ◌⊎◌, inr, true, List, [], ◌∷◌, Memᴰ, String, eq_iff,
  ok, length, contains, contains_iff, arith,
}
use cluster_machine_approver.GoStd.Strings.{has_prefix, trim_prefix}
use cluster_machine_approver.GoStd.Strings.Prefix.{has_prefix_iff, trim_prefix-append}
use cluster_machine_approver.Kube.{
  Csr, CertificateRequest, usage_digital_signature, usage_server_auth,
}
use cluster_machine_approver.Kube.Outside.{Libs}
use cluster_machine_approver.CsrCheck.{node_user_prefix, node_group, authenticated_group}
use cluster_machine_approver.CsrCheck.Contents.{
  validation_usage_set, validation_usage_set_legacy, validate_csr_contents,
}

-- A request for a serving certificate of a node, told without the code's tests.
pub record IsServingRequest (req : Csr) (csr : CertificateRequest) (node : String) : Type 0 where
  pub named : node ≢ ""
  pub user : req.username ≡ String.◌++◌ node_user_prefix node
  pub in_nodes : Memᴰ node_group req.groups
  pub authenticated : Memᴰ authenticated_group req.groups
  pub usage_count : (length req.usages ≡ 2) ⊎ (length req.usages ≡ 3)
  pub signs : Memᴰ usage_digital_signature req.usages
  pub serves : Memᴰ usage_server_auth req.usages
  pub same_name : csr.common_name ≡ req.username
  pub of_nodes : Memᴰ node_group csr.organization

-- Two different members make a list of two at least.
two-le-length : {a b : String} {l : List String} → a ≢ b → Memᴰ a l → Memᴰ b l → 2 ≤ length l
two-le-length d (Memᴰ.head e) (Memᴰ.head f) = absurd (d (e ∙ sym f))
two-le-length d (Memᴰ.head e) (Memᴰ.tail (Memᴰ.head f)) = omega arith
two-le-length d (Memᴰ.head e) (Memᴰ.tail (Memᴰ.tail n)) = omega arith
two-le-length d (Memᴰ.tail (Memᴰ.head e)) n = omega arith
two-le-length d (Memᴰ.tail (Memᴰ.tail m)) n = omega arith

module _ (lib : Libs) (xs : List String) where
  has_all-pair :
      (a b : String) → (lib.sets.has_all xs (a ∷ b ∷ []) ≡ true) ↔ (Memᴰ a xs × Memᴰ b xs)
  has_all-pair a b = (
    λ h.
        let all = (lib.sets.has_all_iff xs (a ∷ b ∷ [])).0 h in
        (all a (Memᴰ.head refl), all b (Memᴰ.tail (Memᴰ.head refl))),
    λ (m, n). (lib.sets.has_all_iff xs (a ∷ b ∷ [])).1 λ y k. pick m n k,
  )
    where
      pick : {y : String} → Memᴰ a xs → Memᴰ b xs → Memᴰ y (a ∷ b ∷ []) → Memᴰ y xs
      pick m n (Memᴰ.head e) = subst (λ z. Memᴰ z xs) (sym e) m
      pick m n (Memᴰ.tail (Memᴰ.head e)) = subst (λ z. Memᴰ z xs) (sym e) n
      pick m n (Memᴰ.tail (Memᴰ.tail k)) = elim k [ ]

  -- Whatever has the older set of usages has the newer one.
  legacy-has_all :
      lib.sets.has_all xs validation_usage_set_legacy ≡ true
      → lib.sets.has_all xs validation_usage_set ≡ true
  legacy-has_all h =
      let all = (lib.sets.has_all_iff xs validation_usage_set_legacy).0 h in
      (has_all-pair usage_digital_signature usage_server_auth).1
        (all _ (Memᴰ.head refl), all _ (Memᴰ.tail (Memᴰ.tail (Memᴰ.head refl))))

module _ (lib : Libs) (req : Csr) (csr : CertificateRequest) (node : String) where
  -- The tests that an accepted request has passed.
  record Passed : Type 0 where
    prefix : has_prefix req.username node_user_prefix ≡ true
    trimmed : trim_prefix req.username node_user_prefix ≡ node
    groups : lib.sets.has_all req.groups (node_group ∷ authenticated_group ∷ []) ≡ true
    count : (length req.usages ≡ 2) ⊎ (length req.usages ≡ 3)
    usages : lib.sets.has_all req.usages validation_usage_set ≡ true
    name : csr.common_name ≡ req.username
    organization : contains node_group csr.organization ≡ true

  Passed-of_ok : node ≢ "" → validate_csr_contents lib req csr ≡ ok node → Passed
  unfolding validate_csr_contents
  Passed-of_ok n h =
      ground (arith, eq_iff csr.common_name req.username, legacy-has_all lib req.usages)

  ok_of_Passed :
      node ≢ "" → 2 ≤ length req.groups → Passed → validate_csr_contents lib req csr ≡ ok node
  unfolding validate_csr_contents
  ok_of_Passed n two p = ground (arith, eq_iff csr.common_name req.username, eq_iff node "")

  Passed-IsServingRequest : node ≢ "" → Passed → IsServingRequest req csr node
  Passed-IsServingRequest n p =
      let (r, user) = (has_prefix_iff req.username node_user_prefix).0 p.prefix in
      let same : r ≡ node =
        sym (trim_prefix-append node_user_prefix r)
        ∙ subst (λ u. trim_prefix u node_user_prefix ≡ node) user p.trimmed in
      let groups = (has_all-pair lib req.groups node_group authenticated_group).0 p.groups in
      let usages =
        (has_all-pair lib req.usages usage_digital_signature usage_server_auth).0 p.usages in
      record {
        named = n;
        user = subst (λ z. req.username ≡ String.◌++◌ node_user_prefix z) same user;
        in_nodes = groups.0;
        authenticated = groups.1;
        usage_count = p.count;
        signs = usages.0;
        serves = usages.1;
        same_name = p.name;
        of_nodes = (contains_iff node_group csr.organization).0 p.organization;
      }

  IsServingRequest-Passed : IsServingRequest req csr node → Passed
  IsServingRequest-Passed s = record {
    prefix = (has_prefix_iff req.username node_user_prefix).1 (node, s.user);
    trimmed = rw s.user (trim_prefix-append node_user_prefix node);
    groups =
        (has_all-pair lib req.groups node_group authenticated_group).1
          (s.in_nodes, s.authenticated);
    count = s.usage_count;
    usages =
        (has_all-pair lib req.usages usage_digital_signature usage_server_auth).1
          (s.signs, s.serves);
    name = s.same_name;
    organization = (contains_iff node_group csr.organization).1 s.of_nodes;
  }

groups_differ : node_group ≢ authenticated_group
groups_differ = ground (arith, eq_iff node_group authenticated_group)

-- For a node name that is not empty, the contents are accepted as that node's exactly when they are
-- a serving request of the node: its user and groups, two or three usages with digital signature and
-- server auth among them, the user's name as the common name, and the organization system:nodes.
pub validate_csr_contents_iff :
    (lib : Libs) (req : Csr) (csr : CertificateRequest) (node : String)
    → node ≢ ""
    → (validate_csr_contents lib req csr ≡ ok node) ↔ IsServingRequest req csr node
validate_csr_contents_iff lib req csr node n = (
  λ h. Passed-IsServingRequest lib req csr node n (Passed-of_ok lib req csr node n h),
  λ s.
      ok_of_Passed lib req csr node n (two-le-length groups_differ s.in_nodes s.authenticated)
        (IsServingRequest-Passed lib req csr node s),
)

-- A third usage of any kind does not matter: a serving request with digital signature and server
-- auth is accepted as the same node's when `usage` is asked for besides.
pub validate_csr_contents-third_usage :
    (lib : Libs) (req : Csr) (csr : CertificateRequest) (node usage : String)
    → node ≢ ""
    → validate_csr_contents lib
        (record req { usages = usage_digital_signature ∷ usage_server_auth ∷ [] })
        csr
      ≡ ok node
    → validate_csr_contents lib
        (record req { usages = usage_digital_signature ∷ usage_server_auth ∷ usage ∷ [] })
        csr
      ≡ ok node
validate_csr_contents-third_usage lib req csr node usage n h =
    let s = (validate_csr_contents_iff lib _ csr node n).0 h in
    (validate_csr_contents_iff lib _ csr node n).1 (record {
      named = n;
      user = s.user;
      in_nodes = s.in_nodes;
      authenticated = s.authenticated;
      usage_count = inr refl;
      signs = Memᴰ.head refl;
      serves = Memᴰ.tail (Memᴰ.head refl);
      same_name = s.same_name;
      of_nodes = s.of_nodes;
    })
