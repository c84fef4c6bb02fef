-- ===== src/Controller/Reconcile/Order.antt =====
-- Lists in another order: the first request of a name, and what the decision on a request reads.
use mathlib.Core.List.{Permᴰ}
use mathlib.Core.List.Permᴰ as PermD
use cluster_machine_approver.Prelude.{
  ◌≡◌, refl, sym, ap, ◌∙◌, inl, inr, Option, none, some, List, [], ◌∷◌, Memᴰ, String, ◌==◌, find,
  eq_iff, any_complete, find_sound, find_exists, find-none, length, Option-cases, ◌++◌, suc, subst,
}
use cluster_machine_approver.Kube.{Csr, CertificateRequest, CertPool}
use cluster_machine_approver.Kube.Outside.{Libs, Client}
use cluster_machine_approver.Config.{ClusterMachineApproverConfig}
use cluster_machine_approver.MachineHandler.{Machine}
use cluster_machine_approver.CsrCheck.Authorize.{
  authorize_csr, authorize_serving, machine_stage, existing_serving_cert, egress_attempt,
}
use cluster_machine_approver.CsrCheck.ServingCert.{get_serving_cert}
use cluster_machine_approver.CsrCheck.ClientFlow.{authorize_node_client_csr}
use cluster_machine_approver.CsrCheck.Egress.{
  authorize_serving_renewal_with_egress_ips, needs_egress_check,
}

-- The decision on a request reads neither list.
pub authorize_csr-lists :
    (lib : Libs) (c : Client) (config : ClusterMachineApproverConfig) (machines : List Machine)
    (req : Option Csr) (csr : Option CertificateRequest) (ca : Option CertPool) (csrs : _)
    (nodes : _)
    → authorize_csr lib
        (record c { list_csrs = csrs; list_nodes = nodes })
        config
        machines
        req
        csr
        ca
      ≡ authorize_csr lib c config machines req csr ca
unfolding authorize_csr authorize_serving machine_stage existing_serving_cert get_serving_cert
    authorize_node_client_csr authorize_serving_renewal_with_egress_ips egress_attempt
    needs_egress_check
authorize_csr-lists lib c config machines none csr ca csrs nodes = refl
authorize_csr-lists lib c config machines (some req) none ca csrs nodes = refl
authorize_csr-lists lib c config machines (some req) (some csr) none csrs nodes = refl
authorize_csr-lists lib c config machines (some req) (some csr) (some ca) csrs nodes = refl

-- No two listed requests have one name.
unfoldable pub UniqueNames : List Csr → Type 0
UniqueNames csrs = (x y : Csr) → Memᴰ x csrs → Memᴰ y csrs → x.name ≡ y.name → x ≡ y

perm-Memᴰ : {x : Csr} {xs ys : List Csr} → Permᴰ xs ys → Memᴰ x xs → Memᴰ x ys
perm-Memᴰ PermD.nil m = m
perm-Memᴰ (PermD.cons e p) (Memᴰ.head h) = Memᴰ.head (h ∙ e)
perm-Memᴰ (PermD.cons e p) (Memᴰ.tail m) = Memᴰ.tail (perm-Memᴰ p m)
perm-Memᴰ (PermD.swap e f) (Memᴰ.head h) = Memᴰ.tail (Memᴰ.head (h ∙ e))
perm-Memᴰ (PermD.swap e f) (Memᴰ.tail (Memᴰ.head h)) = Memᴰ.head (h ∙ f)
perm-Memᴰ (PermD.swap e f) (Memᴰ.tail (Memᴰ.tail m)) = Memᴰ.tail (Memᴰ.tail m)
perm-Memᴰ (PermD.trans p q) m = perm-Memᴰ q (perm-Memᴰ p m)

pub length-perm {ℓ} : {A : Type ℓ} {xs ys : List A} → Permᴰ xs ys → length xs ≡ length ys
length-perm PermD.nil = refl
length-perm (PermD.cons e p) = ap suc (length-perm p)
length-perm (PermD.swap e f) = refl
length-perm (PermD.trans p q) = length-perm p ∙ length-perm q

abbrev pub by_name : String → List Csr → Option Csr
by_name name csrs = find (λ csr. csr.name == name) csrs

Memᴰ-middle : (x : Csr) (before after : List Csr) → Memᴰ x (before ++ x ∷ after)
Memᴰ-middle x [] after = Memᴰ.head refl
Memᴰ-middle x (y ∷ before) after = Memᴰ.tail (Memᴰ-middle x before after)

found-Memᴰ :
    (name : String) (csrs : List Csr) {x : Csr}
    → by_name name csrs ≡ some x
    → Memᴰ x csrs × (x.name ≡ name)
found-Memᴰ name csrs {x} h =
    let (before, after, split, named, first) = find_sound (λ csr. csr.name == name) csrs h in
    (subst (λ l. Memᴰ x l) (sym split) (Memᴰ-middle x before after), (eq_iff x.name name).0 named)

pub find-perm :
    (name : String) {xs ys : List Csr}
    → UniqueNames xs
    → Permᴰ xs ys
    → by_name name ys ≡ by_name name xs
unfolding UniqueNames
find-perm name {xs} {ys} unique p = elim (Option-cases (by_name name xs)) [
  | inl missing ↦ elim (Option-cases (by_name name ys)) [
    | inl missing' ↦ missing' ∙ sym missing
    | inr (y, found) ↦
        let (m, named) = found-Memᴰ name ys found in
        let there =
          any_complete (λ csr. csr.name == name) (perm-Memᴰ (PermD.symm p) m)
            ((eq_iff y.name name).1 named) in
        let absent = find-none (λ csr. csr.name == name) xs missing in cc
  ]
  | inr (x, found) ↦
      let (m, named) = found-Memᴰ name xs found in
      let (y, found') =
        find_exists (λ csr. csr.name == name) ys
          (any_complete (λ csr. csr.name == name) (perm-Memᴰ p m) ((eq_iff x.name name).1 named)) in
      let (m', named') = found-Memᴰ name ys found' in
      let same = unique y x (perm-Memᴰ (PermD.symm p) m') m (named' ∙ sym named) in
      found' ∙ ap some same ∙ sym found
]
