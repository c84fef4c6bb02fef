-- ===== src/MachineHandler/Find.antt =====
-- What the machine lookups find: the first machine of the list that fits.
use cluster_machine_approver.Prelude.{
  ◌≡◌, refl, sym, ap, ◌∙◌, ◌↔◌, Bool, true, false, Option, none, some, List, ◌∷◌, ◌++◌, Memᴰ,
  String, ◌==◌, eq_iff, ok, any, any_sound, any_complete, find, find_sound, find_complete, arith,
  Bool-cases, inl, inr, ◌&&◌,
}
use cluster_machine_approver.Kube.{NodeAddress, ObjectReference, node_internal_dns}
use cluster_machine_approver.MachineHandler.{
  Machine, or_not_found, ref_is, has_internal_dns, has_node_ref,
  find_matching_machine_from_internal_dns, find_matching_machine_from_node_ref,
}

abbrev pub HasInternalDns : String → Machine → Type 0
HasInternalDns node m =
    (a : NodeAddress) × Memᴰ a m.addresses × (a.type ≡ node_internal_dns) × (a.address ≡ node)

abbrev pub HasNodeRef : String → Machine → Type 0
HasNodeRef node m = (r : ObjectReference) × (m.node_ref ≡ some r) × (r.name ≡ node)

-- `m` is in the list, has the property, and no machine before it does.
pub record IsFirst (P : Machine → Type 0) (machines : List Machine) (m : Machine) : Type 0 where
  pub before : List Machine
  pub after : List Machine
  pub split : machines ≡ before ++ m ∷ after
  pub fits : P m
  pub first : (x : Machine) → Memᴰ x before → ¬ P x

or_not_found-eq-ok : (o : Option Machine) {m : Machine} → or_not_found o ≡ ok m → o ≡ some m
or_not_found-eq-ok none h = cc
or_not_found-eq-ok (some x) h = cc

any-eq-false :
    (p : Machine → Bool) (xs : List Machine)
    → ((x : Machine) → Memᴰ x xs → p x ≡ true → ⊥)
    → any p xs ≡ false
any-eq-false p xs h = elim (Bool-cases (any p xs)) [
  | inl e ↦ let (x, m, q) = any_sound p xs e in absurd (h x m q)
  | inr e ↦ e
]

module _ (P : Machine → Type 0) (p : Machine → Bool)
    (p_iff : (m : Machine) → (p m ≡ true) ↔ P m) where
  find-IsFirst_iff :
      (machines : List Machine) (m : Machine)
      → (or_not_found (find p machines) ≡ ok m) ↔ IsFirst P machines m
  find-IsFirst_iff machines m = (
    λ h.
        let (before, after, split, passes, fails) =
          find_sound p machines (or_not_found-eq-ok (find p machines) h) in
        record {
          before = before;
          after = after;
          split = split;
          fits = (p_iff m).0 passes;
          first = λ x k f. cc (sym fails ∙ any_complete p k ((p_iff x).1 f));
        },
    λ s. rw s.split (
        ap or_not_found (
          find_complete p s.before s.after ((p_iff m).1 s.fits)
            (any-eq-false p s.before λ x k h. s.first x k ((p_iff x).0 h)))),
  )

abbrev dns_test : String → NodeAddress → Bool
dns_test node a = a.type == node_internal_dns && a.address == node

has_internal_dns_iff :
    (node : String) (m : Machine) → (has_internal_dns node m ≡ true) ↔ HasInternalDns node m
unfolding has_internal_dns
has_internal_dns_iff node m = (
  λ h.
      let (a, k, p) = any_sound (dns_test node) m.addresses h in
      (
        a,
        k,
        ground (arith, eq_iff a.type node_internal_dns),
        ground (arith, eq_iff a.address node),
      ),
  λ (a, k, t, e).
      any_complete (dns_test node) k
        (ground (arith, eq_iff a.type node_internal_dns, eq_iff a.address node)),
)

ref_is_iff :
    (node : String) (o : Option ObjectReference)
    → (ref_is node o ≡ true) ↔ ((r : ObjectReference) × (o ≡ some r) × (r.name ≡ node))
ref_is_iff node none = (λ h. cc, λ (r, e, _). cc)
ref_is_iff node (some r) =
    (λ h. (r, refl, (eq_iff r.name node).0 h), λ (s, e, n). ground (arith, eq_iff r.name node))

has_node_ref_iff : (node : String) (m : Machine) → (has_node_ref node m ≡ true) ↔ HasNodeRef node m
unfolding has_node_ref
has_node_ref_iff node m = ref_is_iff node m.node_ref

-- The search by internal DNS name returns a machine exactly when it is the first in the list with an
-- InternalDNS address equal to the node's name.
pub find_matching_machine_from_internal_dns_iff :
    (machines : List Machine) (node : String) (m : Machine)
    → (find_matching_machine_from_internal_dns machines node ≡ ok m)
      ↔ IsFirst (HasInternalDns node) machines m
unfolding find_matching_machine_from_internal_dns
find_matching_machine_from_internal_dns_iff machines node m =
    find-IsFirst_iff (HasInternalDns node) (has_internal_dns node) (has_internal_dns_iff node)
      machines m

-- The search by node reference returns a machine exactly when it is the first in the list whose reference
-- has the node's name.
pub find_matching_machine_from_node_ref_iff :
    (machines : List Machine) (node : String) (m : Machine)
    → (find_matching_machine_from_node_ref machines node ≡ ok m)
      ↔ IsFirst (HasNodeRef node) machines m
unfolding find_matching_machine_from_node_ref
find_matching_machine_from_node_ref_iff machines node m =
    find-IsFirst_iff (HasNodeRef node) (has_node_ref node) (has_node_ref_iff node) machines m
