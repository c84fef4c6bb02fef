-- ===== src/Controller/Filters/Events.antt =====
-- Which events of requests lead to a reconcile.
use cluster_machine_approver.Prelude.{
  ◌≡◌, refl, ◌↔◌, ◌⊎◌, Bool, true, false, ◌&&◌, ◌||◌, not, Option, none, some, arith,
}
use cluster_machine_approver.Kube.{Time, Csr}
use cluster_machine_approver.CsrCheck.Conditions.{
  is_approved, is_recently_approved, is_approved_by_cma,
}
use cluster_machine_approver.Controller.Filters.{
  Object, csr_object, config_map_object, other_object, pending_cert_filter, Event, create, update,
  generic, delete, csr_predicate,
}

-- The object as it is after the event, if it still is.
abbrev pub remaining : Event → Option Object
remaining (create object) = some object
remaining (update object_old object_new) = some object_new
remaining (generic object) = some object
remaining (delete object) = none

-- Not approved, or approved a short while ago by someone else.
abbrev pub IsOpen : (now : Time) → Csr → Type 0
IsOpen now csr =
    (is_approved csr ≡ false)
    ⊎ ((is_recently_approved now csr ≡ true) × (is_approved_by_cma csr ≡ false))

abbrev test : Bool → Bool → Bool → Bool
test approved recent ours = not approved || (recent && not ours)

test_iff :
    (approved recent ours : Bool)
    → (test approved recent ours ≡ true) ↔ ((approved ≡ false) ⊎ ((recent ≡ true) × (ours ≡ false)))
test_iff approved recent ours = ground arith

filter_iff :
    (now : Time) (object : Object)
    → (pending_cert_filter now object ≡ some true)
      ↔ ((csr : Csr) × (some object ≡ some (csr_object csr)) × IsOpen now csr)
unfolding pending_cert_filter
filter_iff now (csr_object csr) = (
  λ h. (
    csr,
    refl,
    (test_iff (is_approved csr) (is_recently_approved now csr) (is_approved_by_cma csr)).0 cc,
  ),
  λ (other, same, unsettled). back other (cc same) unsettled,
)
  where
    back :
        (other : Csr)
        → csr ≡ other
        → IsOpen now other
        → some (test (is_approved csr) (is_recently_approved now csr) (is_approved_by_cma csr))
          ≡ some true
    back other same unsettled = rw same (
        rw
          ((test_iff (is_approved other) (is_recently_approved now other)
              (is_approved_by_cma other)).1
            unsettled)
          refl)
filter_iff now (config_map_object cm) = (λ h. cc, λ (other, same, unsettled). cc)
filter_iff now other_object = (λ h. cc, λ (other, same, unsettled). cc)

-- An event of requests leads to a reconcile exactly when the object that it leaves is a request that is
-- not approved, or that was approved a short while ago and not by this program. A deletion never does.
pub csr_predicate_iff :
    (now : Time) (e : Event)
    → (csr_predicate now e ≡ some true)
      ↔ ((csr : Csr) × (remaining e ≡ some (csr_object csr)) × IsOpen now csr)
unfolding csr_predicate
csr_predicate_iff now (create object) = filter_iff now object
csr_predicate_iff now (update object_old object_new) = filter_iff now object_new
csr_predicate_iff now (generic object) = filter_iff now object
csr_predicate_iff now (delete object) = (λ h. cc, λ (csr, same, unsettled). cc)
