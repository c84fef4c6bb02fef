-- ===== src/Prelude/Results.antt =====
-- A Go pair of a value and an error, one of the two given, and the errors that the program makes:
-- a constructor for each `fmt.Errorf`, with the arguments that vary.
use Prim.Native.String.{String}
use mathlib.Core.Path.{◌≡◌, refl, ap}
use mathlib.Core.List.{List}
use mathlib.Core.Logic.{◌⊎◌, inl, inr}
use mathlib.Core.Option.{Option, none, some}

mutual
  pub data Error : Type 0 where
    external : String → Error  -- made by code outside the repository
    api_not_found : String → Error  -- an API answer that `apierrors.IsNotFound` accepts
    api_group_not_found : Error
    too_few_groups too_few_usages : Error
    missing_groups missing_usages : List String → Error
    common_name_mismatch : (common_name username : String) → Error
    organization_mismatch : List String → Error
    flow_disabled : (csr_name : String) → Error
    get_node_failed no_machine_for_node : (node_name : String) → Error
    machine_not_found no_machine_for_serving : Error
    sans_do_not_match unknown_ip_addresses : Error
    host_subnet_failed egress_cidr_failed network_failed egress_unknown : Error → Error
    dns_name_not_in_machine ip_address_not_in_machine :
        (san : String) → (attempted : List String) → Error
    nothing_to_verify bad_common_name common_name_changed : Error
    no_ca : Error
    no_internal_addresses : (node_name : String) → Error
    exhausted : Errors → Error
    list_csrs_failed list_machines_failed list_nodes_failed : Error → Error
    reconcile_failed parse_failed : Error → Error
    approve_failed : (csr_name : String) → Error → Error
    bad_pem_block : Error
    certificates_client_failed uncached_list_failed : Error → Error
    config_nil : Error
    discovery_client_failed server_groups_failed : Error → Error
    unsupported_api_group bad_group_version bad_group_version_option : String → Error
    bad_metrics_port : (port : String) → Error → Error
    cluster_operator_create_failed cluster_operator_get_failed : Error → Error
    client_configs_failed manager_failed delegating_client_failed : Error → Error
    csr_controller_failed run_manager_failed create_client_failed : Error → Error
    caches_not_synced : Error

  -- The slice that `kerrors.NewAggregate` joins.
  pub data Errors : Type 0 where
    none_yet : Errors
    append_error : Errors → Error → Errors

pub data Result {ℓ} (A : Type ℓ) : Type ℓ where
  ok : A → Result A
  err : Error → Result A

infixl 5 ◌>>=◌
abbrev pub ◌>>=◌ {ℓ κ} : {A : Type ℓ} {B : Type κ} → Result A → (A → Result B) → Result B
err e >>= next = err e
ok value >>= next = next value

-- `fmt.Errorf` around an error that came back.
abbrev pub wrap_error {ℓ} : {A : Type ℓ} → (Error → Error) → Result A → Result A
wrap_error f (ok a) = ok a
wrap_error f (err e) = err (f e)

-- `if err != nil` before what follows, where the chain goes on to a value.
abbrev pub require : Option Error → Result (Unit {0})
require none = ok tt
require (some e) = err e

pub require-eq-ok : (m : Option Error) {u : Unit {0}} → require m ≡ ok u → m ≡ none
require-eq-ok none h = refl
require-eq-ok (some e) h = cc

-- Where a chain returns a value, its first part did.
pub >>=-eq-ok {ℓ κ} :
    {A : Type ℓ} {B : Type κ} (first : Result A) (next : A → Result B) {out : B}
    → first >>= next ≡ ok out
    → (value : A) × (first ≡ ok value) × (next value ≡ ok out)
>>=-eq-ok (err e) next returned = cc
>>=-eq-ok (ok value) next returned = (value, refl, returned)

-- `if err != nil { return err }` before what follows, where only an error is returned.
infixr 5 ◌then_check◌
abbrev pub ◌then_check◌ : Option Error → Option Error → Option Error
none then_check k = k
(some e) then_check k = some e

pub then_check-eq-none : (m k : Option Error) → (m then_check k) ≡ none → (m ≡ none) × (k ≡ none)
then_check-eq-none none k h = (refl, h)
then_check-eq-none (some e) k h = cc

pub then_check-none : {m k : Option Error} → m ≡ none → k ≡ none → (m then_check k) ≡ none
then_check-none {m = none} e h = h
then_check-none {m = some x} e h = cc

pub wrap_error-eq-ok {ℓ} :
    {A : Type ℓ} (f : Error → Error) (m : Result A) {a : A} → wrap_error f m ≡ ok a → m ≡ ok a
wrap_error-eq-ok f (ok b) h = h
wrap_error-eq-ok f (err e) h = cc

pub ok_injective {ℓ} : {A : Type ℓ} {a b : A} → ok a ≡ ok b → a ≡ b
ok_injective h = cc

-- Where a chain fails, its first part did, or what follows it.
pub >>=-eq-err {ℓ κ} :
    {A : Type ℓ} {B : Type κ} (first : Result A) (next : A → Result B) {e : Error}
    → first >>= next ≡ err e
    → (first ≡ err e) ⊎ ((value : A) × (first ≡ ok value) × (next value ≡ err e))
>>=-eq-err (err x) next failed = inl (ap err cc)
>>=-eq-err (ok value) next failed = inr (value, refl, failed)

pub wrap_error-eq-err {ℓ} :
    {A : Type ℓ} (f : Error → Error) (m : Result A) {e : Error}
    → wrap_error f m ≡ err e
    → (x : Error) × (m ≡ err x) × (f x ≡ e)
wrap_error-eq-err f (ok a) h = cc
wrap_error-eq-err f (err x) h = (x, refl, cc)

pub require-eq-err : (m : Option Error) {e : Error} → require m ≡ err e → m ≡ some e
require-eq-err none h = cc
require-eq-err (some x) h = ap some cc
