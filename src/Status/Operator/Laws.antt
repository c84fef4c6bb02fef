-- ===== src/Status/Operator/Laws.antt =====
-- What the status that is sent says.
use cluster_machine_approver.Prelude.{
  ℕ, ◌≡◌, refl, ◌∙◌, ◌≢◌, true, Option, some, List, [], ◌∷◌, String, ◌==◌, eq_iff, ok, find, arith,
}
use cluster_machine_approver.Kube.{Time}
use cluster_machine_approver.Status.Operator.{
  StatusCondition, RelatedObject, ClusterOperator, related_objects, OperatorApi,
  get_release_version, get_or_create_cluster_operator, related_eq, related_objects_eq, set_all,
  sync_status, available_conditions, status_available, operator_available, operator_degraded,
  operator_progressing, operator_upgradeable, reason_as_expected,
}

abbrev pub find_condition : (type : String) → List StatusCondition → Option StatusCondition
find_condition type conditions = find (λ c. c.type == type) conditions

-- The condition of a type has a status and the expected reason.
abbrev pub Says : (type status : String) → List StatusCondition → Type 0
Says type status conditions =
    (x : StatusCondition) × (find_condition type conditions ≡ some x)
    × (x.status ≡ status)
    × (x.reason ≡ reason_as_expected)

-- What SetStatusCondition does, as far as readers of the conditions see.
pub record SetsConditions (api : OperatorApi) : Type 0 where
  pub sets :
      (conditions : List StatusCondition) (c : StatusCondition)
      → (x : StatusCondition) × (find_condition c.type (api.set_status_condition conditions c)
          ≡ some x)
        × (x.status ≡ c.status)
        × (x.reason ≡ c.reason)
  pub keeps :
      (conditions : List StatusCondition) (c : StatusCondition) (type : String)
      → type ≢ c.type
      → find_condition type (api.set_status_condition conditions c) ≡ find_condition type conditions

related_eq_sound : (a b : RelatedObject) → related_eq a b ≡ true → a ≡ b
unfolding related_eq
related_eq_sound a b h =
    ground (arith, eq_iff a.group b.group, eq_iff a.resource b.resource, eq_iff a.name b.name)

related_objects_eq_sound : (xs ys : List RelatedObject) → related_objects_eq xs ys ≡ true → xs ≡ ys
unfolding related_objects_eq
related_objects_eq_sound [] [] h = refl
related_objects_eq_sound [] (y ∷ ys) h = cc
related_objects_eq_sound (x ∷ xs) [] h = cc
related_objects_eq_sound (x ∷ xs) (y ∷ ys) h =
    let here : x ≡ y = related_eq_sound x y (ground arith) in
    let later : xs ≡ ys = related_objects_eq_sound xs ys (ground arith) in cc

sync_status-related :
    (api : OperatorApi) (co : ClusterOperator) (conds : List StatusCondition)
    → (sync_status api co conds).0.related_objects ≡ related_objects
unfolding sync_status
sync_status-related api co conds =
    ground (arith, related_objects_eq_sound co.related_objects related_objects)

module _ (api : OperatorApi) (law : SetsConditions api) where
  -- A condition that is set last is there; one that is not set again stays.
  set-Says :
      (conditions : List StatusCondition) (c : StatusCondition)
      → c.reason ≡ reason_as_expected
      → Says c.type c.status (api.set_status_condition conditions c)
  set-Says conditions c r =
      let (x, found, status, reason) = law.sets conditions c in (x, found, status, reason ∙ r)

  still-Says :
      (conditions : List StatusCondition) (c : StatusCondition) (type status : String)
      → type ≢ c.type
      → Says type status conditions
      → Says type status (api.set_status_condition conditions c)
  still-Says conditions c type status other (x, found, s, r) =
      (x, law.keeps conditions c type other ∙ found, s, r)

types_differ :
    (◌≢◌ {A = String} operator_available operator_degraded)
    × (◌≢◌ {A = String} operator_available operator_progressing)
    × (◌≢◌ {A = String} operator_available operator_upgradeable)
    × (◌≢◌ {A = String} operator_degraded operator_progressing)
    × (◌≢◌ {A = String} operator_degraded operator_upgradeable)
    × (◌≢◌ {A = String} operator_progressing operator_upgradeable)
types_differ = ground (
  arith,
  eq_iff operator_available operator_degraded,
  eq_iff operator_available operator_progressing,
  eq_iff operator_available operator_upgradeable,
  eq_iff operator_degraded operator_progressing,
  eq_iff operator_degraded operator_upgradeable,
  eq_iff operator_progressing operator_upgradeable,
)

-- The status of a healthy operator at a version.
pub record IsHealthy (version : String) (co : ClusterOperator) : Type 0 where
  pub available : Says operator_available "True" co.conditions
  pub degraded : Says operator_degraded "False" co.conditions
  pub progressing : Says operator_progressing "False" co.conditions
  pub upgradeable : Says operator_upgradeable "True" co.conditions
  pub versions : co.versions ≡ record { name = "operator"; version = version } ∷ []
  pub related : co.related_objects ≡ related_objects

all_set :
    (api : OperatorApi) (clock : ℕ → Time) (conditions : List StatusCondition)
    → SetsConditions api
    → Says operator_available "True" (set_all api conditions (available_conditions api clock))
      × Says operator_degraded "False" (set_all api conditions (available_conditions api clock))
      × Says operator_progressing "False" (set_all api conditions (available_conditions api clock))
      × Says operator_upgradeable "True" (set_all api conditions (available_conditions api clock))
unfolding set_all available_conditions
all_set api clock conditions law =
    let (ad, ap', au, dp, du, pu) = types_differ in
    (
      still-Says api law _ _ _ _ au (
          still-Says api law _ _ _ _ ap'
            (still-Says api law _ _ _ _ ad (set-Says api law _ _ refl))),
      still-Says api law _ _ _ _ du (still-Says api law _ _ _ _ dp (set-Says api law _ _ refl)),
      still-Says api law _ _ _ _ pu (set-Says api law _ _ refl),
      set-Says api law _ _ refl,
    )

-- If the operator's object can be read or created, the object that is sent says that the operator is
-- available, not degraded, not progressing and upgradeable, has the release version ("unknown" if
-- there is none) and the related objects, and the error is that of the update.
pub status_available-IsHealthy :
    (api : OperatorApi) (clock : ℕ → Time) (env : String) (co : ClusterOperator)
    → SetsConditions api
    → get_or_create_cluster_operator api ≡ ok co
    → (sent : ClusterOperator) × ((status_available api clock env).0 ≡ some sent)
      × IsHealthy (get_release_version env) sent
      × ((status_available api clock env).1 ≡ api.update_status sent)
unfolding status_available sync_status
status_available-IsHealthy api clock env co law got =
    let versions = record { name = "operator"; version = get_release_version env } ∷ [] in
    let co' = record co { versions = versions } in
    let sent = (sync_status api co' (available_conditions api clock)).0 in
    let (a, d, p, u) = all_set api clock co.conditions law in
    (
      sent,
      rw got,
      record {
        available = a;
        degraded = d;
        progressing = p;
        upgradeable = u;
        versions = refl;
        related = sync_status-related api co' (available_conditions api clock);
      },
      rw got,
    )
