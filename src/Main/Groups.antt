-- ===== src/Main/Groups.antt =====
-- The groups that the program goes on with.
use cluster_machine_approver.Prelude.{
  ◌↔◌, ◌≡◌, refl, sym, ap, ap₂, map, ◌∙◌, ◌≢◌, ◌⊎◌, inl, inr, List, [], ◌∷◌, Memᴰ, String, ◌==◌,
  eq_iff, ok, >>=-eq-ok, wrap_error, wrap_error-eq-ok, ok_injective, subst, arith, Bool-cases,
}
use cluster_machine_approver.MachineHandler.{GroupVersion}
use cluster_machine_approver.Main.{
  capi_group, mapi_group, validate_api_group, validate_all, parse_group_version, parse_all,
  chosen_groups, api_group_versions_of,
}

abbrev pub IsKnownGroup : String → Type 0
IsKnownGroup group = (group ≡ capi_group) ⊎ (group ≡ mapi_group)

validate_api_group_sound :
    (group : String) {u : Unit {0}} → validate_api_group group ≡ ok u → IsKnownGroup group
unfolding validate_api_group
validate_api_group_sound group h = ground (arith, eq_iff group capi_group, eq_iff group mapi_group)

validate_all_sound :
    (gvs : List GroupVersion) {u : Unit {0}}
    → validate_all gvs ≡ ok u
    → (gv : GroupVersion) → Memᴰ gv gvs
    → IsKnownGroup gv.group
unfolding validate_all
validate_all_sound [] h gv m = elim m [ ]
validate_all_sound (x ∷ xs) h gv m =
    let (u, valid, h') = >>=-eq-ok (validate_api_group x.group) _ h in
    go valid (validate_all_sound xs h') m
  where
    go :
        {u : Unit {0}}
        → validate_api_group x.group ≡ ok u
        → ((g : GroupVersion) → Memᴰ g xs → IsKnownGroup g.group)
        → Memᴰ gv (x ∷ xs)
        → IsKnownGroup gv.group
    go valid later (Memᴰ.head e) = rw e (validate_api_group_sound x.group valid)
    go valid later (Memᴰ.tail k) = later gv k

validate_all_complete :
    (gvs : List GroupVersion)
    → ((gv : GroupVersion) → Memᴰ gv gvs → IsKnownGroup gv.group)
    → validate_all gvs ≡ ok tt
unfolding validate_all validate_api_group
validate_all_complete [] known = refl
validate_all_complete (x ∷ xs) known =
    let here : IsKnownGroup x.group = known x (Memᴰ.head refl) in
    let later : validate_all xs ≡ ok tt =
      validate_all_complete xs (λ gv m. known gv (Memᴰ.tail m)) in
    ground (arith, eq_iff x.group capi_group, eq_iff x.group mapi_group)

parse_all_sound :
    (texts : List String) (gvs : List GroupVersion)
    → parse_all texts ≡ ok gvs
    → map parse_group_version texts ≡ map ok gvs
unfolding parse_all
parse_all_sound [] gvs h = ap (map ok) (ok_injective h)
parse_all_sound (t ∷ ts) gvs h =
    let (gv, parsed, h') = >>=-eq-ok (wrap_error _ (parse_group_version t)) _ h in
    let (rest, more, h'') = >>=-eq-ok (parse_all ts) _ h' in
    ap₂ ◌∷◌ (wrap_error-eq-ok _ _ parsed) (parse_all_sound ts rest more)
    ∙ ap (map ok) (ok_injective h'')

parse_all_complete :
    (texts : List String) (gvs : List GroupVersion)
    → map parse_group_version texts ≡ map ok gvs
    → parse_all texts ≡ ok gvs
unfolding parse_all
parse_all_complete [] [] h = refl
parse_all_complete [] (gv ∷ gvs) h = cc
parse_all_complete (t ∷ ts) [] h = cc
parse_all_complete (t ∷ ts) (gv ∷ gvs) h =
    let parsed : parse_group_version t ≡ ok gv = cc in
    let more : parse_all ts ≡ ok gvs = parse_all_complete ts gvs cc in rw (parsed, more)

-- What the options say: nothing, the older option's group, or the groups with their versions.
pub data Chosen (api_group : String) (versions : List String) (gvs : List GroupVersion)
    : Type 0 where
  by_default :
      api_group ≡ ""
      → versions ≡ []
      → gvs ≡ record { group = mapi_group; version = "" } ∷ []
      → Chosen api_group versions gvs
  by_group :
      api_group ≢ ""
      → versions ≡ []
      → gvs ≡ record { group = api_group; version = "" } ∷ []
      → Chosen api_group versions gvs
  by_versions :
      api_group ≡ ""
      → versions ≢ []
      → map parse_group_version versions ≡ map ok gvs
      → Chosen api_group versions gvs

chosen_groups_sound :
    (api_group : String) (versions : List String) (gvs : List GroupVersion)
    → chosen_groups api_group versions ≡ ok gvs
    → Chosen api_group versions gvs
unfolding chosen_groups
chosen_groups_sound api_group [] gvs h = elim (Bool-cases (api_group == "")) [
  | inl unset ↦ by_default ((eq_iff api_group "").0 unset) refl (sym (ok_injective (rw unset at h)))
  | inr set ↦
      by_group (λ e. ground (arith, eq_iff api_group "")) refl (sym (ok_injective (rw set at h)))
]
chosen_groups_sound api_group (v ∷ vs) gvs h = elim (Bool-cases (api_group == "")) [
  | inl unset ↦
      by_versions ((eq_iff api_group "").0 unset) (λ e. cc)
        (parse_all_sound (v ∷ vs) gvs (ground arith))
  | inr set ↦ ground arith
]

chosen_groups_complete :
    (api_group : String) (versions : List String) (gvs : List GroupVersion)
    → Chosen api_group versions gvs
    → chosen_groups api_group versions ≡ ok gvs
unfolding chosen_groups
chosen_groups_complete api_group versions gvs (by_default unset none_given same) =
    rw (unset, none_given, same)
chosen_groups_complete api_group versions gvs (by_group set none_given same) =
    rw (none_given, same) (ground (arith, eq_iff api_group ""))
chosen_groups_complete api_group [] gvs (by_versions unset given parsed) = absurd (given refl)
chosen_groups_complete api_group (v ∷ vs) gvs (by_versions unset given parsed) =
    rw unset (ground (arith, parse_all_complete (v ∷ vs) gvs parsed))

-- The options lead to a list of groups exactly when the list is what they say, which they do when not
-- both are given and each text of the newer option parses, and each group is cluster.x-k8s.io or
-- machine.openshift.io.
pub api_group_versions_of_iff :
    (api_group : String) (versions : List String) (gvs : List GroupVersion)
    → (api_group_versions_of api_group versions ≡ ok gvs) ↔ (
        Chosen api_group versions gvs × ((gv : GroupVersion) → Memᴰ gv gvs → IsKnownGroup gv.group))
unfolding api_group_versions_of
api_group_versions_of_iff api_group versions gvs = (
  λ h.
      let (parsed, chosen, h') = >>=-eq-ok (chosen_groups api_group versions) _ h in
      let (u, valid, h'') = >>=-eq-ok (validate_all parsed) _ h' in
      let same : parsed ≡ gvs = ok_injective h'' in
      (
        chosen_groups_sound api_group versions gvs (chosen ∙ ap ok same),
        λ gv m. validate_all_sound parsed valid gv (subst (λ l. Memᴰ gv l) (sym same) m),
      ),
  λ (chosen, known).
      rw (chosen_groups_complete api_group versions gvs chosen, validate_all_complete gvs known),
)
