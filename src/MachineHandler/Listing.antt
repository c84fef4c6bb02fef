-- ===== src/MachineHandler/Listing.antt =====
-- What `ListMachines` lists.
use cluster_machine_approver.Prelude.{
  ◌↔◌, ◌≡◌, refl, sym, ap, ap₂, ◌∙◌, List, [], ◌∷◌, map, String, ◌==◌, api_group_not_found, Result,
  ok, err, >>=-eq-ok, ok_injective, if◌then◌else◌,
}
use cluster_machine_approver.MachineHandler.{
  Machine, GroupVersion, MachineApi, string_to_time_hook, get_api_group_preferred_version,
  decode_all, list_versioned, list_machines,
}

decode_all_sound :
    (api : MachineApi) (objects : List api.Object) (machines : List Machine)
    → decode_all api objects ≡ ok machines
    → map (api.decode string_to_time_hook) objects ≡ map ok machines
unfolding decode_all
decode_all_sound api [] machines h = ap (map ok) (ok_injective h)
decode_all_sound api (o ∷ os) machines h =
    let (m, decoded, h') = >>=-eq-ok (api.decode string_to_time_hook o) _ h in
    let (rest, more, h'') = >>=-eq-ok (decode_all api os) _ h' in
    ap₂ ◌∷◌ decoded (decode_all_sound api os rest more) ∙ ap (map ok) (ok_injective h'')

-- The version that is asked for: the one given, or else the server's preferred one.
abbrev pub version_of : GroupVersion → (preferred : String) → String
version_of gv preferred = if gv.version == "" then preferred else gv.version

-- How a list of machines comes about: the group is not served, or it is, and each object that is
-- listed under the version decodes to the machine in its place.
pub data Lists (api : MachineApi) (namespace : String) (gv : GroupVersion) (machines : List Machine)
    : Type 0 where
  not_served :
      get_api_group_preferred_version api gv.group ≡ err api_group_not_found
      → machines ≡ []
      → Lists api namespace gv machines
  served :
      (preferred : String) (objects : List api.Object)
      → get_api_group_preferred_version api gv.group ≡ ok preferred
      → api.list_objects gv.group (version_of gv preferred) namespace ≡ ok objects
      → map (api.decode string_to_time_hook) objects ≡ map ok machines
      → Lists api namespace gv machines

list_versioned_sound :
    (api : MachineApi) (namespace : String) (gv : GroupVersion) (machines : List Machine)
    (r : Result String)
    → get_api_group_preferred_version api gv.group ≡ r
    → list_versioned api namespace gv r ≡ ok machines
    → Lists api namespace gv machines
unfolding list_versioned
list_versioned_sound api namespace gv machines (ok preferred) p h =
    let (objects, listed, h') =
      >>=-eq-ok (api.list_objects gv.group (version_of gv preferred) namespace) _ h in
    served preferred objects p listed (decode_all_sound api objects machines h')
list_versioned_sound api namespace gv machines (err api_group_not_found) p h =
    not_served p (sym (ok_injective h))
list_versioned_sound api namespace gv machines (err _) p h = cc

decode_all_complete :
    (api : MachineApi) (objects : List api.Object) (machines : List Machine)
    → map (api.decode string_to_time_hook) objects ≡ map ok machines
    → decode_all api objects ≡ ok machines
unfolding decode_all
decode_all_complete api [] [] h = refl
decode_all_complete api [] (m ∷ ms) h = cc
decode_all_complete api (o ∷ os) [] h = cc
decode_all_complete api (o ∷ os) (m ∷ ms) h =
    let decoded : api.decode string_to_time_hook o ≡ ok m = cc in
    let more : decode_all api os ≡ ok ms = decode_all_complete api os ms cc in rw (decoded, more)

-- A listing succeeds with a list of machines exactly when the list is empty and the group is not
-- served, or the group is served and the list holds, in order, the machine that each object listed
-- under the version asked for or, without one, under the preferred version decodes to.
pub list_machines_iff :
    (api : MachineApi) (namespace : String) (gv : GroupVersion) (machines : List Machine)
    → (list_machines api namespace gv ≡ ok machines) ↔ Lists api namespace gv machines
unfolding list_machines list_versioned
list_machines_iff api namespace gv machines = (
  λ h.
      list_versioned_sound api namespace gv machines (get_api_group_preferred_version api gv.group)
        refl h,
  complete,
)
  where
    complete : Lists api namespace gv machines → list_machines api namespace gv ≡ ok machines
    complete (not_served absent empty) = rw (absent, empty)
    complete (served preferred objects p listed decoded) =
        rw (p, listed, decode_all_complete api objects machines decoded)
