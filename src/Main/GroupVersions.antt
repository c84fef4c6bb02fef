-- ===== src/Main/GroupVersions.antt =====
-- `parseGroupVersion` on texts with and without slashes.
use Prim.Native.String
use text.Mathlib.TextLemmas.{nil-append, cons-append}
use cluster_machine_approver.Prelude.{
  suc, ◌+◌, ◌≤◌, ◌≡◌, refl, sym, ap, ◌∙◌, ◌≢◌, ◌↔◌, String, eq_iff, Error, bad_group_version, ok,
  err, arith,
}
use cluster_machine_approver.Main.{count_slashes, before_slash, after_slash, parse_group_version}

-- "group/version"
abbrev pub joined : (group version : String) → String
joined group version = String.◌++◌ group (String.◌++◌ "/" version)

slash_first : (version : String) → String.◌++◌ "/" version ≡ String.◌∷◌ "/" version
slash_first version = cons-append "/" String.[] version ∙ ap (String.◌∷◌ "/") (nil-append version)

count_slashes-joined :
    (group version : String)
    → count_slashes (joined group version) ≡ count_slashes group + suc (count_slashes version)
unfolding count_slashes
count_slashes-joined String.[] version = rw (nil-append, slash_first) (omega arith)
count_slashes-joined (String.◌∷◌ c s) version =
    rw cons-append (ground (arith, count_slashes-joined s version))

before_slash-joined :
    (group version : String) → count_slashes group ≡ 0 → before_slash (joined group version) ≡ group
unfolding before_slash count_slashes
before_slash-joined String.[] version h = rw (nil-append, slash_first)
before_slash-joined (String.◌∷◌ c s) version h =
    rw cons-append (ground (arith, before_slash-joined s version))

after_slash-joined :
    (group version : String)
    → count_slashes group ≡ 0
    → after_slash (joined group version) ≡ version
unfolding after_slash count_slashes
after_slash-joined String.[] version h = rw (nil-append, slash_first)
after_slash-joined (String.◌∷◌ c s) version h =
    rw cons-append (ground (arith, after_slash-joined s version))

slash-count : count_slashes "/" ≡ 1
unfolding count_slashes
slash-count = refl

nil-count : count_slashes "" ≡ 0
unfolding count_slashes
nil-count = refl

slash-before : before_slash "/" ≡ ""
unfolding before_slash
slash-before = refl

slash-after : after_slash "/" ≡ ""
unfolding after_slash
slash-after = refl

module _ (group version : String) (g : count_slashes group ≡ 0)
    (v : count_slashes version ≡ 0) where
  one_slash : count_slashes (joined group version) ≡ 1
  one_slash = omega (arith, count_slashes-joined group version)

  joined-ne-nil : joined group version ≢ ""
  joined-ne-nil e = absurd (omega (arith, one_slash, ap count_slashes e, nil-count))

  parts_of_slash : joined group version ≡ "/" → (group ≡ "") × (version ≡ "")
  parts_of_slash e = (
    sym (before_slash-joined group version g) ∙ ap before_slash e ∙ slash-before,
    sym (after_slash-joined group version g) ∙ ap after_slash e ∙ slash-after,
  )

  parse_joined :
      parse_group_version (joined group version) ≡ ok (record { group = group; version = version })
  unfolding parse_group_version
  parse_joined = ground (
    arith,
    eq_iff (joined group version) "",
    eq_iff (joined group version) "/",
    joined-ne-nil,
    parts_of_slash,
    one_slash,
    before_slash-joined group version g,
    after_slash-joined group version g,
  )

  parse_group : parse_group_version group ≡ ok (record { group = group; version = "" })
  unfolding parse_group_version
  parse_group =
      let not_slash : group ≢ "/" = λ e. absurd (omega (arith, ap count_slashes e, slash-count)) in
      ground (arith, eq_iff group "", eq_iff group "/", not_slash)

-- A group and a version without slashes are read back from their joined text, and a group without
-- slashes alone is read as that group with no version.
pub parse_group_version-joined :
    (group version : String)
    → count_slashes group ≡ 0
    → count_slashes version ≡ 0
    → (parse_group_version (joined group version)
        ≡ ok (record { group = group; version = version }))
      × (parse_group_version group ≡ ok (record { group = group; version = "" }))
parse_group_version-joined group version g v =
    (parse_joined group version g v, parse_group group version g v)

-- A text is refused exactly when it has two slashes or more.
pub parse_group_version_refused_iff :
    (gv : String) → ((e : Error) × (parse_group_version gv ≡ err e)) ↔ (2 ≤ count_slashes gv)
unfolding parse_group_version
parse_group_version_refused_iff gv = (
  λ (e, h). ground arith,
  λ many.
      let not_nil : gv ≢ "" = λ e. absurd (omega (arith, ap count_slashes e, nil-count)) in
      let not_slash : gv ≢ "/" = λ e. absurd (omega (arith, ap count_slashes e, slash-count)) in
      (bad_group_version gv, ground (arith, eq_iff gv "", eq_iff gv "/", not_nil, not_slash)),
)
