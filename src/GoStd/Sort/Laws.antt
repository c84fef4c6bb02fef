-- ===== src/GoStd/Sort/Laws.antt =====
-- Sorting and rearrangements.
use mathlib.Core.List.{Perm, Permᴰ}
use mathlib.Core.List.Perm
use mathlib.Core.Logic.{∥∥₁_elim}
use cluster_machine_approver.Prelude.{
  ◌≡◌, refl, ap₂, ◌∙◌, ◌↔◌, List, [], ◌∷◌, String, inl, inr, arith, Bool-cases, List-String-set,
}
use cluster_machine_approver.GoStd.Sort.{str_leb, insert, sort_strings}
use cluster_machine_approver.GoStd.Sort.Order.{str_leb_total, str_leb_trans, str_leb_antisymm}

-- Two insertions may change places.
insert_comm : (x y : String) (l : List String) → insert x (insert y l) ≡ insert y (insert x l)
unfolding insert
insert_comm x y [] = ground (arith, str_leb_total x y, str_leb_total y x, str_leb_antisymm x y)
insert_comm x y (z ∷ l) = ground (
  arith,
  insert_comm x y l,
  str_leb_total x y,
  str_leb_total y x,
  str_leb_total x z,
  str_leb_total y z,
  str_leb_antisymm x y,
  str_leb_trans x y z,
  str_leb_trans y x z,
)

sort_strings-permᴰ : {l r : List String} → Permᴰ l r → sort_strings l ≡ sort_strings r
unfolding sort_strings
sort_strings-permᴰ Permᴰ.nil = refl
sort_strings-permᴰ (Permᴰ.cons e p) = ap₂ insert e (sort_strings-permᴰ p)
sort_strings-permᴰ (Permᴰ.swap {a} {b} {l} e f) =
    insert_comm a b (sort_strings l) ∙ ap₂ insert f (ap₂ insert e refl)
sort_strings-permᴰ (Permᴰ.trans p q) = sort_strings-permᴰ p ∙ sort_strings-permᴰ q

insert-perm : (x : String) (l : List String) → Perm (insert x l) (x ∷ l)
unfolding insert
insert-perm x [] = Perm.refl (x ∷ [])
insert-perm x (y ∷ ys) = elim (Bool-cases (str_leb x y)) [
  | inl first ↦ rw first (Perm.refl (x ∷ y ∷ ys))
  | inr later ↦ rw later (Perm.trans (Perm.cons y (insert-perm x ys)) (Perm.swap x y ys))
]

pub sort_strings-perm : (l : List String) → Perm (sort_strings l) l
unfolding sort_strings
sort_strings-perm [] = Perm.refl []
sort_strings-perm (x ∷ l) =
    let rest = sort_strings-perm l in Perm.trans (insert-perm x (sort_strings l)) (Perm.cons x rest)

-- Two lists sort to the same list exactly when each is a rearrangement of the other.
pub sort_strings-eq_iff_perm : (l r : List String) → (sort_strings l ≡ sort_strings r) ↔ Perm l r
sort_strings-eq_iff_perm l r = (
  λ e. Perm.trans (Perm.symm (sort_strings-perm l)) (rw e (sort_strings-perm r)),
  λ p. ∥∥₁_elim p (List-String-set _ _) sort_strings-permᴰ,
)
