-- ===== src/GoStd/Sort.antt =====
-- `sort.Strings`: ascending by bytes, which is by code points. An ascending rearrangement of a list
-- of texts is unique (Sort/Laws), so insertion stands for the library's algorithm.
pub mod Order
pub mod Laws
use cluster_machine_approver.Prelude.{
  Bool, true, false, List, [], ◌∷◌, String, code, ltb, if◌then◌else◌,
}

-- `!(t < s)`
unfoldable pub str_leb : String → String → Bool
str_leb String.[] t = true
str_leb (String.◌∷◌ c s) String.[] = false
str_leb (String.◌∷◌ c s) (String.◌∷◌ d t) =
    if ltb (code c) (code d) then true else if ltb (code d) (code c) then false else str_leb s t

unfoldable pub insert : String → List String → List String
insert x [] = x ∷ []
insert x (y ∷ ys) = if str_leb x y then x ∷ y ∷ ys else y ∷ insert x ys

unfoldable pub sort_strings : List String → List String
unfolding insert str_leb
sort_strings [] = []
sort_strings (x ∷ xs) = insert x (sort_strings xs)
