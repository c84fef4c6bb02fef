-- ===== src/CsrCheck/Sans/Laws.antt =====
-- What the comparisons decide: lists of names up to their order, and addresses up to their text.
use mathlib.Core.List.{Perm, Permᴰ}
use mathlib.Core.Logic.{∥∥₁_elim}
use native.Mathlib.Nat.{ℕ_set}
use cluster_machine_approver.Prelude.{
  suc, ◌≡◌, refl, sym, ap, ◌∙◌, ◌↔◌, ◌⊎◌, inl, inr, Bool, true, false, not, List, [], ◌∷◌, map,
  Memᴰ, String, length, texts_eq, texts_eq_iff, nat_eq, contains, contains_iff, all_sound,
  all_complete, any_sound, any_complete, if◌then◌else◌, arith, Bool-cases,
}
use cluster_machine_approver.GoStd.Sort.{sort_strings}
use cluster_machine_approver.GoStd.Sort.Laws.{sort_strings-eq_iff_perm}
use cluster_machine_approver.GoStd.Ip.{Ip, IpNet, to_string, net_contains}
use cluster_machine_approver.Kube.{Url}
use cluster_machine_approver.CsrCheck.Sans.{
  equal_strings, equal_urls, equal_ip_addresses, url_string, ip_in_set, subset_ip_addresses,
}

-- Two slices of texts are equal exactly when one is a rearrangement of the other.
pub equal_strings_iff : (a b : List String) → (equal_strings a b ≡ true) ↔ Perm a b
unfolding equal_strings
equal_strings_iff a b =
    let (to, from) = texts_eq_iff (sort_strings a) (sort_strings b) in
    let (to', from') = sort_strings-eq_iff_perm a b in (λ h. to' (to h), λ p. from (from' p))

perm-length : {a b : List String} → Perm a b → length a ≡ length b
perm-length p = ∥∥₁_elim p (ℕ_set _ _) permᴰ-length
  where
    permᴰ-length : {a b : List String} → Permᴰ a b → length a ≡ length b
    permᴰ-length Permᴰ.nil = refl
    permᴰ-length (Permᴰ.cons e q) = ap suc (permᴰ-length q)
    permᴰ-length (Permᴰ.swap e f) = refl
    permᴰ-length (Permᴰ.trans q r) = permᴰ-length q ∙ permᴰ-length r

length-map {ℓ} : {A : Type ℓ} (f : A → String) (xs : List A) → length (map f xs) ≡ length xs
length-map f [] = refl
length-map f (x ∷ xs) = ap suc (length-map f xs)

-- The length is tested before the texts are sorted; rearranged texts pass that test.
module _ {ℓ} {A : Type ℓ} (f : A → String) (a b : List A) where
  abbrev tested : Bool
  tested =
      if not (nat_eq (length a) (length b))
      then false
      else texts_eq (sort_strings (map f a)) (sort_strings (map f b))

  tested_iff : (tested ≡ true) ↔ Perm (map f a) (map f b)
  tested_iff =
      let (to, from) = texts_eq_iff (sort_strings (map f a)) (sort_strings (map f b)) in
      let (to', from') = sort_strings-eq_iff_perm (map f a) (map f b) in
      (
        λ h. to' (to (ground arith)),
        λ p.
            let same = sym (length-map f a) ∙ perm-length p ∙ length-map f b in
            let sorted = from (from' p) in ground (arith, same, sorted),
      )

-- Two slices of URLs are equal exactly when their texts are rearrangements of one another.
pub equal_urls_iff :
    (a b : List Url) → (equal_urls a b ≡ true) ↔ Perm (map url_string a) (map url_string b)
unfolding equal_urls
equal_urls_iff a b = tested_iff url_string a b

-- Two slices of addresses are equal exactly when the texts of one are a rearrangement of the texts of
-- the other.
pub equal_ip_addresses_iff :
    (a b : List Ip) → (equal_ip_addresses a b ≡ true) ↔ Perm (map to_string a) (map to_string b)
unfolding equal_ip_addresses
equal_ip_addresses_iff a b = tested_iff to_string a b

-- An address is allowed by its text among those of the set, or by a network that contains it.
abbrev pub IsAllowed : List IpNet → (super : List Ip) → Ip → Type 0
IsAllowed cidrs super ip =
    Memᴰ (to_string ip) (map to_string super)
    ⊎ ((cidr : IpNet) × Memᴰ cidr cidrs × (net_contains cidr ip ≡ true))

ip_in_set_iff :
    (cidrs : List IpNet) (super : List Ip) (ip : Ip)
    → (ip_in_set cidrs (map to_string super) ip ≡ true) ↔ IsAllowed cidrs super ip
unfolding ip_in_set
ip_in_set_iff cidrs super ip = elim (Bool-cases (contains (to_string ip) (map to_string super))) [
  | inl e ↦ (λ _. inl ((contains_iff (to_string ip) (map to_string super)).0 e), λ _. ground arith)
  | inr e ↦ (λ h. inr (any_sound (net_contained ip) cidrs (ground arith)), back e)
]
  where
    net_contained : Ip → IpNet → Bool
    net_contained ip cidr = net_contains cidr ip

    back :
        contains (to_string ip) (map to_string super) ≡ false
        → IsAllowed cidrs super ip
        → ip_in_set cidrs (map to_string super) ip ≡ true
    back e (inl m) = ground (arith, (contains_iff (to_string ip) (map to_string super)).1 m)
    back e (inr (cidr, m, h)) = ground (arith, any_complete (net_contained ip) m h)

-- The subset test passes exactly when every requested address has the text of one of the set or lies
-- in one of the networks.
pub subset_ip_addresses_iff :
    (cidrs : List IpNet) (super sub : List Ip)
    → (subset_ip_addresses cidrs super sub ≡ true)
      ↔ ((ip : Ip) → Memᴰ ip sub → IsAllowed cidrs super ip)
unfolding subset_ip_addresses
subset_ip_addresses_iff cidrs super sub = (
  λ h ip m. (ip_in_set_iff cidrs super ip).0 (all_sound in_set h m),
  λ allowed. all_complete in_set sub λ ip m. (ip_in_set_iff cidrs super ip).1 (allowed ip m),
)
  where
    in_set : Ip → Bool
    in_set ip = ip_in_set cidrs (map to_string super) ip
