-- ===== src/Utilities/Interfaces.antt =====
-- Which address get_ipv4_address (util/ipUtilities.cpp) gives.
use mathlib.Core.Path.{subst}
use mathlib.Core.List.{append_assoc}
use hex.MsgSocket.Stream.{append_nil}
use hex.Base.{
  ◌≡◌, refl, sym, ap, ◌∙◌, Bool, true, false, Option, none, some, inl, inr, List, [], ◌∷◌, ◌++◌,
  arith, ◌⊎◌,
}
use hex.Protocol.{Bytes, string_eq}
use hex.Utilities.{
  Interface, Family, af_inet, af_inet6, other_family, is_inet, visit_at, visit, walk,
  get_ipv4_address,
}

-- the entry has the name and an IPv4 address
abbrev pub IsMatch : (name : Bytes) → (addr : Bytes) → Interface → Type 0
IsMatch name addr i = (i.ifa_addr ≡ some (af_inet, addr)) × (string_eq i.ifa_name name ≡ true)

-- no address of the list is an IPv4 address of the name
abbrev pub NoMatch : (name : Bytes) → List Interface → Type 0
NoMatch name [] = Unit
NoMatch name (i ∷ is) = ((addr : Bytes) → IsMatch name addr i → ⊥) × NoMatch name is

-- what is found in a list: nothing and no entry matches, or the address of its last match
abbrev pub Finds : (name : Bytes) → List Interface → Option Bytes → Type 0
Finds name is none = NoMatch name is
Finds name is (some addr) =
    (before after : List Interface) × (i : Interface) × (is ≡ before ++ i ∷ after)
    × IsMatch name addr i
    × NoMatch name after

-- whether an address is that of a match
abbrev Matches : (same_name : Bool) → Option (Family × Bytes) → (addr : Bytes) → Type 0
Matches same o addr = (o ≡ some (af_inet, addr)) × (same ≡ true)

matched_at :
    (same : Bool) (o : Option (Family × Bytes)) (found : Option Bytes)
    → ((addr : Bytes) × Matches same o addr × (visit_at same o found ≡ some addr))
      ⊎ (((addr : Bytes) → Matches same o addr → ⊥) × (visit_at same o found ≡ found))
unfolding visit_at is_inet
matched_at same none found = inr ((λ addr m. cc (m.0)), refl)
matched_at true (some (af_inet, addr)) found = inl (addr, (refl, refl), refl)
matched_at false (some (af_inet, addr)) found = inr ((λ a m. cc (m.1)), refl)
matched_at same (some (af_inet6, addr)) found = inr ((λ a m. ground (arith, m.0)), refl)
matched_at same (some (other_family, addr)) found = inr ((λ a m. ground (arith, m.0)), refl)

NoMatch-snoc :
    (name : Bytes) (is : List Interface) (i : Interface)
    → NoMatch name is
    → ((addr : Bytes) → IsMatch name addr i → ⊥)
    → NoMatch name (is ++ i ∷ [])
NoMatch-snoc name [] i h k = (k, tt)
NoMatch-snoc name (j ∷ is) i h k = (h.0, NoMatch-snoc name is i h.1 k)

Finds-snoc :
    (name : Bytes) (is : List Interface) (i : Interface) (found : Option Bytes)
    → Finds name is found
    → ((addr : Bytes) → IsMatch name addr i → ⊥)
    → Finds name (is ++ i ∷ []) found
Finds-snoc name is i none h k = NoMatch-snoc name is i h k
Finds-snoc name is i (some addr) (before, after, j, e, m, h) k = (
  before,
  after ++ i ∷ [],
  j,
  ap (λ l. l ++ i ∷ []) e ∙ append_assoc before (j ∷ after) (i ∷ []),
  m,
  NoMatch-snoc name after i h k,
)

visit-Finds :
    (name : Bytes) (is : List Interface) (i : Interface) (found : Option Bytes)
    → Finds name is found
    → Finds name (is ++ i ∷ []) (visit name i found)
unfolding visit
visit-Finds name is i found h = elim (matched_at (string_eq i.ifa_name name) i.ifa_addr found) [
  | inl (addr, m, e) ↦ subst (Finds name (is ++ i ∷ [])) (sym e) (is, [], i, refl, m, tt)
  | inr (k, e) ↦ subst (Finds name (is ++ i ∷ [])) (sym e) (Finds-snoc name is i found h k)
]

walk-Finds :
    (name : Bytes) (before is : List Interface) (found : Option Bytes)
    → Finds name before found
    → Finds name (before ++ is) (walk name is found)
unfolding walk
walk-Finds name before [] found h = subst (λ l. Finds name l found) (sym (append_nil before)) h
walk-Finds name before (i ∷ is) found h =
    subst (λ l. Finds name l (walk name is (visit name i found))) (append_assoc before (i ∷ []) is)
      (walk-Finds name (before ++ i ∷ []) is (visit name i found)
        (visit-Finds name before i found h))

-- get_ipv4_address gives the address of the last entry that has the name and an IPv4 address, and
-- -1 exactly where there is no such entry.
pub get_ipv4_address-Finds :
    (is : List Interface) (name : Bytes)
    → (found : Option Bytes) × (get_ipv4_address (some is) name ≡ some found) × Finds name is found
unfolding get_ipv4_address
get_ipv4_address-Finds is name = (walk name is none, refl, walk-Finds name [] is none tt)
