-- ===== src/Types/Domains.antt =====
-- types/domains.go: certificate domains, their lists, and `MatchDomain`.
pub mod Matched
use fabric8_oso_proxy.Base.{
  ℕ, zero, suc, Bool, true, false, ◌&&◌, ◌||◌, Option, none, some, List, [], ◌∷◌, ◌++◌, ◌==◌,
  if◌then◌else◌, length, reverse,
}
use fabric8_oso_proxy.Base.Fields.{fields_func, join}
use fabric8_oso_proxy.Base.Strings.{Str, codes, equal, split}

pub record Domain : Type 0 where
  pub main : Str
  pub sans : List Str

abbrev pub no_domain : Domain
no_domain = record { main = []; sans = [] }

-- `Domain.ToStrArray`
unfoldable pub to_str_array : Domain → List Str
to_str_array d = (if equal d.main [] then [] else d.main ∷ []) ++ d.sans

-- `Domain.Set`
unfoldable pub set : List Str → Domain → Domain
set [] d = d
set (main ∷ sans) d = record { main = main; sans = sans }

abbrev pub is_separator : ℕ → Bool
is_separator c = c == b',' || c == b';'

abbrev pub append_domain : List Str → List Domain → Option (List Domain)
append_domain [] ds = none
append_domain (main ∷ sans) ds = some (ds ++ (record { main = main; sans = sans }) ∷ [])

-- `Domains.Set`; `none` is the error.
unfoldable pub set_domains : Str → List Domain → Option (List Domain)
set_domains s ds = append_domain (fields_func is_separator s) ds

-- The text whose reverse is given, without the dots at its end.
unfoldable pub drop_dots : Str → Str
drop_dots [] = []
drop_dots (c ∷ s) = let rest = drop_dots s in if c == b'.' then rest else c ∷ s

unfoldable pub trim_dots : Str → Str
trim_dots s = reverse (drop_dots (reverse s))

abbrev pub star : Str
star = codes "*"

-- The loop of `MatchDomain`: the labels of which those already behind the index are stars.
unfoldable pub match_labels : Str → List Str → List Str → Bool
match_labels cert stars [] = false
match_labels cert stars (l ∷ ls) =
    equal cert (join (stars ++ star ∷ ls) (codes ".")) || match_labels cert (stars ++ star ∷ []) ls

-- `MatchDomain`
unfoldable pub match_domain : Str → Str → Bool
match_domain domain cert =
    if equal domain cert then true else match_labels (trim_dots cert) [] (split domain b'.')
