-- ===== src/Osio/Remote/Tenant.antt =====
-- middlewares/osio/tenant.go: the tenant service.
use fabric8_oso_proxy.Base.{
  List, [], ◌∷◌, ◌++◌, ◌≡◌, ◌≢◌, refl, sym, ap, ◌⊎◌, inl, inr, All, if◌then◌else◌, Bool-cases,
}
use mathlib.Core.Path.{subst}
use fabric8_oso_proxy.Base.Strings.{Str, codes, equal, equal_iff, ne_of_equal}
use fabric8_oso_proxy.Base.Run.{
  M, Outcome, ok, err, crash, no_namespace_found, no_namespace_matched,
}
use fabric8_oso_proxy.Net.Web.{Web, fetch}
use fabric8_oso_proxy.Osio.Types.{TokenType, Namespace}

-- The loop of `getNamespace`.
find_namespace : List Namespace → TokenType → Outcome Namespace
find_namespace [] tt = err no_namespace_matched
find_namespace (n ∷ ns) tt = if equal n.kind tt then ok n else find_namespace ns tt

unfoldable pub get_namespace : List Namespace → TokenType → Outcome Namespace
unfolding find_namespace
get_namespace [] tt = err no_namespace_found
get_namespace (n ∷ ns) tt = find_namespace (n ∷ ns) tt

-- What the decoder does with the body, and `getNamespace` with its result.
abbrev pub namespace_of : TokenType → Outcome (List Namespace) → Outcome Namespace
namespace_of tt (ok ns) = get_namespace ns tt
namespace_of tt (err e) = err e
namespace_of tt crash = crash

-- `decode` is the JSON decoder of the response, `tenant_url` the field of the locator.
module _ {W : Type 0} (web : Web W) (decode : Str → Outcome (List Namespace))
    (tenant_url : Str) where
  unfoldable pub locate_tenant : Str → Str → TokenType → M W Namespace
  locate_tenant url token tt = fetch web url token (λ b. namespace_of tt (decode b))

  unfoldable pub get_tenant : Str → TokenType → M W Namespace
  get_tenant token tt = locate_tenant (tenant_url ++ codes "/tenant") token tt

  unfoldable pub get_tenant_by_id : Str → TokenType → Str → M W Namespace
  get_tenant_by_id token tt user_id =
      locate_tenant (tenant_url ++ (codes "/tenants/" ++ user_id)) token tt

-- The first namespace of a type.
pub record IsFirstOf (tt : TokenType) (ns : List Namespace) (n : Namespace) : Type 0 where
  pub before : List Namespace
  pub after : List Namespace
  pub splits : ns ≡ before ++ n ∷ after
  pub kind : n.kind ≡ tt
  pub skipped : All (λ (m : Namespace). m.kind ≢ tt) before

-- The result of the search: the first match, no match, or no namespace at all.
pub data Picked (tt : TokenType) (ns : List Namespace) : Outcome Namespace → Type 0 where
  first : (n : Namespace) → IsFirstOf tt ns n → Picked tt ns (ok n)
  unmatched :
      ns ≢ [] → All (λ (m : Namespace). m.kind ≢ tt) ns → Picked tt ns (err no_namespace_matched)
  nothing : ns ≡ [] → Picked tt ns (err no_namespace_found)

find_namespace-cases :
    (ns : List Namespace) (tt : TokenType)
    → ((n : Namespace) × (find_namespace ns tt ≡ ok n) × IsFirstOf tt ns n)
      ⊎ (find_namespace ns tt ≡ err no_namespace_matched) × All (λ (m : Namespace). m.kind ≢ tt) ns
unfolding find_namespace
find_namespace-cases [] t = inr (refl, tt)
find_namespace-cases (n ∷ ns) tt = elim (Bool-cases (equal n.kind tt)) [
  | inl here ↦ inl (
    n,
    rw here refl,
    record {
      before = [];
      after = ns;
      splits = refl;
      kind = (equal_iff n.kind tt).0 here;
      skipped = Prim.tt;
    },
  )
  | inr other ↦ elim (find_namespace-cases ns tt) [
    | inl (m, found, f) ↦ inl (
      m,
      rw other found,
      record {
        before = n ∷ f.before;
        after = f.after;
        splits = ap (◌∷◌ n) f.splits;
        kind = f.kind;
        skipped = (ne_of_equal n.kind tt other, f.skipped);
      },
    )
    | inr (missing, all) ↦ inr (rw other missing, (ne_of_equal n.kind tt other, all))
  ]
]

-- The search returns the first namespace whose type is the token's; if there is none it returns
-- an error, which tells a tenant without namespaces from one that has only others.
pub get_namespace-Picked :
    (ns : List Namespace) (tt : TokenType) → Picked tt ns (get_namespace ns tt)
unfolding get_namespace
get_namespace-Picked [] t = nothing refl
get_namespace-Picked (n ∷ ns) tt = elim (find_namespace-cases (n ∷ ns) tt) [
  | inl (m, found, f) ↦ subst (Picked tt (n ∷ ns)) (sym found) (first m f)
  | inr (missing, all) ↦ subst (Picked tt (n ∷ ns)) (sym missing) (unmatched (λ e. cc) all)
]
