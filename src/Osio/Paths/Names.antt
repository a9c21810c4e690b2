-- ===== src/Osio/Paths/Names.antt =====
-- The namespace in a request's path.
use fabric8_oso_proxy.Base.{
  ℕ, suc, ◌<◌, Option, none, some, [], ◌∷◌, ◌++◌, ◌≡◌, refl, ap, ◌⊎◌, inl, inr, arith, ◌==◌, ==_iff,
  Bool-cases, length,
}
use mathlib.Core.Option
use fabric8_oso_proxy.Base.Strings.{Str, codes, equal, has_prefix, index, Lacks}
use fabric8_oso_proxy.Base.Strings.Index.{drop-IsFirstAt, IsAbsentAt, Found, index-Found}
use fabric8_oso_proxy.Osio.Paths.{get_namespace_name, ns_path, until_slash, after_ns_path}

-- A name up to the next slash.
pub record IsUpToSlash (s n : Str) : Type 0 where
  pub rest : Str
  pub splits : s ≡ n ++ rest
  pub lacks : Lacks b'/' n
  pub border : (rest ≡ []) ⊎ ((r : Str) × (rest ≡ b'/' ∷ r))

-- `n` is the segment behind the first "/namespaces/" of the path.
pub record IsSegment (p n : Str) : Type 0 where
  pub before : Str
  pub after : Str
  pub splits : p ≡ before ++ (ns_path ++ after)
  pub earliest : (j : ℕ) → j < length before → IsAbsentAt p ns_path j
  pub segment : IsUpToSlash after n

until_slash-cons :
    (c : ℕ) (s : Str) (o : Option ℕ) → until_slash (c ∷ s) (Option.map suc o) ≡ c ∷ until_slash s o
until_slash-cons c s none = refl
until_slash-cons c s (some n) = refl

until_slash-IsUpToSlash : (s : Str) → IsUpToSlash s (until_slash s (index s (codes "/")))
unfolding index has_prefix
until_slash-IsUpToSlash [] = record { rest = []; splits = refl; lacks = tt; border = inl refl }
until_slash-IsUpToSlash (c ∷ s) = elim (Bool-cases (c == b'/')) [
  | inl here ↦ rw here (record {
    rest = c ∷ s;
    splits = refl;
    lacks = tt;
    border = inr (s, ap (λ d. d ∷ s) ((==_iff c b'/').0 here));
  })
  | inr later ↦
      let ih = until_slash-IsUpToSlash s in
      rw (later, until_slash-cons c s (index s (codes "/")))
        (record {
          rest = ih.rest;
          splits = ap (◌∷◌ c) ih.splits;
          lacks = (ground arith, ih.lacks);
          border = ih.border;
        })
]

abbrev HasSegment : Str → Str → Type 0
HasSegment p n = IsSegment p n ⊎ (n ≡ []) × ((j : ℕ) → IsAbsentAt p ns_path j)

after_ns_path-HasSegment :
    (p : Str) (o : Option ℕ) → Found p ns_path o → HasSegment p (after_ns_path p o)
after_ns_path-HasSegment p none f = inr (refl, f)
after_ns_path-HasSegment p (some i) f = inl (
    rw (drop-IsFirstAt p ns_path i f) (record {
      before = f.before;
      after = f.after;
      splits = f.splits;
      earliest = λ j lt. f.earliest j (omega (arith, f.place));
      segment = until_slash-IsUpToSlash f.after;
    }))

get_namespace_name-after : (p : Str) → get_namespace_name p ≡ after_ns_path p (index p ns_path)
unfolding get_namespace_name equal index has_prefix
get_namespace_name-after [] = refl
get_namespace_name-after (c ∷ p) = refl

-- The name of the namespace is the segment of the path behind the first "/namespaces/", up to
-- the next slash or the end; it is empty if the path has no such part.
pub get_namespace_name-IsSegment :
    (p : Str)
    → IsSegment p (get_namespace_name p)
      ⊎ ((get_namespace_name p ≡ []) × ((j : ℕ) → IsAbsentAt p ns_path j))
get_namespace_name-IsSegment p =
    rw (get_namespace_name-after p)
      (after_ns_path-HasSegment p (index p ns_path) (index-Found p ns_path))
