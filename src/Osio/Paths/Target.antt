-- ===== src/Osio/Paths/Target.antt =====
-- The headers and the target URL of a request.
use fabric8_oso_proxy.Base.{
  ℕ, false, ◌||◌, List, [], ◌∷◌, ◌++◌, ◌≡◌, ◌≢◌, refl, sym, ap, ◌∙◌, ◌⊎◌, inl, inr, arith, ◌==◌,
  ==_iff, if◌then◌else◌, Bool-cases,
}
use mathlib.Core.List.{append_assoc}
use fabric8_oso_proxy.Base.Strings.{
  Str, codes, equal, equal_iff, equal_refl, has_suffix, trim_suffix, split, cons_first, Lacks,
  has_suffix_split, trim_suffix_of_not,
}
use fabric8_oso_proxy.Base.Run.{ok, err, missing_auth}
use fabric8_oso_proxy.Net.Header
use fabric8_oso_proxy.Net.Header.{get-del, all_values-del}
use fabric8_oso_proxy.Net.Request.{Request}
use fabric8_oso_proxy.Osio.Paths.{
  normalize_url, at_last, extract_token, non_empty, get_token, del_if_set, remove_user_id,
}
use fabric8_oso_proxy.Osio.Types.{authorization, impersonate_group_header, user_id_header}

-- A URL is kept, or loses the one slash at its end.
pub normalize_url_cases :
    (u : Str)
    → (u ≡ normalize_url u ++ codes "/")
      ⊎ (normalize_url u ≡ u) × (has_suffix u (codes "/") ≡ false)
unfolding normalize_url trim_suffix has_suffix
normalize_url_cases u = elim (Bool-cases (has_suffix u (codes "/"))) [
  | inl slash ↦ inl (has_suffix_split u (codes "/") slash)
  | inr bare ↦ inr (trim_suffix_of_not u (codes "/") bare, bare)
]

get-del_if_set :
    (h : Header.Header) (k j : Str)
    → Header.get (del_if_set h k) j ≡ (if equal k j then [] else Header.get h j)
get-del_if_set h k j = ground (arith, get-del h k j, equal_iff (Header.get h k) [], equal_iff k j)

-- What is left of a header that is deleted if its first value is not empty.
abbrev pub values_unless_set : Header.Header → Str → List Str
values_unless_set h k = if equal (Header.get h k) [] then Header.all_values h k else []

all_values-del_if_set :
    (h : Header.Header) (k j : Str)
    → Header.all_values (del_if_set h k) j
      ≡ (if equal k j then values_unless_set h k else Header.all_values h j)
all_values-del_if_set h k j = elim (Bool-cases (equal k j)) [
  | inl same ↦
      let one = (equal_iff k j).0 same in
      rw (sym one) (ground (arith, all_values-del h k k, equal_refl k))
  | inr other ↦ ground (arith, all_values-del h k j)
]

user_id_is_not_group : equal user_id_header impersonate_group_header ≡ false
unfolding equal
user_id_is_not_group = refl

values_unless_set_other :
    (h : Header.Header) (k j : Str)
    → equal k j ≡ false
    → values_unless_set (del_if_set h k) j ≡ values_unless_set h j
values_unless_set_other h k j other =
    let read = get-del_if_set h k j in
    let kept = all_values-del_if_set h k j in rw (read, kept, other) refl

-- An impersonation header is gone if its first value is not empty, and every other header is as
-- it was.
pub remove_user_id_lem :
    (r : Request) (k : Str)
    → Header.all_values (remove_user_id r).header k ≡ (
        if equal user_id_header k || equal impersonate_group_header k
        then values_unless_set r.header k
        else Header.all_values r.header k)
unfolding remove_user_id
remove_user_id_lem r k =
    let h = del_if_set r.header user_id_header in
    all_values-del_if_set h impersonate_group_header k
    ∙ elim (Bool-cases (equal impersonate_group_header k)) [
      | inl same ↦
          let one = (equal_iff impersonate_group_header k).0 same in
          rw (sym one, equal_refl impersonate_group_header, user_id_is_not_group)
            (values_unless_set_other r.header user_id_header impersonate_group_header
              user_id_is_not_group)
      | inr other ↦
          rw (other, all_values-del_if_set r.header user_id_header k)
            (elim (Bool-cases (equal user_id_header k)) [
              | inl same ↦ rw (same, (equal_iff user_id_header k).0 same) refl
              | inr fresh ↦ rw fresh refl
            ])
    ]

-- The last of the parts of a text that one byte separates: it has none, and what stands before it
-- is nothing, or ends with one.
pub record IsLastPart (sep : ℕ) (s t : Str) : Type 0 where
  pub before : Str
  pub splits : s ≡ before ++ t
  pub lacks : Lacks sep t
  pub border : (before ≡ []) ⊎ ((b : Str) × (before ≡ b ++ sep ∷ []))

-- What the loop of `strings.Split` has found: one part, or more with the last of them.
record HasMore (sep : ℕ) (s : Str) (parts : List Str) : Type 0 where
  first : Str
  second : Str
  more : List Str
  before : Str
  last : Str
  is : parts ≡ first ∷ second ∷ more
  splits : s ≡ before ++ sep ∷ last
  lacks : Lacks sep last
  found : at_last (second ∷ more) ≡ ok last

abbrev Parts : ℕ → Str → List Str → Type 0
Parts sep s parts = (parts ≡ s ∷ []) × Lacks sep s ⊎ HasMore sep s parts

split-at :
    (sep c : ℕ) (s : Str) (parts : List Str)
    → c ≡ sep
    → Parts sep s parts
    → Parts sep (c ∷ s) ([] ∷ parts)
split-at sep c s parts e (inl (one, lacks)) = inr (record {
  first = [];
  second = s;
  more = [];
  before = [];
  last = s;
  is = ap (◌∷◌ []) one;
  splits = ap (λ d. d ∷ s) e;
  lacks = lacks;
  found = refl;
})
split-at sep c s parts e (inr m) = inr (record {
  first = [];
  second = m.first;
  more = m.second ∷ m.more;
  before = c ∷ m.before;
  last = m.last;
  is = ap (◌∷◌ []) m.is;
  splits = ap (◌∷◌ c) m.splits;
  lacks = m.lacks;
  found = m.found;
})

split-inside :
    (sep c : ℕ) (s : Str) (parts : List Str)
    → c ≢ sep
    → Parts sep s parts
    → Parts sep (c ∷ s) (cons_first c parts)
unfolding cons_first
split-inside sep c s parts n (inl (one, lacks)) = inl (ap (cons_first c) one, (n, lacks))
split-inside sep c s parts n (inr m) = inr (record {
  first = c ∷ m.first;
  second = m.second;
  more = m.more;
  before = c ∷ m.before;
  last = m.last;
  is = ap (cons_first c) m.is;
  splits = ap (◌∷◌ c) m.splits;
  lacks = m.lacks;
  found = m.found;
})

split-Parts : (sep : ℕ) (s : Str) → Parts sep s (split s sep)
unfolding split
split-Parts sep [] = inl (refl, tt)
split-Parts sep (c ∷ s) = elim (Bool-cases (c == sep)) [
  | inl here ↦ rw here (split-at sep c s (split s sep) ((==_iff c sep).0 here) (split-Parts sep s))
  | inr not_here ↦
      rw not_here (split-inside sep c s (split s sep) (ground arith) (split-Parts sep s))
]

IsLastPart-of_Parts :
    (sep : ℕ) (s : Str) (parts : List Str)
    → Parts sep s parts
    → (t : Str) × (at_last parts ≡ ok t) × IsLastPart sep s t
IsLastPart-of_Parts sep s parts (inl (one, lacks)) =
    (s, ap at_last one, record { before = []; splits = refl; lacks = lacks; border = inl refl })
IsLastPart-of_Parts sep s parts (inr m) = (
  m.last,
  ap at_last m.is ∙ m.found,
  record {
    before = m.before ++ sep ∷ [];
    splits = m.splits ∙ sym (append_assoc m.before (sep ∷ []) m.last);
    lacks = m.lacks;
    border = inr (m.before, refl);
  },
)

-- The token of a request is the text behind the last space of its Authorization header,
-- whatever the scheme before it; the request has no token exactly if that text is empty.
pub get_token-IsLastPart :
    (r : Request)
    → (t : Str) × IsLastPart b' ' (Header.get r.header authorization) t
      × (get_token r ≡ (if equal t [] then err missing_auth else ok t))
unfolding get_token extract_token equal
get_token-IsLastPart r =
    let auth = Header.get r.header authorization in
    let (t, found, last) =
      IsLastPart-of_Parts b' ' auth (split auth b' ') (split-Parts b' ' auth) in
    (t, last, rw found (token_of t))
  where
    token_of : (t : Str) → non_empty (ok t) ≡ (if equal t [] then err missing_auth else ok t)
    token_of [] = refl
    token_of (c ∷ t) = refl
