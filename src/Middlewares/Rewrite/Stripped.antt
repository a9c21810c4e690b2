-- ===== src/Middlewares/Rewrite/Stripped.antt =====
-- middlewares/stripPrefix.go: which prefix is stripped, and what adding a prefix undoes.
use fabric8_oso_proxy.Base.{
  ◌≤◌, true, false, not, List, [], ◌∷◌, ◌++◌, ◌≡◌, ◌≢◌, ◌⊎◌, inl, inr, refl, sym, ap, ◌∙◌, arith,
  if◌then◌else◌, length, take, All, Bool-cases, take-append,
}
use fabric8_oso_proxy.Base.Strings.{
  Str, codes, equal, equal_ne, has_prefix, has_prefix_split, has_prefix-append, trim_prefix-append,
}
use fabric8_oso_proxy.Base.Trim.{trim_space}
use fabric8_oso_proxy.Net.Request.{Request}
use fabric8_oso_proxy.Net.Url.{Url}
use fabric8_oso_proxy.Middlewares.Rewrite.{
  Handler, Replies, forwarded_prefix_header, with_uri, with_added, ensure_leading_slash,
  strip_prefix, stripped_request, prefixed_request, serve_strip_prefix, serve_add_prefix,
}

-- A text that starts with a slash.
abbrev pub IsRooted : Str → Type 0
IsRooted s = (t : Str) × (s ≡ b'/' ∷ t)

ensure_leading_slash_rooted : (s : Str) → IsRooted s → ensure_leading_slash s ≡ s
unfolding ensure_leading_slash
ensure_leading_slash_rooted s (t, e) = rw e (ap (◌∷◌ b'/') (trim_prefix-append (codes "/") t))

strip_prefix-append : (p s : Str) → IsRooted s → strip_prefix (p ++ s) p ≡ s
unfolding strip_prefix
strip_prefix-append p s h = rw (trim_prefix-append p s) (ensure_leading_slash_rooted s h)

-- A raw path is left out, or starts with a slash.
abbrev pub IsRootedUrl : Url → Type 0
IsRootedUrl u = IsRooted u.path × ((u.raw_path ≡ []) ⊎ IsRooted u.raw_path)

append-ne-nil : (p t : Str) → p ++ b'/' ∷ t ≢ []
append-ne-nil [] t e = cc
append-ne-nil (c ∷ p) t e = cc

raw_path-strip-add :
    (p raw : Str)
    → (raw ≡ []) ⊎ IsRooted raw
    → (let added = (if not (equal raw []) then p ++ raw else raw) in
        if not (equal added []) then strip_prefix added p else added)
      ≡ raw
unfolding equal
raw_path-strip-add p raw (inl e) = rw e refl
raw_path-strip-add p raw (inr (t, e)) = rw e (
    rw (equal_ne (p ++ b'/' ∷ t) [] (append-ne-nil p t))
      (strip_prefix-append p (b'/' ∷ t) (t, refl)))

-- Stripping a prefix behind adding it gives the next handler the client's request, with the
-- prefix in its X-Forwarded-Prefix header and its URI written anew, where the path starts with
-- a slash, and so does the raw path unless it is empty.
pub serve_add_prefix-serve_strip_prefix :
    {R : Type 0} (replies : Replies R) (p : Str) (ps : List Str) (next : Handler R) (r : Request)
    → IsRootedUrl r.url
    → serve_add_prefix p (serve_strip_prefix replies (p ∷ ps) next) r
      ≡ next (with_uri (with_added r forwarded_prefix_header (trim_space p)))
unfolding serve_add_prefix serve_strip_prefix prefixed_request stripped_request
serve_add_prefix-serve_strip_prefix replies p ps next r (rooted, raw) =
    rw (has_prefix-append p r.url.path) (
      ap
        (λ (u : Url).
          next
            (with_uri (with_added (record r { url = u }) forwarded_prefix_header (trim_space p))))
        (λ j. record r.url {
          path = strip_prefix-append p r.url.path rooted j;
          raw_path = raw_path-strip-add p r.url.raw_path raw j;
        }))

-- One of the texts of a list.
abbrev pub Has : Str → List Str → Type 0
Has p [] = ⊥
Has p (q ∷ qs) = (p ≡ q) ⊎ Has p qs

-- No text is longer than one before it, as `bySize` sorts them.
abbrev pub IsBySize : List Str → Type 0
IsBySize [] = Unit
IsBySize (p ∷ ps) = All (λ q. length q ≤ length p) ps × IsBySize ps

-- A longest prefix of a path among the texts of a list.
pub record IsLongest (path : Str) (ps : List Str) (p : Str) : Type 0 where
  pub listed : Has p ps
  pub fits : has_prefix path p ≡ true
  pub longest : (q : Str) → Has q ps → has_prefix path q ≡ true → length q ≤ length p

le_of_Has :
    (p q : Str) (ps : List Str) → All (λ r. length r ≤ length p) ps → Has q ps → length q ≤ length p
le_of_Has p q [] h m = absurd m
le_of_Has p q (r ∷ ps) (h, _) (inl e) = rw e h
le_of_Has p q (r ∷ ps) (_, h) (inr m) = le_of_Has p q ps h m

IsLongest-here :
    (path : Str) (p : Str) (ps : List Str)
    → IsBySize (p ∷ ps)
    → has_prefix path p ≡ true
    → IsLongest path (p ∷ ps) p
IsLongest-here path p ps (h, _) e = record { listed = inl refl; fits = e; longest = longest_of }
  where
    longest_of : (q : Str) → Has q (p ∷ ps) → has_prefix path q ≡ true → length q ≤ length p
    longest_of q (inl same) _ = rw same (omega arith)
    longest_of q (inr m) _ = le_of_Has p q ps h m

IsLongest-later :
    (path : Str) (q p : Str) (ps : List Str)
    → has_prefix path q ≡ false
    → IsLongest path ps p
    → IsLongest path (q ∷ ps) p
IsLongest-later path q p ps e l = record {
  listed = inr l.listed;
  fits = l.fits;
  longest = longest_of;
}
  where
    longest_of : (r : Str) → Has r (q ∷ ps) → has_prefix path r ≡ true → length r ≤ length p
    longest_of r (inl same) k = cc
    longest_of r (inr m) k = l.longest r m k

-- What the handler does: nothing fits, or the longest prefix that does is stripped.
abbrev pub StripsLongest : {R : Type 0} → Replies R → List Str → Handler R → Request → Type 0
StripsLongest replies ps next r =
    (((p : Str) → Has p ps → has_prefix r.url.path p ≡ false)
      × (serve_strip_prefix replies ps next r ≡ replies.not_found))
    ⊎ ((p : Str) × IsLongest r.url.path ps p
        × (serve_strip_prefix replies ps next r ≡ next (stripped_request p r)))

strips_later :
    {R : Type 0} (replies : Replies R) (q : Str) (ps : List Str) (next : Handler R) (r : Request)
    → has_prefix r.url.path q ≡ false
    → StripsLongest replies ps next r
    → StripsLongest replies (q ∷ ps) next r
unfolding serve_strip_prefix
strips_later replies q ps next r e (inl (none_fits, not_served)) = inl (absent, rw e not_served)
  where
    absent : (p : Str) → Has p (q ∷ ps) → has_prefix r.url.path p ≡ false
    absent p (inl same) = rw same e
    absent p (inr m) = none_fits p m
strips_later replies q ps next r e (inr (p, l, served)) =
    inr (p, IsLongest-later r.url.path q p ps e l, rw e served)

-- With prefixes of which none is longer than one before it, the middleware strips a longest
-- prefix of the request's path among them, or answers that there is no page if none of them is
-- a prefix of the path.
pub serve_strip_prefix-IsLongest :
    {R : Type 0} (replies : Replies R) (ps : List Str) (next : Handler R) (r : Request)
    → IsBySize ps
    → StripsLongest replies ps next r
unfolding serve_strip_prefix
serve_strip_prefix-IsLongest replies [] next r h = inl (λ p m. absurd m, refl)
serve_strip_prefix-IsLongest replies (q ∷ ps) next r h =
    elim (Bool-cases (has_prefix r.url.path q)) [
      | inl fits ↦ inr (q, IsLongest-here r.url.path q ps h fits, rw fits refl)
      | inr other ↦
          strips_later replies q ps next r other
            (serve_strip_prefix-IsLongest replies ps next r h.1)
    ]

-- Two prefixes of a text that are as long are the same.
prefixes_eq :
    (s p q : Str) → has_prefix s p ≡ true → has_prefix s q ≡ true → length p ≡ length q → p ≡ q
prefixes_eq s p q h k e =
    let (a, f) = has_prefix_split s p h in
    let (b, g) = has_prefix_split s q k in
    sym (take-append p a)
    ∙ ap (take (length p)) (sym f ∙ g)
    ∙ ap (λ n. take n (q ++ b)) e
    ∙ take-append q b

longest_unique :
    (path : Str) (ps qs : List Str) (p q : Str)
    → ((r : Str) → Has r ps → Has r qs)
    → ((r : Str) → Has r qs → Has r ps)
    → IsLongest path ps p
    → IsLongest path qs q
    → p ≡ q
longest_unique path ps qs p q to from l m =
    let below = m.longest p (to p l.listed) l.fits in
    let above = l.longest q (from q m.listed) m.fits in
    prefixes_eq path p q l.fits m.fits (omega arith)

-- Two lists of the same prefixes, each with none longer than one before it, give the same
-- answers: the order in which the sort leaves prefixes of one length does not matter.
pub serve_strip_prefix_sorted :
    {R : Type 0} (replies : Replies R) (ps qs : List Str) (next : Handler R) (r : Request)
    → ((p : Str) → Has p ps → Has p qs)
    → ((p : Str) → Has p qs → Has p ps)
    → IsBySize ps
    → IsBySize qs
    → serve_strip_prefix replies ps next r ≡ serve_strip_prefix replies qs next r
serve_strip_prefix_sorted replies ps qs next r to from h k =
    agree (serve_strip_prefix-IsLongest replies ps next r h)
      (serve_strip_prefix-IsLongest replies qs next r k)
  where
    agree :
        StripsLongest replies ps next r
        → StripsLongest replies qs next r
        → serve_strip_prefix replies ps next r ≡ serve_strip_prefix replies qs next r
    agree (inl (_, a)) (inl (_, b)) = a ∙ sym b
    agree (inl (absent, _)) (inr (p, l, _)) =
        let no_fit = absent p (from p l.listed) in let fit = l.fits in cc
    agree (inr (p, l, _)) (inl (absent, _)) =
        let no_fit = absent p (to p l.listed) in let fit = l.fits in cc
    agree (inr (p, l, a)) (inr (q, m, b)) =
        a
        ∙ ap (λ x. next (stripped_request x r)) (longest_unique r.url.path ps qs p q to from l m)
        ∙ sym b
