-- ===== src/Base/Fields.antt =====
-- `strings.FieldsFunc` at separators that are ASCII characters, and `strings.Join`. No byte of a
-- longer character is one of ASCII, so the bytes are read one by one.
use Prim.Native.Nat.{ℕ}
use mathlib.Core.Bool.{Bool, true, false}
use mathlib.Core.List.{List, [], ◌∷◌, ◌++◌, append-nil}
use mathlib.Core.Logic.{◌≢◌}
use mathlib.Core.Path.{◌≡◌, refl, sym, ap, ◌∙◌}
use fabric8_oso_proxy.Base.Lists.{All}
use fabric8_oso_proxy.Base.Strings.{Str, codes}
use fabric8_oso_proxy.Base.Tests.{◌==◌, if◌then◌else◌}

-- What a field and the text that ends it make: an empty one is dropped.
abbrev pub cons_field : Str → List Str → List Str
cons_field [] fs = fs
cons_field (c ∷ f) fs = (c ∷ f) ∷ fs

-- The rest of the field that is open, and the fields behind it.
unfoldable pub fields_rest : (ℕ → Bool) → Str → Str × List Str
fields_rest sep [] = ([], [])
fields_rest sep (c ∷ s) =
    let (f, fs) = fields_rest sep s in if sep c then ([], cons_field f fs) else (c ∷ f, fs)

unfoldable pub fields_func : (ℕ → Bool) → Str → List Str
fields_func sep s = let (f, fs) = fields_rest sep s in cons_field f fs

unfoldable pub join : List Str → Str → Str
join [] sep = []
join (s ∷ []) sep = s
join (s ∷ t ∷ ss) sep = s ++ (sep ++ join (t ∷ ss) sep)

-- No byte is a separator.
abbrev pub IsField : (ℕ → Bool) → Str → Type 0
IsField sep s = All (λ c. sep c ≡ false) s

fields_rest_field :
    (sep : ℕ → Bool) (s t : Str)
    → IsField sep s
    → fields_rest sep (s ++ t) ≡ (s ++ (fields_rest sep t).0, (fields_rest sep t).1)
unfolding fields_rest
fields_rest_field sep [] t h = refl
fields_rest_field sep (c ∷ s) t (i, h) = rw (i, fields_rest_field sep s t h) refl

-- The fields in front of a separator and behind it.
fields_rest_cut :
    (sep : ℕ → Bool) (s t : Str) (c : ℕ)
    → sep c ≡ true
    → IsField sep s
    → fields_rest sep (s ++ c ∷ t) ≡ (s, fields_func sep t)
unfolding fields_rest fields_func
fields_rest_cut sep s t c e h =
    fields_rest_field sep s (c ∷ t) h
    ∙ rw e (ap (λ x. (x, cons_field (fields_rest sep t).0 (fields_rest sep t).1)) (append-nil s))

-- A field, with a byte at least.
abbrev pub IsFilled : (ℕ → Bool) → Str → Type 0
IsFilled sep s = IsField sep s × (s ≢ [])

cons_field_filled : (s : Str) (fs : List Str) → s ≢ [] → cons_field s fs ≡ s ∷ fs
cons_field_filled [] fs h = absurd (h refl)
cons_field_filled (c ∷ s) fs h = refl

pub fields_func-field : (sep : ℕ → Bool) (s : Str) → IsFilled sep s → fields_func sep s ≡ s ∷ []
unfolding fields_func fields_rest
fields_func-field sep s (h, n) =
    let e = ap (fields_rest sep) (sym (append-nil s)) ∙ fields_rest_field sep s [] h in
    let e' : fields_rest sep s ≡ (s, []) = e ∙ ap (λ x. (x, [])) (append-nil s) in
    rw e' (cons_field_filled s [] n)

pub fields_func-append :
    (sep : ℕ → Bool) (s t : Str) (c : ℕ)
    → sep c ≡ true
    → IsFilled sep s
    → fields_func sep (s ++ c ∷ t) ≡ s ∷ fields_func sep t
unfolding fields_func
fields_func-append sep s t c e (h, n) =
    rw (fields_rest_cut sep s t c e h) (cons_field_filled s (fields_func sep t) n)

-- Fields joined by a separator are found again.
pub fields_func-join :
    (sep : ℕ → Bool) (c : ℕ) (s : Str) (ss : List Str)
    → sep c ≡ true
    → All (IsFilled sep) (s ∷ ss)
    → fields_func sep (join (s ∷ ss) (c ∷ [])) ≡ s ∷ ss
unfolding join
fields_func-join sep c s [] e (h, _) = fields_func-field sep s h
fields_func-join sep c s (t ∷ ss) e (h, hs) =
    fields_func-append sep s (join (t ∷ ss) (c ∷ [])) c e h
    ∙ ap (◌∷◌ s) (fields_func-join sep c t ss e hs)

fields_func_example : fields_func (λ c. c == b',') (codes ",a,,b") ≡ codes "a" ∷ codes "b" ∷ []
unfolding fields_func fields_rest
fields_func_example = refl
