-- ===== src/Middlewares/Retry/Shown.antt =====
-- middlewares/retry.go: what the client sees of the attempts.
use fabric8_oso_proxy.Base.{
  ℕ, zero, suc, Bool, true, false, Option, none, some, List, [], ◌∷◌, ◌++◌, ◌≡◌, ◌⊎◌, inl, inr,
  refl, sym, ap, ◌∙◌, leb, length, All, Bool-cases,
}
use fabric8_oso_proxy.Middlewares.Retry.{
  Call, record_error, set_header, write_header, write, flush, Effect, header_set, header_written,
  written, flushed, should_retry, effects_of_call, error_after, attempt, Served, prepend,
  serve_from, serve,
}
use mathlib.Core.Path.{subst}
use fabric8_oso_proxy.Middlewares.Retry.Bounds.{stops, last_calls, serve_from_step}

-- Everything that the calls would show.
abbrev pub shown : Call → List Effect
shown record_error = []
shown (set_header k v) = header_set k v ∷ []
shown (write_header c) = header_written c ∷ []
shown (write s) = written s ∷ []
shown flush = flushed ∷ []

abbrev pub all_shown : List Call → List Effect
all_shown [] = []
all_shown (c ∷ cs) = shown c ++ all_shown cs

abbrev pub is_error : Call → Bool
is_error record_error = true
is_error _ = false

abbrev pub is_flush : Call → Bool
is_flush flush = true
is_flush _ = false

-- An error is recorded first of all, and nothing is flushed behind it; or none is recorded.
abbrev pub IsEarly : List Call → Type 0
IsEarly cs =
    All (λ c. is_error c ≡ false) cs
    ⊎ ((rest : List Call) × (cs ≡ record_error ∷ rest) × All (λ c. is_flush c ≡ false) rest)

no_error :
    (exhausted : Bool) (cs : List Call)
    → All (λ c. is_error c ≡ false) cs
    → (attempt exhausted false cs).0 ≡ false
unfolding attempt
no_error exhausted [] h = refl
no_error exhausted (record_error ∷ cs) (h, _) = cc
no_error exhausted (set_header k v ∷ cs) (_, h) = no_error exhausted cs h
no_error exhausted (write_header c ∷ cs) (_, h) = no_error exhausted cs h
no_error exhausted (write s ∷ cs) (_, h) = no_error exhausted cs h
no_error exhausted (flush ∷ cs) (_, h) = no_error exhausted cs h

hidden : (cs : List Call) → All (λ c. is_flush c ≡ false) cs → (attempt false true cs).1 ≡ []
unfolding attempt
hidden [] h = refl
hidden (record_error ∷ cs) (_, h) = hidden cs h
hidden (set_header k v ∷ cs) (_, h) = hidden cs h
hidden (write_header c ∷ cs) (_, h) = hidden cs h
hidden (write s ∷ cs) (_, h) = hidden cs h
hidden (flush ∷ cs) (h, _) = cc

-- An attempt that is repeated shows nothing.
repeated_shows_nothing :
    (cs : List Call)
    → IsEarly cs
    → (attempt false false cs).0 ≡ true
    → (attempt false false cs).1 ≡ []
unfolding attempt
repeated_shows_nothing cs (inl h) e = let fine = no_error false cs h in cc
repeated_shows_nothing cs (inr (rest, same, quiet)) e = rw same (hidden rest quiet)

not_retried : (b : Bool) → should_retry b true ≡ false
not_retried true = refl
not_retried false = refl

effects_of_call-shown : (c : Call) → effects_of_call false c ≡ shown c
effects_of_call-shown record_error = refl
effects_of_call-shown _ = refl

exhausted_shows_all :
    (net_error : Bool) (cs : List Call) → (attempt true net_error cs).1 ≡ all_shown cs
unfolding attempt
exhausted_shows_all net_error [] = refl
exhausted_shows_all net_error (c ∷ cs) =
    rw (not_retried (error_after net_error c), effects_of_call-shown c)
      (ap (◌++◌ (shown c)) (exhausted_shows_all (error_after net_error c) cs))

error_stays : (exhausted : Bool) (cs : List Call) → (attempt exhausted true cs).0 ≡ true
unfolding attempt
error_stays exhausted [] = refl
error_stays exhausted (record_error ∷ cs) = error_stays exhausted cs
error_stays exhausted (set_header k v ∷ cs) = error_stays exhausted cs
error_stays exhausted (write_header c ∷ cs) = error_stays exhausted cs
error_stays exhausted (write s ∷ cs) = error_stays exhausted cs
error_stays exhausted (flush ∷ cs) = error_stays exhausted cs

fine_shows_all :
    (cs : List Call)
    → (attempt false false cs).0 ≡ false
    → (attempt false false cs).1 ≡ all_shown cs
unfolding attempt
fine_shows_all [] h = refl
fine_shows_all (record_error ∷ cs) h = let stays = error_stays false cs in cc
fine_shows_all (set_header k v ∷ cs) h = ap (◌∷◌ (header_set k v)) (fine_shows_all cs h)
fine_shows_all (write_header c ∷ cs) h = ap (◌∷◌ (header_written c)) (fine_shows_all cs h)
fine_shows_all (write s ∷ cs) h = ap (◌∷◌ (written s)) (fine_shows_all cs h)
fine_shows_all (flush ∷ cs) h = ap (◌∷◌ flushed) (fine_shows_all cs h)

last_shows_all :
    (exhausted : Bool) (cs : List Call)
    → should_retry (attempt exhausted false cs).0 exhausted ≡ false
    → (attempt exhausted false cs).1 ≡ all_shown cs
last_shows_all true cs h = exhausted_shows_all false cs
last_shows_all false cs h = elim (stops (attempt false false cs).0 false h) [
  | inl fine ↦ fine_shows_all cs fine
  | inr never ↦ cc
]

-- An attempt is repeated only where it is not the last one that may be made.
retried_shows_nothing :
    (exhausted : Bool) (cs : List Call)
    → IsEarly cs
    → should_retry (attempt exhausted false cs).0 exhausted ≡ true
    → (attempt exhausted false cs).1 ≡ []
retried_shows_nothing true cs early h = let never = not_retried (attempt true false cs).0 in cc
retried_shows_nothing false cs early h = elim (Bool-cases (attempt false false cs).0) [
  | inl failed ↦ repeated_shows_nothing cs early failed
  | inr fine ↦ let none_due = ap (λ b. should_retry b false) fine in cc
]

prepend-eq-some :
    {S : Type 0} (effects : List Effect) (n : ℕ) (o : Option (Served S)) {r : Served S}
    → prepend effects n o ≡ some r
    → (q : Served S) × (o ≡ some q)
      × (record q { effects = effects ++ q.effects; retried = suc n ∷ q.retried } ≡ r)
prepend-eq-some effects n none h = cc
prepend-eq-some effects n (some q) h = (q, refl, cc)

some_injective : {A : Type 0} {a b : A} → some a ≡ some b → a ≡ b
some_injective e = cc

module _ {S : Type 0} (max_attempts : ℕ) (next : S → List Call × S) where
  abbrev ShowsLast : S → Served S → Type 0
  ShowsLast s r = r.effects ≡ all_shown (last_calls max_attempts next (length r.retried) s)

  serve_from-zero : (n : ℕ) (s : S) → serve_from max_attempts next zero n s ≡ none
  unfolding serve_from
  serve_from-zero n s = refl

  serve_from_shows :
      (f n : ℕ) (s : S) (r : Served S)
      → ((t : S) → IsEarly (next t).0)
      → serve_from max_attempts next f n s ≡ some r
      → ShowsLast s r
  serve_from_shows zero n s r early h = let out = serve_from-zero n s in cc
  serve_from_shows (suc f) n s r early h =
      let exhausted = leb max_attempts n in
      let first = attempt exhausted false (next s).0 in
      let h' = sym (serve_from_step max_attempts next f n s) ∙ h in
      elim (Bool-cases (should_retry first.0 exhausted)) [
        | inl again ↦
            let (q, e, same) = prepend-eq-some first.1 n _ (rw again at h') in
            subst (ShowsLast s) same (
              ap (λ x. x ++ q.effects) (retried_shows_nothing exhausted (next s).0 (early s) again)
              ∙ serve_from_shows f (suc n) (next s).1 q early e)
        | inr stop ↦
            let shown_all = last_shows_all exhausted (next s).0 stop in
            let ended : some (record { state = (next s).1; effects = first.1; retried = [] })
                ≡ some r =
              rw stop at h' in
            subst (ShowsLast s) (some_injective ended) shown_all
      ]

  -- If in every attempt the next handler records a network error before all its other calls or
  -- not at all, and does not flush once it has recorded one, then the client sees the calls of
  -- the last attempt, all of them and in their order, and nothing of the others.
  pub serve_shows_last :
      (s : S) (r : Served S)
      → ((t : S) → IsEarly (next t).0)
      → serve max_attempts next s ≡ some r
      → r.effects ≡ all_shown (last_calls max_attempts next (length r.retried) s)
  unfolding serve
  serve_shows_last s r early h = serve_from_shows (suc max_attempts) 1 s r early h
