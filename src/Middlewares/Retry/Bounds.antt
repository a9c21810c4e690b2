-- ===== src/Middlewares/Retry/Bounds.antt =====
-- middlewares/retry.go: the loop ends, and makes no more attempts than it may.
use fabric8_oso_proxy.Base.{
  ℕ, zero, suc, ◌+◌, ◌≤◌, ◌<◌, Bool, true, false, some, List, [], ◌∷◌, ◌++◌, ◌≡◌, ◌⊎◌, inl, inr,
  refl, ap, ◌∙◌, arith, leb, if◌then◌else◌, length, Bool-cases,
}
use fabric8_oso_proxy.Middlewares.Retry.{
  Call, Effect, should_retry, error_after, attempt, Served, prepend, serve_from, serve,
}

-- The numbers behind `n`.
abbrev pub numbers_from : ℕ → ℕ → List ℕ
numbers_from n zero = []
numbers_from n (suc k) = suc n ∷ numbers_from (suc n) k

-- Whether the calls record an error does not depend on the number of the attempt.
pub attempt_error :
    (exhausted other net_error : Bool) (cs : List Call)
    → (attempt exhausted net_error cs).0 ≡ (attempt other net_error cs).0
unfolding attempt
attempt_error exhausted other net_error [] = refl
attempt_error exhausted other net_error (c ∷ cs) =
    attempt_error exhausted other (error_after net_error c) cs

pub lt_of_leb : (a b : ℕ) → leb a b ≡ false → b < a
lt_of_leb a b h = ground arith

le_of_leb : (a b : ℕ) → leb a b ≡ true → a ≤ b
le_of_leb a b h = ground arith

pub retries : (e x : Bool) → should_retry e x ≡ true → x ≡ false
retries e x h = ground arith

pub stops : (e x : Bool) → should_retry e x ≡ false → (e ≡ false) ⊎ (x ≡ true)
stops true true h = inr refl
stops true false h = cc
stops false x h = inl refl

module _ {S : Type 0} (max_attempts : ℕ) (next : S → List Call × S) where
  -- The state of the next handler behind `k` attempts.
  abbrev pub after_attempts : ℕ → S → S
  after_attempts zero s = s
  after_attempts (suc k) s = after_attempts k (next s).1

  abbrev pub last_calls : ℕ → S → List Call
  last_calls k s = (next (after_attempts k s)).0

  abbrev pub records_error : List Call → Bool
  records_error calls = (attempt false false calls).0

  -- What is true of an exchange that ends, from the attempt with number `n` on.
  pub record IsServed (n : ℕ) (s : S) (r : Served S) : Type 0 where
    pub state : r.state ≡ after_attempts (suc (length r.retried)) s
    pub counted : r.retried ≡ numbers_from n (length r.retried)
    pub bounded : (length r.retried ≡ 0) ⊎ (n + length r.retried ≤ max_attempts)
    pub ended :
        (records_error (last_calls (length r.retried) s) ≡ false)
        ⊎ (max_attempts ≤ n + length r.retried)

  pub serve_from_step :
      (f n : ℕ) (s : S)
      → serve_from max_attempts next (suc f) n s ≡ (
          if should_retry (attempt (leb max_attempts n) false (next s).0).0 (leb max_attempts n)
          then prepend
              (attempt (leb max_attempts n) false (next s).0).1
              n
              (serve_from max_attempts next f (suc n) (next s).1)
          else some (record {
            state = (next s).1;
            effects = (attempt (leb max_attempts n) false (next s).0).1;
            retried = [];
          }))
  unfolding serve_from
  serve_from_step f n s = refl

  IsServed-stop :
      (n : ℕ) (s : S) (effects : List Effect)
      → (records_error (next s).0 ≡ false) ⊎ (max_attempts ≤ n)
      → IsServed n s (record { state = (next s).1; effects = effects; retried = [] })
  IsServed-stop n s effects (inl h) = record {
    state = refl;
    counted = refl;
    bounded = inl refl;
    ended = inl h;
  }
  IsServed-stop n s effects (inr h) = record {
    state = refl;
    counted = refl;
    bounded = inl refl;
    ended = inr (omega arith);
  }

  IsServed-again :
      (n : ℕ) (s : S) (effects : List Effect) (r : Served S)
      → n < max_attempts
      → IsServed (suc n) (next s).1 r
      → IsServed n s (record r { effects = effects; retried = suc n ∷ r.retried })
  IsServed-again n s effects r h i = record {
    state = i.state;
    counted = ap (◌∷◌ (suc n)) i.counted;
    bounded = bounded_of i.bounded;
    ended = ended_of i.ended;
  }
    where
      bounded_of :
          (length r.retried ≡ 0) ⊎ (suc n + length r.retried ≤ max_attempts)
          → (suc (length r.retried) ≡ 0) ⊎ (n + suc (length r.retried) ≤ max_attempts)
      bounded_of (inl k) = inr (omega arith)
      bounded_of (inr k) = inr (omega arith)

      ended_of :
          (records_error (last_calls (length r.retried) (next s).1) ≡ false)
            ⊎ (max_attempts ≤ suc n + length r.retried)
          → (records_error (last_calls (suc (length r.retried)) s) ≡ false)
            ⊎ (max_attempts ≤ n + suc (length r.retried))
      ended_of (inl k) = inl k
      ended_of (inr k) = inr (omega arith)

  ended_by :
      (n : ℕ) (s : S)
      → ((attempt (leb max_attempts n) false (next s).0).0 ≡ false) ⊎ (leb max_attempts n ≡ true)
      → (records_error (next s).0 ≡ false) ⊎ (max_attempts ≤ n)
  ended_by n s (inl h) = inl (attempt_error false (leb max_attempts n) false (next s).0 ∙ h)
  ended_by n s (inr h) = inr (le_of_leb max_attempts n h)

  serve_from_total :
      (f n : ℕ) (s : S)
      → max_attempts < n + f
      → 0 < f
      → (r : Served S) × (serve_from max_attempts next f n s ≡ some r) × IsServed n s r
  serve_from_total zero n s h k = absurd (omega arith)
  serve_from_total (suc f) n s h k =
      let first = attempt (leb max_attempts n) false (next s).0 in
      elim (Bool-cases (should_retry first.0 (leb max_attempts n))) [
        | inl again ↦
            let below = lt_of_leb max_attempts n (retries first.0 (leb max_attempts n) again) in
            let (r, e, i) = serve_from_total f (suc n) (next s).1 (omega arith) (omega arith) in
            (
              record r { effects = first.1 ++ r.effects; retried = suc n ∷ r.retried },
              serve_from_step f n s ∙ rw again (ap (prepend first.1 n) e),
              IsServed-again n s (first.1 ++ r.effects) r below i,
            )
        | inr stop ↦ (
          record { state = (next s).1; effects = first.1; retried = [] },
          serve_from_step f n s ∙ rw stop refl,
          IsServed-stop n s first.1 (ended_by n s (stops first.0 (leb max_attempts n) stop)),
        )
      ]

  -- The loop of the retries ends, with the number of attempts and one as its fuel. It tells the
  -- listener of the attempts 2, 3 and so on, makes no more attempts than are allowed but always
  -- one, and ends with an attempt that records no error or with the last one that is allowed.
  pub serve_total : (s : S) → (r : Served S) × (serve max_attempts next s ≡ some r) × IsServed 1 s r
  unfolding serve
  serve_total s = serve_from_total (suc max_attempts) 1 s (omega arith) (omega arith)
