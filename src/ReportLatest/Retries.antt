-- ===== src/ReportLatest/Retries.antt =====
-- The tries of `report_latest` in medusa/report_latest.py.
use cassandra_medusa.Base.{
  ℕ, zero, suc, ◌<◌, Bool, true, false, List, [], ◌++◌, ◌≡◌, ◌⊎◌, inl, inr, refl, arith, Bool-cases,
  Result-cases, append-nil, append_assoc, sym, ap, ◌∙◌,
}
use cassandra_medusa.Base.{Exception, Result, ok, err, is_caught}
use cassandra_medusa.Effects.{Run}
use cassandra_medusa.ReportLatest.{
  Metric, tracking_error, retried, after_try, report_tries, report_latest,
}

-- A try that ends the loop: it returns, or its exception is not caught.
abbrev pub IsEnd : Result (Unit {0}) → Type 0
IsEnd (ok u) = Unit
IsEnd (err e) = is_caught e ≡ false

module _ (push : Bool) (attempt : ℕ → Run Metric (Unit {0})) where
  -- The metrics of `n` tries from the try `i` on.
  abbrev pub sent : ℕ → ℕ → List Metric
  sent zero i = []
  sent (suc n) i = (attempt i).0 ++ sent n (suc i)

  abbrev pub HasFailed : ℕ → Type 0
  HasFailed i = (e : Exception) × ((attempt i).1 ≡ err e) × (is_caught e ≡ true)

  -- Of the tries from `i` on, `n` fail and the next one ends the loop with `r`, or all `n` fail.
  abbrev pub FirstEnd : Result (Unit {0}) → ℕ → ℕ → Type 0
  FirstEnd r zero i = ((attempt i).1 ≡ r) × IsEnd r
  FirstEnd r (suc n) i = HasFailed i × FirstEnd r n (suc i)

  abbrev pub AllFail : ℕ → ℕ → Type 0
  AllFail zero i = Unit
  AllFail (suc n) i = HasFailed i × AllFail n (suc i)

  one_end :
      (out : Run Metric (Unit {0})) (left : ℕ) (rest : List Metric × ℕ × Result (Unit {0}))
      (r : Result (Unit {0}))
      → out.1 ≡ r
      → IsEnd r
      → after_try push out left rest ≡ (out.0 ++ [], 0, r)
  unfolding after_try
  one_end (ms, ok u) left rest (ok v) h k = ap (λ l. (l, 0, ok tt)) (sym (append-nil ms))
  one_end (ms, ok u) left rest (err e) h k = absurd (ground arith)
  one_end (ms, err e) left rest (ok v) h k = absurd (ground arith)
  one_end (ms, err x) left rest (err e) h k =
      let c : is_caught x ≡ false = ground arith in rw (c, append-nil ms) (ap (λ y. (ms, 0, y)) h)

  one_failure :
      (out : Run Metric (Unit {0})) (left : ℕ) (rest : List Metric × ℕ × Result (Unit {0}))
      (e : Exception)
      → out.1 ≡ err e
      → is_caught e ≡ true
      → after_try push out left rest ≡ retried push out.0 left rest
  unfolding after_try
  one_failure (ms, ok u) left rest e h k = absurd (ground arith)
  one_failure (ms, err x) left rest e h k = let c : is_caught x ≡ true = ground arith in rw c refl

  tries-end :
      (left n i : ℕ) (r : Result (Unit {0}))
      → n < left
      → FirstEnd r n i
      → report_tries push left attempt i ≡ (sent (suc n) i, n, r)
  unfolding report_tries
  tries-end zero n i r h f = absurd (omega (arith, h))
  tries-end (suc left) zero i r h (f, k) = one_end (attempt i) left _ r f k
  tries-end (suc zero) (suc n) i r h f = absurd (omega (arith, h))
  tries-end (suc (suc left)) (suc n) i r h ((e, x, k), f) =
      one_failure (attempt i) (suc left) (report_tries push (suc left) attempt (suc i)) e x k
      ∙ rw (tries-end (suc left) n (suc i) r (omega (arith, h)) f) refl

  tries-give_up :
      (left i : ℕ)
      → AllFail (suc left) i
      → report_tries push (suc left) attempt i
        ≡ (sent (suc left) i ++ (tracking_error push).0, left, ok tt)
  unfolding report_tries
  tries-give_up zero i ((e, x, k), u) =
      one_failure (attempt i) 0 _ e x k ∙ rw (append-nil (attempt i).0) refl
  tries-give_up (suc left) i ((e, x, k), f) =
      one_failure (attempt i) (suc left) (report_tries push (suc left) attempt (suc i)) e x k
      ∙ rw (tries-give_up left (suc i) f) (
          ap (λ l. (l, suc left, ok tt))
            (sym (append_assoc (attempt i).0 (sent (suc left) (suc i)) (tracking_error push).0)))

  first_or_none :
      (left i : ℕ)
      → ((n : ℕ) × (r : Result (Unit {0})) × (n < left) × FirstEnd r n i) ⊎ AllFail left i
  first_or_none zero i = inr tt
  first_or_none (suc left) i = elim (Result-cases (attempt i).1) [
    | inl (u, e) ↦ inl (0, ok u, omega arith, (e, tt))
    | inr (x, e) ↦ elim (Bool-cases (is_caught x)) [
      | inl b ↦ elim (first_or_none left (suc i)) [
        | inl (n, r, h, f) ↦ inl (suc n, r, omega (arith, h), ((x, e, b), f))
        | inr f ↦ inr ((x, e, b), f)
      ]
      | inr b ↦ inl (0, err x, omega arith, (e, b))
    ]
  ]

  -- Either one of the first three tries ends the loop, after tries that all fail with an exception
  -- that is caught: it returns, or raises one that is not caught, and `report_latest` does the
  -- same. Then the metrics are those of the tries up to that one, with as many pauses as tries
  -- before it. Or all three fail: then there are two pauses, the flag for broken monitoring, if
  -- metrics are pushed, comes after their metrics, and `report_latest` returns.
  pub report_latest-outcome :
      ((n : ℕ) × (r : Result (Unit {0})) × (n < 3)
        × FirstEnd r n 0
        × (report_latest push attempt ≡ (sent (suc n) 0, n, r)))
      ⊎ (AllFail 3 0
          × (report_latest push attempt ≡ (sent 3 0 ++ (tracking_error push).0, 2, ok tt)))
  unfolding report_latest
  report_latest-outcome = elim (first_or_none 3 0) [
    | inl (n, r, h, f) ↦ inl (n, r, h, f, tries-end 3 n 0 r h f)
    | inr f ↦ inr (f, tries-give_up 2 0 f)
  ]
