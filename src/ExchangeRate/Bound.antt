-- ===== src/ExchangeRate/Bound.antt =====
-- How often the bank is asked, and what the shop reckons with meanwhile.
use gall_pr.Common.{
  ℕ, suc, ◌+◌, ◌-◌, ◌*◌, ◌≤◌, ◌≡◌, refl, inl, inr, false, Option, none, some, List, [], ◌∷◌,
  if◌then◌else◌, arith, All, Bool-cases, Result, ok, err,
}
use gall_pr.ExchangeRate.{
  retry_backoff_ms, Number, is_positive, Rates, keeps, refreshed, get_usd_to_uah_rate,
}

-- One request for the rate, with what the bank would answer and when.
pub record Call : Type 0 where
  pub now : ℕ
  pub later : ℕ
  pub reply : Result (Option Number)

-- How often the bank is asked over a series of requests, and the fields after it.
unfoldable pub serve : List Call → Rates → ℕ × Rates
serve [] s = (0, s)
serve (c ∷ cs) s =
    let (asked, s') = get_usd_to_uah_rate c.now c.later c.reply s in
    let (times, last) = serve cs s' in ((if asked then suc times else times), last)

-- A rate that the shop can reckon with: above nought.
abbrev pub IsAboveZero : Number → Type 0
IsAboveZero n = (n.negative ≡ false) × (1 ≤ n.size.digits)

refreshed-IsAboveZero :
    (later : ℕ) (reply : Result (Option Number)) (s : Rates)
    → IsAboveZero s.last_known_rate
    → IsAboveZero (refreshed later reply s).last_known_rate
unfolding refreshed
refreshed-IsAboveZero later (err e) s h = h
refreshed-IsAboveZero later (ok none) s h = h
refreshed-IsAboveZero later (ok (some rate)) s h = elim (Bool-cases (is_positive rate)) [
  | inl good ↦ rw (refreshed, good) (ground (arith, good), ground (arith, good))
  | inr bad ↦ rw (refreshed, bad) h
]

refreshed-last_attempt_at :
    (later : ℕ) (reply : Result (Option Number)) (s : Rates)
    → (refreshed later reply s).last_attempt_at ≡ s.last_attempt_at
unfolding refreshed
refreshed-last_attempt_at later (err e) s = refl
refreshed-last_attempt_at later (ok none) s = refl
refreshed-last_attempt_at later (ok (some rate)) s = elim (Bool-cases (is_positive rate)) [
  | inl good ↦ rw (refreshed, good) refl
  | inr bad ↦ rw (refreshed, bad) refl
]

keeps-late :
    (now : ℕ) (s : Rates) → keeps now s ≡ false → s.last_attempt_at + retry_backoff_ms ≤ now
unfolding keeps
keeps-late now s h = ground (arith, h)

-- Over any series of requests for the rate up to a time, the bank is asked at most once for every
-- five minutes since the last attempt before it, and the rate that is answered stays above nought,
-- whatever the bank answers, if it was above nought at the start.
pub serve-le :
    (end : ℕ) (cs : List Call) (s : Rates)
    → All (λ (c : Call). c.now ≤ end) cs
    → IsAboveZero s.last_known_rate
    → ((serve cs s).0 * 300000 ≤ end - s.last_attempt_at)
      × IsAboveZero ((serve cs s).1).last_known_rate
unfolding serve get_usd_to_uah_rate
serve-le end [] s h good = (omega arith, good)
serve-le end (c ∷ cs) s (p, h) good = elim (Bool-cases (keeps c.now s)) [
  | inl kept ↦ rw (serve, get_usd_to_uah_rate, kept) (serve-le end cs s h good)
  | inr stale ↦
      let s' = refreshed c.later c.reply (record s { last_attempt_at = c.now }) in
      let rest =
        serve-le end cs s' h
          (refreshed-IsAboveZero c.later c.reply (record s { last_attempt_at = c.now }) good) in
      let at : s'.last_attempt_at ≡ c.now =
        refreshed-last_attempt_at c.later c.reply (record s { last_attempt_at = c.now }) in
      rw (serve, get_usd_to_uah_rate, stale)
        (omega (arith, rest.0, at, p, keeps-late c.now s stale), rest.1)
]
