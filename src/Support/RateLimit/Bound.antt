-- ===== src/Support/RateLimit/Bound.antt =====
-- How much the limits let through, whatever a client does.
use gall_pr.Common.{
  ℕ, ◌+◌, ◌-◌, ◌*◌, ◌≤◌, ◌<◌, refl, inl, inr, String, Bool, ◌&&◌, Option, none, some, List, [], ◌∷◌,
  leb, if◌then◌else◌, arith, str_eq, eq_iff, Bool-cases, All,
}
use gall_pr.Support.RateLimit.{
  Window, Rule, per_address, spend, consume, current, Limits, allow_message, release_socket, sweep,
}

-- What happens to the limits: a message, the end of a socket, and the timer.
pub data Event : Type 0 where
  message : (now : ℕ) (socket address : String) → Event
  closed : (socket : String) → Event
  swept : (now : ℕ) → Event

abbrev one_if : Bool → ℕ
one_if b = if b then 1 else 0

-- The messages that are allowed to an address over a series of events.
unfoldable pub allowed_to : String → List Event → Limits → ℕ
allowed_to address [] s = 0
allowed_to address (message now socket from ∷ es) s =
    one_if ((allow_message now socket from s).0 && str_eq address from)
    + allowed_to address es (allow_message now socket from s).1
allowed_to address (closed socket ∷ es) s = allowed_to address es (release_socket socket s)
allowed_to address (swept now ∷ es) s = allowed_to address es (sweep now s)

-- The event lies in the span of one window from the start.
abbrev pub Within : Rule → ℕ → Event → Type 0
Within rule start (message now socket address) = (start ≤ now) × (now < start + rule.window_ms)
Within rule start (closed socket) = Unit {0}
Within rule start (swept now) = now < start + rule.window_ms

-- How many messages a window still allows before the end of the span.
abbrev budget : Rule → ℕ → Option Window → ℕ
budget rule end none = rule.limit
budget rule end (some w) = rule.limit - w.count + (if leb end w.reset_at then 0 else rule.limit)

spend-budget :
    (rule : Rule) (start now : ℕ) (w : Option Window)
    → 1 ≤ rule.limit
    → start ≤ now
    → now < start + rule.window_ms
    → one_if (spend rule now w).0 + budget rule (start + rule.window_ms) (spend rule now w).1
      ≤ budget rule (start + rule.window_ms) w
unfolding spend
spend-budget rule start now none least from to = ground arith
spend-budget rule start now (some w) least from to = ground arith

current-budget :
    (rule : Rule) (end now : ℕ) (w : Option Window)
    → now < end
    → budget rule end (current now w) ≤ budget rule end w
unfolding current
current-budget rule end now none h = omega arith
current-budget rule end now (some w) h = ground arith

budget-le : (rule : Rule) (end : ℕ) (w : Option Window) → budget rule end w ≤ 2 * rule.limit
budget-le rule end none = omega arith
budget-le rule end (some w) = ground arith

-- A message of any address spends only the budget of that address.
allow_message-budget :
    (start now : ℕ) (socket from address : String) (s : Limits)
    → start ≤ now
    → now < start + per_address.window_ms
    → one_if ((allow_message now socket from s).0 && str_eq address from)
        + budget per_address
            (start + per_address.window_ms)
            ((allow_message now socket from s).1.addresses address)
      ≤ budget per_address (start + per_address.window_ms) (s.addresses address)
unfolding allow_message consume
allow_message-budget start now socket from address s lo hi =
    elim (Bool-cases (str_eq address from)) [
      | inl same ↦
          let spent = spend-budget per_address start now (s.addresses from) (omega arith) lo hi in
          let e = (eq_iff address from).0 same in
          rw (e, (eq_iff from from).1 refl) (ground (arith, spent))
      | inr other ↦ rw other (ground (arith, other))
    ]

allowed_to-budget :
    (start : ℕ) (address : String) (es : List Event) (s : Limits)
    → All (Within per_address start) es
    → allowed_to address es s
      ≤ budget per_address (start + per_address.window_ms) (s.addresses address)
unfolding allowed_to release_socket sweep
allowed_to-budget start address [] s h = omega arith
allowed_to-budget start address (message now socket from ∷ es) s ((lo, hi), h) =
    let rest = allowed_to-budget start address es (allow_message now socket from s).1 h in
    omega (arith, rest, allow_message-budget start now socket from address s lo hi)
allowed_to-budget start address (closed socket ∷ es) s (p, h) =
    allowed_to-budget start address es (release_socket socket s) h
allowed_to-budget start address (swept now ∷ es) s (p, h) =
    let rest = allowed_to-budget start address es (sweep now s) h in
    omega (
      arith,
      rest,
      current-budget per_address (start + per_address.window_ms) now (s.addresses address) p,
    )

-- Within the span of one window, an address gets at most two windows of messages through, whatever
-- sockets it opens and closes, whoever else writes and whenever the timer sweeps.
pub allowed_to-le :
    (start : ℕ) (address : String) (es : List Event) (s : Limits)
    → All (Within per_address start) es
    → allowed_to address es s ≤ 2 * per_address.limit
allowed_to-le start address es s h = omega (
  arith,
  allowed_to-budget start address es s h,
  budget-le per_address (start + per_address.window_ms) (s.addresses address),
)
