-- ===== src/Detection/Breaker.antt =====
-- internal/detection/breaker.go: the circuit breaker of the port scanner.
-- The methods hold the breaker's mutex throughout, so each is one function on the state. The ratio
-- `timeouts / filled` is kept as a fraction; its comparisons with 0.5 and 0.25 are cross-multiplied.
pub mod Bounds
pub mod Window
use surfbot_agent.Base.{
  ℕ, ◌+◌, ◌*◌, ◌/◌, ◌%◌, Bool, false, ◌&&◌, List, [], ◌∷◌, ltb, ◌==◌, if◌then◌else◌, set, take,
  replicate, count_if,
}
use surfbot_agent.Base.Int.{ℤ, ltb_ℤ, pos_part}

abbrev pub breaker_window : ℕ
breaker_window = 50

pub record Entry : Type 0 where
  pub success : Bool
  pub timed_out : Bool

pub record Breaker : Type 0 where
  pub ring : List Entry
  pub filled : ℕ
  pub pos : ℕ
  pub original : ℕ
  pub cap : ℕ
  pub halvings : ℕ

pub data Event : Type 0 where
  no_event halved restored : Event

-- What `recordResult` returns; the ratio is `timeouts / samples`.
pub record Outcome : Type 0 where
  pub event : Event
  pub old_cap : ℕ
  pub new_cap : ℕ
  pub timeouts : ℕ
  pub samples : ℕ

-- The zero value of a slot.
abbrev pub no_entry : Entry
no_entry = record { success = false; timed_out = false }

unfoldable pub new_breaker : ℤ → Breaker
new_breaker original =
    let base : ℕ = if ltb_ℤ original (ℤ.pos 1) then 1 else pos_part original in
    record {
      ring = replicate breaker_window no_entry;
      filled = 0;
      pos = 0;
      original = base;
      cap = base;
      halvings = 0;
    }

unfoldable pub record_entry : Breaker → Entry → Breaker
record_entry b x = record b {
  ring = set b.ring b.pos x;
  pos = (b.pos + 1) % breaker_window;
  filled = if ltb b.filled breaker_window then b.filled + 1 else b.filled;
}

unfoldable pub count_timeouts : Breaker → ℕ
count_timeouts b = count_if (λ x. x.timed_out) (take b.filled b.ring)

abbrev quiet : Breaker → ℕ → ℕ → Breaker × Outcome
quiet b timeouts samples = (
  b,
  record {
    event = no_event;
    old_cap = b.cap;
    new_cap = b.cap;
    timeouts = timeouts;
    samples = samples;
  },
)

abbrev pub halve : ℕ → ℕ
halve c = if ltb (c / 2) 5 then 5 else c / 2

-- The `switch`, for a window that is full and holds `t` timeouts.
unfoldable pub adjust : Breaker → ℕ → Breaker × Outcome
adjust b t =
    if ltb b.filled (2 * t) && ltb 5 b.cap
    then (if halve b.cap == b.cap then quiet b t b.filled else (
      record b { cap = halve b.cap; halvings = b.halvings + 1 },
      record {
        event = halved;
        old_cap = b.cap;
        new_cap = halve b.cap;
        timeouts = t;
        samples = b.filled;
      },
    ))
    else (if ltb (4 * t) b.filled && ltb b.cap b.original
        then (
          record b { cap = b.original },
          record {
            event = restored;
            old_cap = b.cap;
            new_cap = b.original;
            timeouts = t;
            samples = b.filled;
          },
        )
        else quiet b t b.filled)

-- With a window that is not full yet nothing changes, and the ratio is 0.
unfoldable pub react : Breaker → Breaker × Outcome
react b = if ltb b.filled breaker_window then quiet b 0 1 else adjust b (count_timeouts b)

unfoldable pub record_result : Breaker → Entry → Breaker × Outcome
record_result b x = react (record_entry b x)

unfoldable pub inflight_cap : Breaker → ℕ
inflight_cap b = b.cap

unfoldable pub halvings_count : Breaker → ℕ
halvings_count b = b.halvings

-- The breaker after a history of outcomes, the newest first.
unfoldable pub after : ℤ → List Entry → Breaker
after original [] = new_breaker original
after original (x ∷ h) = (record_result (after original h) x).0
