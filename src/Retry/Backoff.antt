-- ===== src/Retry/Backoff.antt =====
-- libs/backend/go/observability/retry/backoff.go: exponential backoff with full jitter, on int64
-- durations.
pub mod Growth
use dmpf.Prelude.{ℕ, zero, suc, Bool, true, false, ◌&&◌, ◌||◌, Option, none, some, if◌then◌else◌}
use dmpf.Prelude.Int.{ℤ, pos, negsuc, ltb_ℤ, leb_ℤ}
use dmpf.Prelude.Word.{mul64}
use dmpf.Prelude.Float.{FloatOps}

pub record Backoff : Type 0 where
  pub base : ℤ
  pub factor : ℤ
  pub cap : ℤ

-- 100 ms, factor 2, 5 s, in nanoseconds.
abbrev pub default_backoff : Backoff
default_backoff = record { base = pos 100_000_000; factor = pos 2; cap = pos 5_000_000_000 }

-- What follows the loop.
capped : Backoff → ℤ → ℤ
capped b interval = if ltb_ℤ (pos 0) b.cap && ltb_ℤ b.cap interval then b.cap else interval

-- The loop, with the rounds that are left.
pub grow : Backoff → ℕ → ℤ → ℤ
unfolding capped
grow b zero interval = capped b interval
grow b (suc rounds) interval =
    let next = mul64 interval b.factor in
    let rest = grow b rounds next in
    if leb_ℤ b.factor (pos 1)
    then capped b interval
    else if ltb_ℤ (pos 0) b.cap && leb_ℤ b.cap next
    then b.cap
    else rest

pub interval : Backoff → ℤ → ℤ
unfolding grow
interval b (negsuc n) = pos 0
interval b (pos attempt) = if leb_ℤ b.base (pos 0) then pos 0 else grow b attempt b.base

module _ (O : FloatOps) where
  open O use {F, zero_f, one_f, of_int, mul, geb, truncate}

  jitter : ℤ → Option F → ℤ
  jitter interval none = interval
  jitter interval (some draw) =
      if geb zero_f draw
      then pos 0
      else if geb draw one_f
      then interval
      else truncate (mul (of_int interval) draw)

  -- `Next`; the draw is what the injected `rand` returns, and `none` is a nil `rand`.
  pub next : Backoff → ℤ → Option F → ℤ
  unfolding jitter interval
  next b attempt rand =
      if leb_ℤ (interval b attempt) (pos 0) then pos 0 else jitter (interval b attempt) rand
