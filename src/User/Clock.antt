-- ===== src/User/Clock.antt =====
-- Time in user/lib/user.c: gettimeofday, nanosleep and sleep_ms. The clock ticks ten million times a
-- second.
use dmaos.Base.{
  ℕ, ◌+◌, ◌*◌, ◌/◌, ◌%◌, ◌^◌, ltb, if◌then◌else◌, Option, none, some, List, [], ◌∷◌, ℤ, pos,
}
use dmaos.User.{Newlib, elapsed}
use dmaos.User.Outside.{P, pure, ◌>>=◌, uptime, fail}

-- Seconds, and the microseconds of the last one.
abbrev pub timeval : ℕ → ℕ × ℕ
timeval ticks = (ticks / 10000000, ticks % 10000000 / 10)

-- `tv` is NULL, or is set.
unfoldable pub gettimeofday : Option (ℕ × ℕ) → P (ℤ × Option (ℕ × ℕ))
gettimeofday none = pure (pos 0, none)
gettimeofday (some tv) = do ticks ← uptime; pure (pos 0, some (timeval ticks))

-- The loop that yields until `ticks` have passed: what is left of the clock's readings.
unfoldable pub wait_ticks : ℕ → ℕ → List ℕ → Option (List ℕ)
wait_ticks start ticks [] = none
wait_ticks start ticks (now ∷ clock) =
    let rest = wait_ticks start ticks clock in
    if ltb (elapsed start now) ticks then rest else some clock

abbrev pub sleep_from : ℕ → ℕ → P ℤ
sleep_from ticks start s o = elim (wait_ticks start ticks o.clock) [
  | none ↦ none
  | some clock ↦ some (pos 0, (s, record o { clock = clock }))
]

unfoldable pub sleep_ms : ℕ → P ℤ
sleep_ms ms = do start ← uptime; sleep_from (ms * 10000) start

-- `rem` is NULL, or set to 0.
abbrev pub rest_zero : Option (ℕ × ℕ) → Option (ℕ × ℕ)
rest_zero none = none
rest_zero (some rem) = some (0, 0)

-- `req` is NULL, or seconds and nanoseconds.
unfoldable pub nanosleep : Newlib → Option (ℕ × ℕ) → Option (ℕ × ℕ) → P (ℤ × Option (ℕ × ℕ))
nanosleep libc none rem = do r ← fail (libc.einval); pure (r, rem)
nanosleep libc (some (tv_sec, tv_nsec)) rem = do
  start_time ← uptime
  r ← sleep_from ((tv_sec * 10000000 + tv_nsec / 100) % 2 ^ 64) start_time
  pure (r, rest_zero rem)
