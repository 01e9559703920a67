-- ===== src/Clock.antt =====
-- Instants and durations. An instant counts nanoseconds since Go's zero time, so `IsZero` is the
-- test for 0; a duration counts nanoseconds. The monotonic clock does not run backwards, so an
-- elapsed time that the program reads is never negative, as `-` on ℕ never is.
use human_guard.Base.{ℕ, ◌*◌, ◌-◌, ◌/◌, Bool, ltb, eqb, ◌%◌, ◌+◌, if◌then◌else◌}

abbrev pub Time : Type 0
Time = ℕ

abbrev pub second : ℕ
second = 1_000_000_000

abbrev pub minute : ℕ
minute = 60 * second

abbrev pub hour : ℕ
hour = 60 * minute

abbrev pub is_zero : Time → Bool
is_zero t = eqb t 0

-- `now.After(t)` and `now.Before(t)`.
abbrev pub after : Time → Time → Bool
after now t = ltb t now

abbrev pub before : Time → Time → Bool
before now t = ltb now t

-- `now.Sub(t)`.
abbrev pub since : Time → Time → ℕ
since now t = now - t

-- `t.Unix()`: whole seconds since 1970. The clock stands after 1970.
abbrev pub unix : Time → ℕ
unix t = t / second - 62_135_596_800

-- `time.Duration(n) * unit` for a positive n: the product in 64 bits, as the bits of a signed number.
abbrev pub duration : ℕ → ℕ → ℕ
duration n unit = n * unit % 18_446_744_073_709_551_616

-- `now.Add(d)` for the bits of a signed duration.
abbrev pub add_duration : Time → ℕ → Time
add_duration now d =
    if ltb d 9_223_372_036_854_775_808 then now + d else now - (18_446_744_073_709_551_616 - d)
