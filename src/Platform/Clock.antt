-- ===== src/Platform/Clock.antt =====
-- src/controlobject.cpp, for Windows: clock_gettime with its static variables, and the rounds of the
-- main loop with the time that it tells. What the system answers, and the division of doubles, are
-- arguments.
use vscp_mqtt_daemon.Prelude.{
  ℕ, ◌+◌, ◌-◌, ◌*◌, ◌^◌, Bool, true, false, Option, none, some, ℤ, pos, negsuc, negated, minus,
  to_i32, quotient, remainder, if◌then◌else◌,
}
use vscp_mqtt_daemon.Control.Run.{Tick}

-- The two halves of a time in units of 100 ns, since the year 1601.
pub record FileTime : Type 0 where
  pub high : ℕ
  pub low : ℕ

-- `QuadPart` with both halves.
abbrev pub quad_part : FileTime → ℕ
quad_part f = f.high * 2 ^ 32 + f.low

-- What the calls of one `clock_gettime` find: the frequency of the performance counter, if there is
-- one, the counter in the initialization and after it, and the system time.
pub record System : Type 0 where
  pub frequency : Option ℕ
  pub counter_before : ℕ
  pub counter : ℕ
  pub system_time : FileTime

-- The static variables. The unit of the clock is `frequency` to a second, so that
-- `frequencyToMicroseconds` is `frequency / 1000000.`.
pub record Clock : Type 0 where
  pub initialized : Bool
  pub use_counter : Bool
  pub offset : ℕ
  pub frequency : ℕ

abbrev pub new_clock : Clock
new_clock = record { initialized = false; use_counter = false; offset = 0; frequency = 0 }

pub record Timeval : Type 0 where
  pub tv_sec : ℤ
  pub tv_usec : ℤ

-- The start of 1970 as `SystemTimeToFileTime` gives it, and `(LONGLONG) (t / (frequency / 1000000.))`
-- as the doubles have it.
pub record Host : Type 0 where
  pub epoch : FileTime
  pub microseconds : ℤ → ℕ → ℤ

unfoldable pub get_filetime_offset : Host → ℕ
get_filetime_offset h = quad_part h.epoch

-- The block `if (!initialized)`
unfoldable pub initialize : Host → System → Clock → Clock
unfolding get_filetime_offset
initialize h s c = if c.initialized then c else elim s.frequency [
  | some f ↦ record {
    initialized = true;
    use_counter = true;
    offset = s.counter_before;
    frequency = f;
  }
  | none ↦ record {
    initialized = true;
    use_counter = false;
    offset = get_filetime_offset h;
    frequency = 10000000;
  }
]

-- The microseconds since `offset`, before they are put into `tv`.
unfoldable pub elapsed : Host → System → Clock → ℤ
elapsed h s c =
    let t = if c.use_counter then s.counter else quad_part s.system_time in
    h.microseconds (minus t c.offset) c.frequency

unfoldable pub clock_gettime : Host → System → Clock → Timeval × Clock
unfolding initialize elapsed
clock_gettime h s c =
    let ready = initialize h s c in
    let t = elapsed h s ready in
    (record { tv_sec = quotient (to_i32 t) 1000000; tv_usec = remainder t 1000000 }, ready)

-- A round of the main loop, with what its calls of `clock_gettime` find.
pub record Round : Type 0 where
  pub quit : Bool
  pub now : System
  pub again : System

-- The loop only looks at differences of seconds. They are counted here from 2147 seconds before the
-- clock shows 0, since `tv_sec` is negative at times.
abbrev pub from_lowest : ℤ → ℕ
from_lowest (pos n) = 2147 + n
from_lowest (negsuc n) = 2146 - n

unfoldable pub shown : Host → Clock → System → ℕ
unfolding clock_gettime
shown h c s = from_lowest (clock_gettime h s c).0.tv_sec

unfoldable pub tick : Host → Clock → Round → Tick
unfolding shown
tick h c r = record { quit = r.quit; now = shown h c r.now; again = shown h c r.again }

-- `usleep`, which stands in both files: what SetWaitableTimer gets, in units of 100 ns, a negative
-- number for a time from now on.
unfoldable pub timer_due : ℕ → ℤ
timer_due usec = negated (10 * usec)
