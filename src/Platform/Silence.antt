-- ===== src/Platform/Silence.antt =====
-- How far the clock for Windows counts, and what the main loop makes of it.
use vscp_mqtt_daemon.Prelude.{
  ℕ, zero, suc, ◌+◌, ◌-◌, ◌/◌, ◌%◌, ◌^◌, ◌≤◌, ◌<◌, false, List, [], ◌∷◌, ◌++◌, map, ℤ, pos, negsuc,
  negated, to_i32, quotient, ltb, ◌≡◌, ◌≢◌, refl, ap, subst, arith, if_cases, append-nil,
}
use vscp_mqtt_daemon.Control.Run.{Tick, main_loop}
use vscp_mqtt_daemon.Control.Session.{last_due, quits, main_loop-recent}
use vscp_mqtt_daemon.Platform.Clock.{
  System, Clock, Host, Round, initialize, elapsed, clock_gettime, from_lowest, shown, tick,
}

-- Between -2147 and 2147.
abbrev pub IsSeconds : ℤ → Type 0
IsSeconds (pos n) = n ≤ 2147
IsSeconds (negsuc n) = n < 2147

IsSeconds-negated : (n : ℕ) → n ≤ 2147 → IsSeconds (negated n)
IsSeconds-negated zero h = omega arith
IsSeconds-negated (suc n) h = omega arith

-- The seconds of a 32-bit number of microseconds.
quotient-IsSeconds : (z : ℤ) → IsSeconds (quotient (to_i32 z) 1000000)
quotient-IsSeconds (pos n) =
    if_cases (λ z. IsSeconds (quotient z 1000000)) (ltb (n % 2 ^ 32) (2 ^ 31)) (λ e. ground arith)
      (λ e. IsSeconds-negated (suc (2 ^ 32 - 1 - n % 2 ^ 32) / 1000000) (ground arith))
quotient-IsSeconds (negsuc n) =
    if_cases (λ z. IsSeconds (quotient z 1000000)) (ltb (n % 2 ^ 32) (2 ^ 31))
      (λ e. IsSeconds-negated (suc (n % 2 ^ 32) / 1000000) (ground arith)) (λ e. ground arith)

from_lowest-IsSeconds : (z : ℤ) → IsSeconds z → from_lowest z ≤ 4294
from_lowest-IsSeconds (pos n) h = omega arith
from_lowest-IsSeconds (negsuc n) h = omega arith

small_seconds : (n : ℕ) → n < 2 ^ 31 → quotient (to_i32 (pos n)) 1000000 ≡ pos (n / 1000000)
small_seconds n h =
    if_cases (λ z. quotient z 1000000 ≡ pos (n / 1000000)) (ltb (n % 2 ^ 32) (2 ^ 31))
      (λ e. ap (λ k. pos (k / 1000000)) (omega arith)) (λ e. ground arith)

wrong_seconds : (n : ℕ) → 2148000000 ≤ n → quotient (to_i32 (pos n)) 1000000 ≢ pos (n / 1000000)
wrong_seconds n many same =
    let range : IsSeconds (pos (n / 1000000)) = subst IsSeconds same (quotient-IsSeconds (pos n)) in
    absurd (omega arith)

pub shown-range : (h : Host) (c : Clock) (s : System) → shown h c s ≤ 4294
unfolding shown clock_gettime
shown-range h c s =
    from_lowest-IsSeconds (quotient (to_i32 (elapsed h s (initialize h s c))) 1000000)
      (quotient-IsSeconds (elapsed h s (initialize h s c)))

-- The loop goes on with the time of its last heartbeat.
main_loop-append :
    (ts us : List Tick) (due : ℕ)
    → quits ts ≡ false
    → (main_loop (ts ++ us) due).beats
      ≡ (main_loop ts due).beats ++ (main_loop us (last_due due (main_loop ts due).beats)).beats
unfolding main_loop
main_loop-append [] us due on = refl
main_loop-append (t ∷ ts) us due on =
    ground (arith, main_loop-append ts us due, main_loop-append ts us (t.again + 60))

-- A loop that is due only when the clock would show more than it can sends nothing more.
main_loop-silent :
    (h : Host) (c : Clock) (rs : List Round) (due : ℕ)
    → 4294 ≤ due
    → (main_loop (map (tick h c) rs) due).beats ≡ []
unfolding main_loop tick
main_loop-silent h c [] due e = refl
main_loop-silent h c (r ∷ rs) due e =
    ground (arith, shown-range h c r.now, main_loop-silent h c rs due e)

-- Wherever the clock is set, it is the same from its first use on.
pub initialize-once :
    (h : Host) (s t : System) (c : Clock)
    → (clock_gettime h t (clock_gettime h s c).1).1 ≡ (clock_gettime h s c).1
unfolding clock_gettime initialize
initialize-once h s t c = ground arith

-- If the elapsed microseconds are not negative, `tv_usec` tells those behind the last full second, and
-- `tv_sec` the full seconds as long as a signed 32-bit number holds the microseconds. However many
-- there are, `tv_sec` is between -2147 and 2147, so that it is never right from 2148 seconds on. A
-- later call measures from the same offset.
pub clock_gettime_lem :
    (h : Host) (s later : System) (c : Clock) (n : ℕ)
    → let (tv, ready) = clock_gettime h s c in
      elapsed h s ready ≡ pos n
      → (n < 2 ^ 31 → tv.tv_sec ≡ pos (n / 1000000))
        × (tv.tv_usec ≡ pos (n % 1000000))
        × IsSeconds tv.tv_sec
        × (2148000000 ≤ n → tv.tv_sec ≢ pos (n / 1000000))
        × ((clock_gettime h later ready).1 ≡ ready)
unfolding clock_gettime
clock_gettime_lem h s later c n e =
    let small = small_seconds n in
    let range = quotient-IsSeconds (pos n) in
    (rw e small, rw e refl, rw e range, rw e (wrong_seconds n), initialize-once h s later c)

split_rounds :
    (h : Host) (c : Clock) (before after : List Round) (r : Round)
    → map (tick h c) (before ++ (r ∷ after))
      ≡ (map (tick h c) before ++ (tick h c r ∷ [])) ++ map (tick h c) after
split_rounds h c [] after r = refl
split_rounds h c (b ∷ before) after r = rw (split_rounds h c before after r) refl

-- On Windows, a main loop that has not been asked to quit, and that is now shown 2147 seconds, the
-- most that its clock can show, sends no heartbeat from the next round on, however long it goes on
-- and whatever it has been shown before, if the clock does not go back within this round.
pub heartbeats_end :
    (h : Host) (c : Clock) (before after : List Round) (r : Round) (start : ℕ)
    → let ticks = map (tick h c) before ++ (tick h c r ∷ []) in
      quits ticks ≡ false
      → shown h c r.now ≡ 4294
      → shown h c r.now ≤ shown h c r.again
      → (main_loop (map (tick h c) (before ++ (r ∷ after))) start).beats
        ≡ (main_loop ticks start).beats
unfolding tick
heartbeats_end h c before after r start on full later =
    let ticks = map (tick h c) before ++ (tick h c r ∷ []) in
    let recent = main_loop-recent (map (tick h c) before) (tick h c r) start on later in
    rw (split_rounds h c before after r) (
      rw (main_loop-append ticks (map (tick h c) after) start on) (
        rw (main_loop-silent h c after (last_due start (main_loop ticks start).beats) (omega arith))
          (append-nil _)))
