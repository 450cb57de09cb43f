-- ===== src/Control/Session.antt =====
-- When the daemon sends its heartbeat, and what `run` leaves behind.
use vscp_mqtt_daemon.Prelude.{
  ℕ, ◌+◌, ◌≤◌, ◌<◌, Bool, true, false, not, ◌&&◌, ◌||◌, List, [], ◌∷◌, ◌++◌, map, all, ◌≡◌, refl,
  arith,
}
use vscp_mqtt_daemon.Device.{DeviceItem}
use vscp_mqtt_daemon.Device.Lifecycle.{
  Runs, makes, joins, join_thread, items, start_driver, stop_driver, start_if_enabled,
  start_device_worker_threads, stop_device_worker_threads,
}
use vscp_mqtt_daemon.Device.Print.{Formats}
use vscp_mqtt_daemon.DeviceThread.{Loop}
use vscp_mqtt_daemon.DeviceThread.Stopped.{Keeps}
use vscp_mqtt_daemon.Control.Run.{
  Configured, Broker, init_mqtt, Tick, main_loop, cleanup, thread_of, joins_return, remaining, run,
}

-- The clock does not run backwards, from the time `t` on.
abbrev pub IsClock : ℕ → List Tick → Type 0
IsClock t [] = Unit
IsClock t (k ∷ ks) = (t ≤ k.now) × (k.now ≤ k.again) × IsClock k.again ks

-- Each time is more than 60 seconds behind the one before it, the first one behind `t`.
abbrev pub Spaced : ℕ → List ℕ → Type 0
Spaced due [] = Unit
Spaced due (n ∷ ns) = (due < n) × Spaced (n + 60) ns

Spaced-earlier : (due later : ℕ) (ns : List ℕ) → due ≤ later → Spaced later ns → Spaced due ns
Spaced-earlier due later [] h k = tt
Spaced-earlier due later (n ∷ ns) h (p, q) = (omega arith, q)

main_loop-Spaced :
    (ts : List Tick) (start due : ℕ)
    → IsClock start ts
    → Spaced due (map (λ t. t.now) (main_loop ts due).beats)
unfolding main_loop
main_loop-Spaced [] start due h = tt
main_loop-Spaced (t ∷ ts) start due (p, q, h) = ground (
  arith,
  main_loop-Spaced ts t.again due h,
  main_loop-Spaced ts t.again (t.again + 60) h,
  Spaced-earlier (t.now + 60) (t.again + 60) (map (λ t. t.now) (main_loop ts (t.again + 60)).beats),
)

-- 60 seconds behind the last of the heartbeats, as the clock showed it when they were sent.
abbrev pub last_due : ℕ → List Tick → ℕ
last_due due [] = due
last_due due (t ∷ ts) = last_due (t.again + 60) ts

abbrev pub quits : List Tick → Bool
quits [] = false
quits (t ∷ ts) = t.quit || quits ts

pub main_loop-recent :
    (ts : List Tick) (t : Tick) (due : ℕ)
    → quits (ts ++ (t ∷ [])) ≡ false
    → t.now ≤ t.again
    → t.now ≤ last_due due (main_loop (ts ++ (t ∷ [])) due).beats
unfolding main_loop
main_loop-recent [] t due on later = ground arith
main_loop-recent (s ∷ ts) t due on later =
    ground (arith, main_loop-recent ts t due, main_loop-recent ts t (s.again + 60))

-- While the clock does not run backwards and the loop is not asked to quit, the heartbeats of a main
-- loop that started at the time `start` are more than 60 seconds apart,
-- and the first is sent as soon as the clock
-- shows a later second than `start`. None is left out: at every round that the loop gets to, the
-- last heartbeat was sent at most 60 seconds before, or the clock still shows `start`.
pub main_loop_lem :
    (ts : List Tick) (t : Tick) (start : ℕ)
    → IsClock start (ts ++ (t ∷ []))
    → quits (ts ++ (t ∷ [])) ≡ false
    → t.now ≤ t.again
    → let beats = (main_loop (ts ++ (t ∷ [])) start).beats in
      Spaced start (map (λ b. b.now) beats) × (t.now ≤ last_due start beats)
main_loop_lem ts t start clock on later =
    (main_loop-Spaced (ts ++ (t ∷ [])) start start clock, main_loop-recent ts t start on later)

pub main_loop_ended : (ts : List Tick) (due : ℕ) → (main_loop ts due).ended ≡ quits ts
unfolding main_loop
main_loop_ended [] due = refl
main_loop_ended (t ∷ ts) due =
    ground (arith, main_loop_ended ts due, main_loop_ended ts (t.again + 60))

-- No driver has a thread.
abbrev pub all_stopped : List DeviceItem → Bool
all_stopped = all (λ d. not d.thread_started)

-- Clean-up leaves no thread where there was none.
pub cleanup-all_stopped :
    (ds : List DeviceItem) → all_stopped ds ≡ true → all_stopped (items (cleanup ds)) ≡ true
unfolding cleanup stop_device_worker_threads stop_driver
cleanup-all_stopped [] h = refl
cleanup-all_stopped (d ∷ ds) h = ground (arith, cleanup-all_stopped ds)

-- What `run` relies on of a thread: it returns once it is asked to quit, and leaves alone what the
-- loops over the drivers read.
pub record IsJoinable (work : Bool → DeviceItem → Loop) : Type 0 where
  pub returns : (d : DeviceItem) → (work true d).ended ≡ true
  pub keeps : (asked : Bool) (d : DeviceItem) → Keeps d (work asked d).item

-- The threads of the drivers.
abbrev pub threads_of :
    (DeviceItem → Bool) → (Bool → DeviceItem → Loop) → List DeviceItem → List Loop
threads_of created work ds = map (thread_of work) (start_device_worker_threads created ds).0

-- No thread is left.
abbrev pub none_alive : List Bool → Bool
none_alive = all not

joins_return-ended :
    (rs : Runs) (ls : List Loop) → all (λ l. l.ended) ls ≡ true → joins_return rs ls ≡ true
unfolding joins_return
joins_return-ended [] ls h = refl
joins_return-ended (r ∷ rs) [] h = refl
joins_return-ended (r ∷ rs) (l ∷ ls) h = ground (arith, joins_return-ended rs ls)

-- Calls that wait for threads leave none where there was none.
pub remaining-none_alive :
    (bs : List Bool) (rs : Runs) → none_alive bs ≡ true → none_alive (remaining bs rs) ≡ true
unfolding remaining
remaining-none_alive [] rs h = refl
remaining-none_alive (b ∷ bs) [] h = h
remaining-none_alive (b ∷ bs) (r ∷ rs) h = ground (arith, remaining-none_alive bs rs)

module _ (created : DeviceItem → Bool) (work : Bool → DeviceItem → Loop)
    (joinable : IsJoinable work) where
  abbrev thread : DeviceItem → Loop
  thread d = thread_of work (start_if_enabled created d)

  thread_ended : (d : DeviceItem) → (thread d).ended ≡ true
  unfolding thread_of start_if_enabled start_driver stop_driver join_thread
  thread_ended d = ground (arith, joinable.returns (record d { thread_started = true }))

  pub threads_ended :
      (ds : List DeviceItem) → all (λ l. l.ended) (threads_of created work ds) ≡ true
  unfolding start_device_worker_threads
  threads_ended [] = refl
  threads_ended (d ∷ ds) = ground (arith, thread_ended d, threads_ended ds)

  thread_stopped :
      (d : DeviceItem)
      → d.thread_started ≡ false
      → let r = stop_driver (thread d).item in
        (r.item.thread_started ≡ false)
        × ((makes (start_if_enabled created d).calls && not (joins r.calls)) ≡ false)
  unfolding thread_of start_if_enabled start_driver stop_driver join_thread
  thread_stopped d e = ground (arith, joinable.keeps true (record d { thread_started = true }))

  cleanup_started :
      (ds : List DeviceItem)
      → all_stopped ds ≡ true
      → let stops = cleanup (map (λ l. l.item) (threads_of created work ds)) in
        let made = map (λ r. makes r.calls) (start_device_worker_threads created ds).0 in
        (all_stopped (items stops) ≡ true) × (none_alive (remaining made stops) ≡ true)
  unfolding cleanup start_device_worker_threads stop_device_worker_threads remaining
  cleanup_started [] h = (refl, refl)
  cleanup_started (d ∷ ds) h = ground (arith, thread_stopped d, cleanup_started ds)

module _ (f : Formats) (broker : Broker) (c : Configured) (created : DeviceItem → Bool)
    (work : Bool → DeviceItem → Loop) (joinable : IsJoinable work) (started : ℕ) (ticks : List Tick)
    (ds : List DeviceItem) where
  -- When `run` returns.
  pub run_ended :
      (run f broker c created work started ticks ds).ended ≡ (not broker.connects || quits ticks)
  unfolding run init_mqtt
  run_ended = ground (
    arith,
    main_loop_ended ticks started,
    joins_return-ended (cleanup (map (λ l. l.item) (threads_of created work ds)))
        (threads_of created work ds) (threads_ended created work joinable ds),
  )

  -- `run` succeeds exactly if the daemon's client connects. If it does not, nothing is published
  -- and no heartbeat sent, and `run` returns at once; if it does, `run` returns exactly when it is
  -- asked to quit, if every thread returns that it asks to quit. Whenever it has returned, every
  -- thread that was made has been joined, and no driver says that it has one, if none said so
  -- before.
  pub run_lem :
      all_stopped ds ≡ true
      → let s = run f broker c created work started ticks ds in
        (s.result ≡ broker.connects)
        × (s.ended ≡ (not broker.connects || quits ticks))
        × (broker.connects ≡ false → (s.publications ≡ []) × (s.beats ≡ []))
        × (s.ended ≡ true → (all_stopped s.drivers ≡ true) × (none_alive s.alive ≡ true))
  unfolding run init_mqtt
  run_lem h =
      ground (
        arith,
        run_ended,
        main_loop_ended ticks started,
        cleanup_started created work joinable ds h,
      )
