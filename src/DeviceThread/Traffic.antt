-- ===== src/DeviceThread/Traffic.antt =====
-- Which events a driver's thread sends to the broker, out of what the driver delivers.
use mathlib.Core.List.{filter_map}
use vscp_mqtt_daemon.Prelude.{
  ℕ, Bool, true, false, List, [], ◌∷◌, ◌++◌, Option, none, some, ◌≡◌, refl, arith, ap, if_true_eq,
  if_false_eq,
}
use vscp_mqtt_daemon.Device.{DeviceItem}
use vscp_mqtt_daemon.Event.{VscpEvent, Vscp}
use vscp_mqtt_daemon.Event.Translate.{outgoing_blocking, outgoing_non_blocking}
use vscp_mqtt_daemon.Event.Stamp.{stamp}
use vscp_mqtt_daemon.DeviceThread.{
  Effect, discover, publish, Poll, stop, quiet, failed, got, publish_all, after_poll, work_loop,
  round_blocking, round_non_blocking, round_level2,
}

-- The events that are given to discovery, and those that are sent to the broker.
abbrev pub discovered : List Effect → List VscpEvent
discovered [] = []
discovered (discover ev ∷ es) = ev ∷ discovered es
discovered (_ ∷ es) = discovered es

abbrev pub published : List Effect → List VscpEvent
published [] = []
published (publish ev ∷ es) = ev ∷ published es
published (_ ∷ es) = published es

-- The messages that arrive before another thread asks the loop to stop.
abbrev pub before_stop : {M : Type 0} → List (Poll M) → List M
before_stop [] = []
before_stop (stop ∷ ps) = []
before_stop (quiet ∷ ps) = before_stop ps
before_stop (failed ∷ ps) = before_stop ps
before_stop (got m ∷ ps) = m ∷ before_stop ps

-- A loop ends by a request to stop and by nothing else.
abbrev pub is_stopped : {M : Type 0} → List (Poll M) → Bool
is_stopped [] = false
is_stopped (stop ∷ ps) = true
is_stopped (quiet ∷ ps) = is_stopped ps
is_stopped (failed ∷ ps) = is_stopped ps
is_stopped (got m ∷ ps) = is_stopped ps

pub published-append : (es fs : List Effect) → published (es ++ fs) ≡ published es ++ published fs
published-append [] fs = refl
published-append (publish ev ∷ es) fs = ap (◌∷◌ ev) (published-append es fs)
published-append (_ ∷ es) fs = published-append es fs

pub discovered-append :
    (es fs : List Effect) → discovered (es ++ fs) ≡ discovered es ++ discovered fs
discovered-append [] fs = refl
discovered-append (discover ev ∷ es) fs = ap (◌∷◌ ev) (discovered-append es fs)
discovered-append (_ ∷ es) fs = discovered-append es fs

-- A list of effects sends exactly these events, and each to discovery too.
abbrev pub Sends : List Effect → List VscpEvent → Type 0
Sends es evs = (published es ≡ evs) × (discovered es ≡ evs)

pub Sends-append :
    (es fs : List Effect) {xs ys : List VscpEvent}
    → Sends es xs
    → Sends fs ys
    → Sends (es ++ fs) (xs ++ ys)
Sends-append es fs (p, q) (r, s) =
    (rw (published-append es fs, p, r), rw (discovered-append es fs, q, s))

-- What a round sends of a message.
abbrev pub sent : {M : Type 0} → (M → Option VscpEvent) → Poll M → List VscpEvent
sent f stop = []
sent f quiet = []
sent f failed = []
sent f (got m) = elim (f m) [ none ↦ [] | some ev ↦ ev ∷ [] ]

publish_all-Sends :
    (o : Option VscpEvent) → Sends (publish_all o) (elim o [ none ↦ [] | some ev ↦ ev ∷ [] ])
unfolding publish_all
publish_all-Sends none = (refl, refl)
publish_all-Sends (some ev) = (refl, refl)

-- The loop that converts by `f`.
abbrev pub Converts :
    {M : Type 0}
    → (DeviceItem → Poll M → List Effect)
    → (M → Option VscpEvent)
    → DeviceItem
    → Type 0
Converts {M} round f d = (p : Poll M) → Sends (round d p) (sent f p)

-- A loop that starts, or comes back to its test, with `m_bQuit` set ends at once.
pub work_loop_quit :
    {M : Type 0} (round : DeviceItem → Poll M → List Effect) (ps : List (Poll M)) (d : DeviceItem)
    → d.quit ≡ true
    → work_loop round ps d ≡ record { item = d; ended = true; trace = [] }
unfolding work_loop
work_loop_quit round [] d e = ground arith
work_loop_quit round (p ∷ ps) d e = if_true_eq _ _ e

work_loop-cons :
    {M : Type 0} (round : DeviceItem → Poll M → List Effect) (p : Poll M) (ps : List (Poll M))
    (d : DeviceItem)
    → d.quit ≡ false
    → let rest = work_loop round ps (after_poll p d) in
      work_loop round (p ∷ ps) d ≡ record rest { trace = round d p ++ rest.trace }
unfolding work_loop
work_loop-cons round p ps d e = if_false_eq _ _ e

work_loop-nil :
    {M : Type 0} (round : DeviceItem → Poll M → List Effect) (d : DeviceItem)
    → work_loop round [] d ≡ record { item = d; ended = d.quit; trace = [] }
unfolding work_loop
work_loop-nil round d = refl

sent-filter_map :
    {M : Type 0} (f : M → Option VscpEvent) (m : M) (ms : List M)
    → sent f (got m) ++ filter_map f ms ≡ filter_map f (m ∷ ms)
unfolding filter_map
sent-filter_map f m ms = ground arith

pub work_loop-Sends :
    {M : Type 0} (round : DeviceItem → Poll M → List Effect) (f : M → Option VscpEvent)
    (ps : List (Poll M)) (d : DeviceItem)
    → d.quit ≡ false
    → Converts round f d
    → let l = work_loop round ps d in
      Sends l.trace (filter_map f (before_stop ps)) × (l.ended ≡ is_stopped ps)
unfolding filter_map after_poll
work_loop-Sends round f [] d e h = rw (work_loop-nil round d) ((refl, refl), e)
work_loop-Sends round f (stop ∷ ps) d e h =
    rw (work_loop-cons round stop ps d e, work_loop_quit round ps (record d { quit = true }) refl)
      (Sends-append (round d stop) [] (h stop) (refl, refl), refl)
work_loop-Sends round f (quiet ∷ ps) d e h =
    let (s, t) = work_loop-Sends round f ps d e h in
    rw (work_loop-cons round quiet ps d e) (Sends-append (round d quiet) _ (h quiet) s, t)
work_loop-Sends round f (failed ∷ ps) d e h =
    let (s, t) = work_loop-Sends round f ps d e h in
    rw (work_loop-cons round failed ps d e) (Sends-append (round d failed) _ (h failed) s, t)
work_loop-Sends round f (got m ∷ ps) d e h =
    let (s, t) = work_loop-Sends round f ps d e h in
    rw (work_loop-cons round (got m) ps d e) (
      rw (sent-filter_map f m (before_stop ps)) at
          (Sends-append (round d (got m)) (work_loop round ps d).trace (h (got m)) s),
      t,
    )

pub round_blocking-Converts :
    (v : Vscp) (d : DeviceItem) → Converts (round_blocking v) (outgoing_blocking v d) d
unfolding round_blocking
round_blocking-Converts v d stop = (refl, refl)
round_blocking-Converts v d quiet = (refl, refl)
round_blocking-Converts v d failed = (refl, refl)
round_blocking-Converts v d (got m) = publish_all-Sends (outgoing_blocking v d m)

pub round_non_blocking-Converts :
    (v : Vscp) (d : DeviceItem) → Converts (round_non_blocking v) (outgoing_non_blocking v d) d
unfolding round_non_blocking
round_non_blocking-Converts v d stop = (refl, refl)
round_non_blocking-Converts v d quiet = (refl, refl)
round_non_blocking-Converts v d failed = (refl, refl)
round_non_blocking-Converts v d (got m) = publish_all-Sends (outgoing_non_blocking v d m)

abbrev pub stamped : Vscp → VscpEvent × ℕ → Option VscpEvent
stamped v (ev, now) = some (stamp v now ev)

pub round_level2-Converts : (v : Vscp) (d : DeviceItem) → Converts (round_level2 v) (stamped v) d
unfolding round_level2
round_level2-Converts v d stop = (refl, refl)
round_level2-Converts v d quiet = (refl, refl)
round_level2-Converts v d failed = (refl, refl)
round_level2-Converts v d (got (ev, now)) = publish_all-Sends (some (stamp v now ev))
