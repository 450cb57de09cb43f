-- ===== src/DeviceThread/Outcome.antt =====
-- What a run of a driver's thread sends and whether it is over, and when it gets to its loop.
use mathlib.Core.List.{filter_map}
use vscp_mqtt_daemon.Prelude.{
  Bool, true, false, not, ◌&&◌, ◌||◌, List, [], ◌∷◌, Option, none, some, append-nil, ◌≡◌, refl,
  arith, ℤ, if◌then◌else◌, if_cases, if_true_eq, if_false_eq, Bool-cases, inl, inr, is_positive,
  is_zero, all, sym, ◌∙◌,
}
use vscp_mqtt_daemon.Device.{DeviceItem, Proc, canal_open}
use vscp_mqtt_daemon.Event.{VscpEvent, CanalMsg, Vscp}
use vscp_mqtt_daemon.Event.Translate.{outgoing_blocking, outgoing_non_blocking}
use vscp_mqtt_daemon.DeviceThread.{
  Resolution, found, missing, resolve, required1, required2, Effect, disconnect, lock, close_driver,
  unlock, dl_close, Poll, Loop, work_loop,
}
use vscp_mqtt_daemon.DeviceThread.Start.{Library, close_down}
use vscp_mqtt_daemon.DeviceThread.Leaks.{
  failure, others1, procs2, required1-failure, required2-failure,
}
use vscp_mqtt_daemon.DeviceThread.Traffic.{
  before_stop, is_stopped, Sends, Sends-append, work_loop-Sends, work_loop_quit, Converts,
}

-- What a run sends, and whether it is over.
abbrev pub Outcome : Loop → List VscpEvent → Bool → Type 0
Outcome l evs ended = Sends l.trace evs × (l.ended ≡ ended)

pub work_loop-Outcome :
    {M : Type 0} (round : DeviceItem → Poll M → List Effect) (f : M → Option VscpEvent)
    (ps : List (Poll M)) (d : DeviceItem)
    → Converts round f d
    → Outcome
        (work_loop round ps d)
        (if d.quit then [] else filter_map f (before_stop ps))
        (d.quit || is_stopped ps)
work_loop-Outcome round f ps d h = elim (Bool-cases d.quit) [
  | inl e ↦
      rw (work_loop_quit round ps d e)
        ((sym (if_true_eq _ _ e), sym (if_true_eq _ _ e)), ground arith)
  | inr e ↦
      let ((p, q), t) = work_loop-Sends round f ps d e h in
      ((p ∙ sym (if_false_eq _ _ e), q ∙ sym (if_false_eq _ _ e)), ground arith)
]

-- The calls of `close_down`, none of which sends an event.
abbrev closing : ℤ → List Effect
closing h = disconnect ∷ lock ∷ close_driver h ∷ unlock ∷ dl_close ∷ []

pub close_down-Outcome :
    (l : Loop) {evs : List VscpEvent} {ended : Bool}
    → Outcome l evs ended
    → Outcome (close_down l) evs ended
unfolding close_down
close_down-Outcome l {evs} {ended} (s, e) =
    if_cases (λ (k : Loop). Outcome k evs ended) l.ended
      (λ h. (
        rw (append-nil evs) at (Sends-append l.trace (closing l.item.open_handle) s (refl, refl)),
        sym h ∙ e,
      ))
      (λ _. (s, e))

abbrev pub is_some_found : Resolution → Bool
is_some_found (found ps) = true
is_some_found (missing ps closes) = false

-- The converter of a Level I driver depends on whether it can block.
unfoldable pub outgoing : Vscp → Bool → DeviceItem → CanalMsg → Option VscpEvent
outgoing v blocks d = if blocks then outgoing_blocking v d else outgoing_non_blocking v d

found_of_failure :
    (r : Resolution) → is_some_found r ≡ (elim (failure r) [ none ↦ true | some c ↦ false ])
found_of_failure (found ps) = refl
found_of_failure (missing ps closes) = refl

-- The driver's thread gets as far as its loop.
abbrev pub starts1 : Library → Bool
starts1 lib =
    lib.loads
    && ((lib.exports canal_open && all lib.exports others1)
        && (is_positive lib.opens && lib.connects))

abbrev pub starts2 : Library → Bool
starts2 lib = lib.loads && (all lib.exports procs2 && (not (is_zero lib.opens) && lib.connects))

pub found1 :
    (has : Proc → Bool) (ps : List Proc)
    → is_some_found (resolve has required1 ps) ≡ (has canal_open && all has others1)
found1 has ps =
    ground (arith, found_of_failure (resolve has required1 ps), required1-failure has ps)

pub found2 :
    (has : Proc → Bool) (ps : List Proc) → is_some_found (resolve has required2 ps) ≡ all has procs2
found2 has ps =
    ground (arith, found_of_failure (resolve has required2 ps), required2-failure has ps)
