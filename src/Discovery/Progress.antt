-- ===== src/Discovery/Progress.antt =====
-- The calls of discovery come to an end: the mutex is given back on every path, so that no thread
-- waits for ever for it.
use vscp_mqtt_daemon.Prelude.{
  ℕ, Bool, true, false, List, [], ◌∷◌, ◌++◌, Option, none, some, Text, bytes, is_some, ◌==◌, ◌≡◌,
  refl, ap, ◌∙◌, arith, if◌then◌else◌, inl, inr, Bool-cases, Option-cases,
}
use vscp_mqtt_daemon.Event.{VscpEvent}
use vscp_mqtt_daemon.Discovery.{Sqlite, Registry, Settings, is_known}
use vscp_mqtt_daemon.Discovery.Threads.{
  Place, idle, arrived, holding, adding, inserted, published, leaving, inside, update, Shared,
  quiet, Finished, Step, pass_by, arrive, take_mutex, find, insert_row, insert_fails, publish,
  add_name, give_mutex, Reach, start, later,
}
use vscp_mqtt_daemon.Discovery.Linear.Places.{update-at, update-other}
use vscp_mqtt_daemon.Discovery.Linear.{Reach-Inv}

-- The event that the thread is called with.
abbrev pub event_of : Place → Option VscpEvent
event_of idle = none
event_of (arrived ev) = some ev
event_of (holding ev) = some ev
event_of (adding ev) = some ev
event_of (inserted ev time) = some ev
event_of (published ev time) = some ev
event_of (leaving ev time) = some ev

abbrev in_call : Place → Bool
in_call p = is_some (event_of p)

some-inj : {e f : VscpEvent} → some e ≡ some f → e ≡ f
some-inj p = ground arith

module _ (S : Sqlite) (c : Settings) where
  -- There is a database where a thread is in a call.
  abbrev Open : Shared S → Type 0
  Open s = (i : ℕ) → in_call (s.place i) ≡ true → is_some s.db ≡ true

  quiet-Open : (r : Registry S) → Open (quiet S r)
  quiet-Open r i e = ground (arith, e)

  Step-Open : {s t : Shared S} {o : Option Finished} → Step S c s t o → Open s → Open t
  Step-Open (pass_by a e) op = rw e op
  Step-Open (arrive i ev db a b e) op = rw e (λ j f. rw b refl)
  Step-Open (take_mutex i ev a b e) op = rw e (λ j f. op i (ap in_call a))
  Step-Open (find i ev a e) op = rw e (λ j f. op i (ap in_call a))
  Step-Open (insert_row i ev time db db' a b f e) op = rw e (λ j g. refl)
  Step-Open (insert_fails i ev time db a b f e) op = rw e (λ j g. rw b refl)
  Step-Open (publish i ev time a e) op = rw e (λ j f. op i (ap in_call a))
  Step-Open (add_name i ev time a e) op = rw e (λ j f. op i (ap in_call a))
  Step-Open (give_mutex i ev time a e) op = rw e (λ j f. op i (ap in_call a))

  Reach-Open :
      {b : Shared S} {calls : List Finished} {s : Shared S} → Open b → Reach S c b calls s → Open s
  Reach-Open op start = op
  Reach-Open op (later reach step more) = Step-Open step (Reach-Open op reach)

  -- The call of the thread `i` with `ev` returns, from where the threads are at `place`: nobody has
  -- the mutex then, and the other threads are where they were.
  abbrev Returns : Shared S → List Finished → (ℕ → Place) → ℕ → VscpEvent → Type 0
  Returns b calls place i ev =
      (time : Text) × (t : Shared S) × Reach S c b (calls ++ ((ev, time) ∷ [])) t
      × (t.holder ≡ none)
      × (t.place i ≡ idle)
      × ((j : ℕ) → (i == j) ≡ false → t.place j ≡ place j)

  module _ (b : Shared S) (op : Open b) (calls : List Finished) where
    -- A step of the thread before it returns.
    through :
        (place : ℕ → Place) (i : ℕ) (ev : VscpEvent) (p : Place)
        → Returns b calls (update place i p) i ev
        → Returns b calls place i ev
    through place i ev p (time, t, reach, free, back, others) =
        (time, t, reach, free, back, λ j other. others j other ∙ update-other place i j p other)

    leaving-Returns :
        {s : Shared S} (i : ℕ) (ev : VscpEvent) (time : Text)
        → Reach S c b calls s
        → s.place i ≡ leaving ev time
        → Returns b calls s.place i ev
    leaving-Returns {s} i ev time reach a = (
      time,
      record s { holder = none; place = update s.place i idle },
      later reach (give_mutex i ev time a refl) refl,
      refl,
      update-at s.place i i idle refl,
      λ j other. update-other s.place i j idle other,
    )

    published-Returns :
        {s : Shared S} (i : ℕ) (ev : VscpEvent) (time : Text)
        → Reach S c b calls s
        → s.place i ≡ published ev time
        → Returns b calls s.place i ev
    published-Returns {s} i ev time reach a = through s.place i ev (leaving ev time) (
        leaving-Returns i ev time (later reach (add_name i ev time a refl) refl)
          (update-at s.place i i (leaving ev time) refl))

    inserted-Returns :
        {s : Shared S} (i : ℕ) (ev : VscpEvent) (time : Text)
        → Reach S c b calls s
        → s.place i ≡ inserted ev time
        → Returns b calls s.place i ev
    inserted-Returns {s} i ev time reach a = through s.place i ev (published ev time) (
        published-Returns i ev time (later reach (publish i ev time a refl) refl)
          (update-at s.place i i (published ev time) refl))

    -- Whether the INSERT succeeds or not.
    adding-Returns :
        {s : Shared S} (i : ℕ) (ev : VscpEvent)
        → Reach S c b calls s
        → s.place i ≡ adding ev
        → Returns b calls s.place i ev
    adding-Returns {s} i ev reach a = elim (Option-cases s.db) [
      | inl e ↦ absurd (ground (arith, Reach-Open op reach i (ap in_call a)))
      | inr (db, e) ↦
          elim (Option-cases (S.insert_row [] (c.guid_string ev.guid) (bytes "discovered") [] db)) [
            | inl f ↦ through s.place i ev (leaving ev []) (
                leaving-Returns i ev [] (later reach (insert_fails i ev [] db a e f refl) refl)
                  (update-at s.place i i (leaving ev []) refl))
            | inr (db', f) ↦ through s.place i ev (inserted ev []) (
                inserted-Returns i ev [] (later reach (insert_row i ev [] db db' a e f refl) refl)
                  (update-at s.place i i (inserted ev []) refl))
          ]
    ]

    holding-Returns :
        {s : Shared S} (i : ℕ) (ev : VscpEvent)
        → Reach S c b calls s
        → s.place i ≡ holding ev
        → Returns b calls s.place i ev
    holding-Returns {s} i ev reach a =
        let known = is_known (c.guid_string ev.guid) s.names in
        let next = later reach (find i ev a refl) refl in
        through s.place i ev (if known then leaving ev [] else adding ev) (elim (Bool-cases known) [
          | inl e ↦
              leaving-Returns i ev [] next (
                update-at s.place i i (if known then leaving ev [] else adding ev) refl ∙ rw e refl)
          | inr e ↦
              adding-Returns i ev next (
                update-at s.place i i (if known then leaving ev [] else adding ev) refl ∙ rw e refl)
        ])

    arrived-Returns :
        {s : Shared S} (i : ℕ) (ev : VscpEvent)
        → Reach S c b calls s
        → s.place i ≡ arrived ev
        → s.holder ≡ none
        → Returns b calls s.place i ev
    arrived-Returns {s} i ev reach a free = through s.place i ev (holding ev) (
        holding-Returns i ev (later reach (take_mutex i ev a free refl) refl)
          (update-at s.place i i (holding ev) refl))

    -- The thread with the mutex, wherever it is.
    inside-Returns :
        {s : Shared S} (i : ℕ) (ev : VscpEvent) (p : Place)
        → Reach S c b calls s
        → s.place i ≡ p
        → inside p ≡ true
        → event_of p ≡ some ev
        → Returns b calls s.place i ev
    inside-Returns i ev idle reach a e f = absurd (ground (arith, e))
    inside-Returns i ev (arrived ev') reach a e f = absurd (ground (arith, e))
    inside-Returns i ev (holding ev') reach a e f =
        holding-Returns i ev reach (a ∙ ap holding (some-inj f))
    inside-Returns i ev (adding ev') reach a e f =
        adding-Returns i ev reach (a ∙ ap adding (some-inj f))
    inside-Returns i ev (inserted ev' time) reach a e f =
        inserted-Returns i ev time reach (a ∙ ap (λ v. inserted v time) (some-inj f))
    inside-Returns i ev (published ev' time) reach a e f =
        published-Returns i ev time reach (a ∙ ap (λ v. published v time) (some-inj f))
    inside-Returns i ev (leaving ev' time) reach a e f =
        leaving-Returns i ev time reach (a ∙ ap (λ v. leaving v time) (some-inj f))

  -- A place inside has an event.
  inside-event : (p : Place) → inside p ≡ true → (ev : VscpEvent) × (event_of p ≡ some ev)
  inside-event idle e = absurd (ground (arith, e))
  inside-event (arrived ev) e = (ev, refl)
  inside-event (holding ev) e = (ev, refl)
  inside-event (adding ev) e = (ev, refl)
  inside-event (inserted ev time) e = (ev, refl)
  inside-event (published ev time) e = (ev, refl)
  inside-event (leaving ev time) e = (ev, refl)

  outside-arrived :
      (p : Place) {ev : VscpEvent} → inside p ≡ false → event_of p ≡ some ev → p ≡ arrived ev
  outside-arrived idle e f = absurd (ground (arith, f))
  outside-arrived (arrived ev') e f = ap arrived (some-inj f)
  outside-arrived (holding ev') e f = absurd (ground (arith, e))
  outside-arrived (adding ev') e f = absurd (ground (arith, e))
  outside-arrived (inserted ev' time) e f = absurd (ground (arith, e))
  outside-arrived (published ev' time) e f = absurd (ground (arith, e))
  outside-arrived (leaving ev' time) e f = absurd (ground (arith, e))

  -- A call that waits: if another thread has the mutex, that one returns first.
  waiting-Returns :
      (r : Registry S) {calls : List Finished} {s : Shared S} (i : ℕ) (ev : VscpEvent)
      → Reach S c (quiet S r) calls s
      → s.place i ≡ arrived ev
      → (earlier : List Finished) × ((place : ℕ → Place) × Returns s earlier place i ev)
  waiting-Returns r {calls} {s} i ev reach a = elim (Option-cases s.holder) [
    | inl free ↦
        ([], (s.place, arrived-Returns s (Reach-Open (quiet-Open r) reach) [] i ev start a free))
    | inr (j, held) ↦
        let inv = Reach-Inv S c r reach in
        let op = Reach-Open (quiet-Open r) reach in
        let at_j : inside (s.place j) ≡ true = inv.inside_holds j ∙ ground arith in
        let (ev', f) = inside-event (s.place j) at_j in
        let (time, t, reach', free, back, others) =
          inside-Returns s op [] j ev' (s.place j) start refl at_j f in
        let other : (j == i) ≡ false = ground (arith, inv.inside_holds i) in
        let still = others i other ∙ a in
        ((ev', time) ∷ [], (t.place, arrived-Returns s op _ i ev reach' still free))
  ]

  -- Wherever a thread is in its call of discovery, and wherever the others are in theirs: there are
  -- steps from there on which the call returns, having handled its event, with nobody left in the
  -- mutex. So neither an INSERT that fails nor the mutex leaves a device thread stuck.
  pub discovery_returns :
      (r : Registry S) (calls : List Finished) (s : Shared S) (i : ℕ) (ev : VscpEvent)
      → Reach S c (quiet S r) calls s
      → event_of (s.place i) ≡ some ev
      → (earlier : List Finished) × (time : Text) × (t : Shared S) × Reach S c s
          (earlier ++ ((ev, time) ∷ []))
          t
        × (t.holder ≡ none)
        × (t.place i ≡ idle)
  discovery_returns r calls s i ev reach e = elim (Bool-cases (inside (s.place i))) [
    | inl at_i ↦
        let (time, t, reach', free, back, others) =
          inside-Returns s (Reach-Open (quiet-Open r) reach) [] i ev (s.place i) start refl at_i
            e in
        ([], time, t, reach', free, back)
    | inr out ↦
        let (earlier, (place, (time, t, reach', free, back, others))) =
          waiting-Returns r i ev reach (outside-arrived (s.place i) out e) in
        (earlier, time, t, reach', free, back)
  ]
