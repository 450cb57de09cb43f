-- ===== src/Discovery/Linear/Steps.antt =====
-- Each step of a thread against the calls one after the other.
use vscp_mqtt_daemon.Prelude.{
  ℕ, true, false, [], ◌∷◌, ◌++◌, Option, none, some, Text, bytes, text_eq, ◌==◌, ◌≡◌, refl, sym, ap,
  ◌∙◌, arith, if◌then◌else◌, inl, inr, Bool-cases, Option-cases,
}
use vscp_mqtt_daemon.Prelude.Dict.{insert}
use vscp_mqtt_daemon.Event.{VscpEvent}
use vscp_mqtt_daemon.Discovery.{Sqlite, Settings, is_known}
use vscp_mqtt_daemon.Prelude.Checks.{and_then}
use vscp_mqtt_daemon.Discovery.Threads.{
  Place, idle, arrived, holding, adding, inserted, published, leaving, inside, update, Shared,
  Finished, Step, pass_by, arrive, take_mutex, find, insert_row, insert_fails, publish, add_name,
  give_mutex,
}
use vscp_mqtt_daemon.Discovery.Linear.Places.{
  holds, some-inj, update-at, update-other, update-cases, update-holds,
}
use vscp_mqtt_daemon.Discovery.Linear.Calls.{
  State, view, after, announcement, Midway, after-same, discovery-known, discovery-fails,
  after-added,
}

module _ (S : Sqlite) (c : Settings) where
  -- The threads that are inside are the holder, and what is shared is that of the finished calls,
  -- or of the holder's place behind them.
  pub record Inv (h : State S) (s : Shared S) : Type 0 where
    pub inside_holds : (i : ℕ) → inside (s.place i) ≡ holds s.holder i
    pub at_rest : s.holder ≡ none → view S c s ≡ h
    pub amid : (i : ℕ) → s.holder ≡ some i → Midway S c h (s.place i) (view S c s)

  pub is_holder :
      {h : State S} {s : Shared S} (i : ℕ) → Inv h s → inside (s.place i) ≡ true → s.holder ≡ some i
  is_holder {h} {s} i inv e = elim (Option-cases s.holder) [
    | inl f ↦ ground (arith, inv.inside_holds i)
    | inr (j, f) ↦ ground (arith, inv.inside_holds i)
  ]

  -- A step of the holder that keeps it inside.
  advance :
      {h : State S} {s t : Shared S} (i : ℕ) (p : Place)
      → Inv h s
      → s.holder ≡ some i
      → t.holder ≡ s.holder
      → t.place ≡ update s.place i p
      → inside p ≡ inside (s.place i)
      → Midway S c h p (view S c t)
      → Inv h t
  advance {h} {s} {t} i p inv held same moved stays mid = record {
    inside_holds = λ j.
        ap (λ place. inside (place j)) moved
        ∙ (update-holds s.place i j p s.holder (inv.inside_holds j) stays
            ∙ ap (λ o. holds o j) (sym same));
    at_rest = λ e. absurd (ground arith);
    amid = λ j e. rw (moved, update-at s.place i j p (some-inj (sym held ∙ (sym same ∙ e)))) mid;
  }

  -- What a place inside says of the registry.
  placed :
      {h : State S} {s : Shared S} (i : ℕ) {p : Place}
      → Inv h s
      → s.place i ≡ p
      → inside p ≡ true
      → (s.holder ≡ some i) × Midway S c h p (view S c s)
  placed i inv e in_p =
      let held = is_holder i inv (ap inside e ∙ in_p) in (held, rw e at (inv.amid i held))

  -- A thread outside that stays outside.
  outside :
      {h : State S} {s : Shared S} (i : ℕ) (p : Place)
      → Inv h s
      → inside (s.place i) ≡ false
      → inside p ≡ false
      → Inv h (record s { place = update s.place i p })
  outside {h} {s} i p inv out still = record {
    inside_holds = λ j. update-holds s.place i j p s.holder (inv.inside_holds j) (still ∙ sym out);
    at_rest = inv.at_rest;
    amid = λ j e. elim (Bool-cases (i == j)) [
      | inl same ↦ absurd (ground (arith, inv.inside_holds j))
      | inr other ↦ rw (update-other s.place i j p other) (inv.amid j e)
    ];
  }

  known_fits :
      {g h : State S} (ev : VscpEvent)
      → g ≡ h
      → is_known (c.guid_string ev.guid) g.0.names ≡ is_known (c.guid_string ev.guid) h.0.names
  known_fits ev e = ap (λ v. is_known (c.guid_string ev.guid) v.0.names) e

  step-find :
      {h : State S} {s : Shared S} (i : ℕ) (ev : VscpEvent)
      → Inv h s
      → s.place i ≡ holding ev
      → Inv h (record s {
        place =
            update s.place i
              (if is_known (c.guid_string ev.guid) s.names then leaving ev [] else adding ev);
      })
  step-find {h} {s} i ev inv a =
      let (held, mid) = placed i inv a refl in
      elim (Bool-cases (is_known (c.guid_string ev.guid) s.names)) [
        | inl old ↦ rw old (
            advance i (leaving ev []) inv held refl refl (sym (ap inside a)) (
              mid
              ∙ sym (
                  after-same S c h ev []
                    (discovery-known S c h.0.db h.0.names ev [] (known_fits ev (sym mid) ∙ old)))))
        | inr new ↦ rw new (
            advance i (adding ev) inv held refl refl (sym (ap inside a))
              (mid, known_fits ev (sym mid) ∙ new))
      ]

  step-insert :
      {h : State S} {s : Shared S} (i : ℕ) (ev : VscpEvent) (time : Text) (db db' : S.Db)
      → Inv h s
      → s.place i ≡ adding ev
      → s.db ≡ some db
      → S.insert_row time (c.guid_string ev.guid) (bytes "discovered") [] db ≡ some db'
      → Inv h (record s { db = some db'; place = update s.place i (inserted ev time) })
  step-insert {h} {s} i ev time db db' inv a b f =
      let (held, (mid, new)) = placed i inv a refl in
      advance i (inserted ev time) inv held refl refl (sym (ap inside a)) (
        db,
        db',
        ap (λ v. v.0.db) (sym mid) ∙ b,
        new,
        f,
        ap (λ v. (record { db = some db'; names = v.0.names }, v.1)) mid,
      )

  step-insert_fails :
      {h : State S} {s : Shared S} (i : ℕ) (ev : VscpEvent) (time : Text) (db : S.Db)
      → Inv h s
      → s.place i ≡ adding ev
      → s.db ≡ some db
      → S.insert_row time (c.guid_string ev.guid) (bytes "discovered") [] db ≡ none
      → Inv h (record s { place = update s.place i (leaving ev time) })
  step-insert_fails {h} {s} i ev time db inv a b f =
      let (held, (mid, new)) = placed i inv a refl in
      let failed : and_then h.0.db
            (S.insert_row time (c.guid_string ev.guid) (bytes "discovered") [])
          ≡ none =
        rw (ap (λ v. v.0.db) (sym mid) ∙ b) f in
      advance i (leaving ev time) inv held refl refl (sym (ap inside a)) (
        mid
        ∙ sym (after-same S c h ev time (discovery-fails S c h.0.db h.0.names ev time new failed)))

  step-publish :
      {h : State S} {s : Shared S} (i : ℕ) (ev : VscpEvent) (time : Text)
      → Inv h s
      → s.place i ≡ inserted ev time
      → Inv h (record s {
        said = s.said ++ (announcement S c ev time ∷ []);
        place = update s.place i (published ev time);
      })
  step-publish i ev time inv a =
      let (held, (db, db', b, new, f, mid)) = placed i inv a refl in
      advance i (published ev time) inv held refl refl (sym (ap inside a))
        (db, db', b, new, f, ap (λ v. (v.0, v.1 ++ (announcement S c ev time ∷ []))) mid)

  step-add_name :
      {h : State S} {s : Shared S} (i : ℕ) (ev : VscpEvent) (time : Text)
      → Inv h s
      → s.place i ≡ published ev time
      → Inv h (record s {
        names = insert text_eq (c.guid_string ev.guid) (bytes "Discovered") s.names;
        place = update s.place i (leaving ev time);
      })
  step-add_name {h} i ev time inv a =
      let (held, (db, db', b, new, f, mid)) = placed i inv a refl in
      advance i (leaving ev time) inv held refl refl (sym (ap inside a)) (
        ap
          (λ v. (
            record {
              db = v.0.db;
              names = insert text_eq (c.guid_string ev.guid) (bytes "Discovered") v.0.names;
            },
            v.1,
          ))
          mid
        ∙ sym (after-added S c h ev time db db' new b f))

  step-take :
      {h : State S} {s : Shared S} (i : ℕ) (ev : VscpEvent)
      → Inv h s
      → s.holder ≡ none
      → Inv h (record s { holder = some i; place = update s.place i (holding ev) })
  step-take {h} {s} i ev inv free = record {
    inside_holds = λ j.
        update-cases s.place i j (holding ev) (some i) (λ e. ground arith)
          (λ e. ground (arith, inv.inside_holds j));
    at_rest = λ e. absurd (ground arith);
    amid = λ j e. rw (update-at s.place i j (holding ev) (some-inj e)) (inv.at_rest free);
  }

  step-give :
      {h : State S} {s : Shared S} (i : ℕ) (ev : VscpEvent) (time : Text)
      → Inv h s
      → s.place i ≡ leaving ev time
      → Inv (after S c (ev, time) h) (record s { holder = none; place = update s.place i idle })
  step-give {h} {s} i ev time inv a =
      let (held, mid) = placed i inv a refl in
      record {
        inside_holds = λ j.
            update-cases s.place i j idle none (λ e. refl)
              (λ e. ground (arith, inv.inside_holds j));
        at_rest = λ e. mid;
        amid = λ j e. absurd (ground arith);
      }

  abbrev pub after_finished : Option Finished → State S → State S
  after_finished none h = h
  after_finished (some call) h = after S c call h

  pub Step-Inv :
      {h : State S} {s t : Shared S} {o : Option Finished}
      → Step S c s t o
      → Inv h s
      → Inv (after_finished o h) t
  Step-Inv (pass_by a e) inv = rw e inv
  Step-Inv (arrive i ev db a b e) inv = rw e (outside i (arrived ev) inv (ap inside a) refl)
  Step-Inv (take_mutex i ev a b e) inv = rw e (step-take i ev inv b)
  Step-Inv (find i ev a e) inv = rw e (step-find i ev inv a)
  Step-Inv (insert_row i ev time db db' a b f e) inv = rw e (step-insert i ev time db db' inv a b f)
  Step-Inv (insert_fails i ev time db a b f e) inv = rw e (step-insert_fails i ev time db inv a b f)
  Step-Inv (publish i ev time a e) inv = rw e (step-publish i ev time inv a)
  Step-Inv (add_name i ev time a e) inv = rw e (step-add_name i ev time inv a)
  Step-Inv (give_mutex i ev time a e) inv = rw e (step-give i ev time inv a)
