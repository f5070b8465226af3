-- ===== src/HomeAssistant/Link/Presence.antt =====
-- What a link of src/homeassistant/publisher.rs has said of the device's presence, over any run.
use heliobridge.Base.{
  ℕ, ◌≡◌, refl, sym, ap, ◌∙◌, Bool, true, false, Option, none, some, List, [], ◌∷◌, ◌++◌, All,
  if◌then◌else◌, inl, inr, ◌==◌, ◌⊎◌,
}
use heliobridge.Base.Dict.{same_text_self}
use heliobridge.Base.Text.Parsing.{same_text}
use heliobridge.HomeAssistant.Views.{TelemetryView}
use heliobridge.HomeAssistant.Link.{Source, Publication, retained, Surroundings, Link}
use heliobridge.HomeAssistant.Link.Says.{
  publish, publish_over, say_availability, say_status, publish_presence, presence_text,
  settings_changed, announce, publish_telemetry,
}
use heliobridge.HomeAssistant.Link.Turns.{
  republish, heard, telemetry_arrived, telemetry_again, fresh, went_quiet, quiet_at, is_due, Woke,
  generation_changed, telemetry_changed, settings_were, identity_was, timer, turn, run,
}
use heliobridge.HomeAssistant.Link.Talks.{
  presence_topic, IsApart, Talks, Talks-trans, publish-Talks, announce-Talks, shared-IsElsewhere,
}
use heliobridge.HomeAssistant.Link.Speech.{
  say_update-Talks, say_firmware-Talks, publish_config-Talks, publish_telemetry-Talks,
  publish_gates-Talks, settings_changed-Talks, telemetry_again-Talks,
}

-- The last payload on a topic among publications, or what it was before them.
abbrev pub last_on : List ℕ → Option (List ℕ) → List Publication → Option (List ℕ)
last_on topic before [] = before
last_on topic before (p ∷ more) =
    last_on topic (if same_text p.topic topic then some p.payload else before) more

last_on-append :
    (topic : List ℕ) (before : Option (List ℕ)) (xs ys : List Publication)
    → last_on topic before (xs ++ ys) ≡ last_on topic (last_on topic before xs) ys
last_on-append topic before [] ys = refl
last_on-append topic before (p ∷ xs) ys =
    last_on-append topic (if same_text p.topic topic then some p.payload else before) xs ys

module _ (w : Surroundings) where
  last_on-apart :
      (before : Option (List ℕ)) (ps : List Publication)
      → All (IsApart w) ps
      → last_on (presence_topic w) before ps ≡ before
  last_on-apart before [] h = refl
  last_on-apart before (p ∷ ps) h = rw h.0 (last_on-apart before ps h.1)

  -- Once the broker was reached, the last that it was told of the device is what the link holds.
  abbrev pub IsTold : Link → Type 0
  IsTold l =
      (l.published_for ≡ none)
      ⊎ (last_on (presence_topic w) none l.said ≡ some (presence_text l.present))

  Talks-IsTold : {l m : Link} → Talks w l m → IsTold l → IsTold m
  Talks-IsTold t (inl n) = inl (t.published_for ∙ n)
  Talks-IsTold {l} {m} t (inr e) = inr (
      ap (last_on (presence_topic w) none) t.grown
      ∙ last_on-append (presence_topic w) none l.said t.more
      ∙ last_on-apart _ t.more t.apart
      ∙ e
      ∙ ap (λ b. some (presence_text b)) (sym t.present))

  publish_over-IsTold :
      (o : Option ℕ) (l : Link) (p : Publication)
      → l.published_for ≡ o
      → p.topic ≡ presence_topic w
      → p.payload ≡ presence_text l.present
      → IsTold (publish_over o p l)
  unfolding publish_over
  publish_over-IsTold none l p e t q = inl e
  publish_over-IsTold (some g) l p e t q = inr (
      last_on-append (presence_topic w) none l.said (p ∷ [])
      ∙ rw (t, same_text_self (presence_topic w)) (ap some q))

  say_availability-IsTold : (l : Link) → IsTold (say_availability w l)
  unfolding say_availability publish retained
  say_availability-IsTold l = publish_over-IsTold l.published_for l _ refl refl refl

  pub say_status-Talks : (l : Link) → Talks w l (say_status w l)
  unfolding say_status retained
  say_status-Talks l =
      Talks-trans w (publish-Talks w _ l (shared-IsElsewhere w Source.status))
        (Talks-trans w (say_update-Talks w _ _) (say_firmware-Talks w _ _))

  publish_presence-IsTold : (l : Link) → IsTold (publish_presence w l)
  unfolding publish_presence
  publish_presence-IsTold l =
      Talks-IsTold (say_status-Talks (say_availability w l)) (say_availability-IsTold l)

  if-IsTold : (l m : Link) (b : Bool) → IsTold l → IsTold m → IsTold (if b then l else m)
  if-IsTold l m true x y = x
  if-IsTold l m false x y = y

  heard-IsTold :
      (now : ℕ) (stamp : List ℕ) (o : Option TelemetryView) (l : Link)
      → IsTold l
      → IsTold (heard w now stamp o l)
  unfolding heard
  heard-IsTold now stamp none l h = h
  heard-IsTold now stamp (some view) l h =
      let noted = announce w (record l { arrived = some now; last_update = some stamp }) in
      let here = publish_presence w (record noted { present = true }) in
      Talks-IsTold
        (Talks-trans w (publish_telemetry-Talks w now view here)
          (publish_gates-Talks w (publish_telemetry w now view here)))
        (publish_presence-IsTold (record noted { present = true }))

  republish-IsTold :
      (now generation : ℕ) (l : Link) → IsTold l → IsTold (republish w now generation l)
  unfolding republish
  republish-IsTold now generation l h =
      let cleared = record l { announced = none; published_for = some generation } in
      let here = publish_presence w (announce w cleared) in
      let told = settings_changed w here in
      if-IsTold l (telemetry_again w now (fresh w now told) told.telemetry told) (generation == 0) h
        (Talks-IsTold
          (Talks-trans w (settings_changed-Talks w here)
            (telemetry_again-Talks w now (fresh w now told) told.telemetry told))
          (publish_presence-IsTold (announce w cleared)))

  went_quiet-IsTold : (l : Link) → IsTold l → IsTold (went_quiet w l)
  unfolding went_quiet
  went_quiet-IsTold l h =
      if-IsTold (publish_presence w (record l { present = false })) l l.present
        (publish_presence-IsTold (record l { present = false })) h

  turn-IsTold : (woke : Woke) (l : Link) → IsTold l → IsTold (turn w woke l)
  unfolding turn telemetry_arrived
  turn-IsTold (generation_changed now g) l h = republish-IsTold now g l h
  turn-IsTold (telemetry_changed now stamp view) l h =
      heard-IsTold now stamp view (record l { telemetry = view }) h
  turn-IsTold (settings_were views) l h =
      Talks-IsTold (settings_changed-Talks w (record l { settings = views })) h
  turn-IsTold (identity_was report) l h =
      Talks-IsTold
        (Talks-trans w (announce-Talks w (record l { identity = report }))
          (publish_config-Talks w (announce w (record l { identity = report }))))
        h
  turn-IsTold (timer now) l h =
      if-IsTold (went_quiet w l) l (is_due now (quiet_at w l)) (went_quiet-IsTold l h) h

  -- Whatever wakes a link, and in whatever order, once the broker was reached the last payload on the
  -- topic of the device's availability says what the link holds, if that was so at its start.
  pub run-IsTold : (wokes : List Woke) (l : Link) → IsTold l → IsTold (run w wokes l)
  unfolding run
  run-IsTold [] l h = h
  run-IsTold (woke ∷ more) l h = run-IsTold more (turn w woke l) (turn-IsTold woke l h)
