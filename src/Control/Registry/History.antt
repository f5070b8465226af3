-- ===== src/Control/Registry/History.antt =====
-- The registry of src/control.rs over a history of sessions that arrive and end.
use heliobridge.Base.{
  ℕ, suc, ◌+◌, ◌≤◌, ◌≡◌, refl, ◌∙◌, Bool, true, false, Option, none, some, List, [], ◌∷◌, ◌==◌,
  lt→ltb, ==_iff, if◌then◌else◌, arith, Bool-cases, inl, inr, ◌||◌, ◌&&◌,
}
use heliobridge.Base.Text.Parsing.{same_text}
use heliobridge.Base.Dict.{eq_of_same_text, get, get-insert, get-remove, same_text_iff}
use heliobridge.Control.Registry.{
  Connected, SessionId, Registry, last_session, registered, same_connected, announce, session,
  register, insert_session, remove_session, drop_registration, default, session_in,
}

pub data Event (H : Type 0) : Type 0 where
  arrive : List ℕ → H → Event H
  -- the end of the registration that holds this session
  leave : List ℕ → SessionId → Event H

same_connected_sound : (xs ys : Connected) → same_connected xs ys ≡ true → xs ≡ ys
unfolding same_connected
same_connected_sound [] [] h = refl
same_connected_sound [] (y ∷ ys) h = cc
same_connected_sound (x ∷ xs) [] h = cc
same_connected_sound ((d, s) ∷ xs) ((e, t) ∷ ys) h =
    ground (arith, same_text_iff d e, ==_iff s t, same_connected_sound xs ys)

module _ {H : Type 0} where
  abbrev pub step : Event H → Registry H → Registry H
  step (arrive device h) r = (register device h r).0
  step (leave device mine) r = drop_registration device (some mine) r

  abbrev pub run : Registry H → List (Event H) → Registry H
  run r [] = r
  run r (e ∷ es) = run (step e r) es

  abbrev pub again : List ℕ → List (Event H) → Bool
  again d [] = false
  again d (arrive e h ∷ es) = same_text e d || again d es
  again d (leave e s ∷ es) = again d es

  abbrev pub ended : List ℕ → SessionId → List (Event H) → Bool
  ended d n [] = false
  ended d n (arrive e h ∷ es) = ended d n es
  ended d n (leave e s ∷ es) = (same_text e d && s == n) || ended d n es

  -- The last session of a device in a history, if it has not ended since; sessions are numbered in
  -- the order of their arrival, from `n`.
  abbrev pub stands : List ℕ → SessionId → List (Event H) → Option (SessionId × H)
  stands d n [] = none
  stands d n (arrive e h ∷ es) =
      if same_text e d && (if again d es then false else true)
      then if ended d n es then none else some (n, h)
      else stands d (n + 1) es
  stands d n (leave e s ∷ es) = stands d n es

  abbrev kept : List ℕ → List (Event H) → Option (SessionId × H) → Option (SessionId × H)
  kept d es none = none
  kept d es (some (s, h)) = if ended d s es then none else some (s, h)

  entries-announce : (r : Registry H) → (announce r).entries ≡ r.entries
  unfolding announce
  entries-announce r = ground arith

  connected-announce : (r : Registry H) → (announce r).connected ≡ registered (announce r).entries
  unfolding announce
  connected-announce r = elim (Bool-cases (same_connected r.connected (registered r.entries))) [
    | inl q ↦ rw q (same_connected_sound _ _ q)
    | inr q ↦ rw q
  ]

  next-announce : (r : Registry H) → (announce r).next_session ≡ r.next_session
  unfolding announce
  next-announce r = ground arith

  session-announce : (r : Registry H) (d : List ℕ) → session (announce r) d ≡ session r d
  unfolding session
  session-announce r d = rw (entries-announce r)

  session-register :
      (e d : List ℕ) (h : H) (r : Registry H)
      → suc r.next_session ≤ last_session
      → session (register e h r).0 d
        ≡ (if same_text e d then some (r.next_session, h) else session r d)
  unfolding session insert_session register
  session-register e d h r room =
      rw (session-announce, lt→ltb _ _ room) (get-insert e d (r.next_session, h) r.entries)

  next-register :
      (e : List ℕ) (h : H) (r : Registry H)
      → suc r.next_session ≤ last_session
      → (register e h r).0.next_session ≡ r.next_session + 1
  unfolding insert_session register
  next-register e h r room = rw (next-announce, lt→ltb _ _ room)

  session-drop :
      (e d : List ℕ) (s : SessionId) (r : Registry H)
      → session (drop_registration e (some s) r) d ≡ (
          if session_in s (session r e)
          then if same_text e d then none else session r d
          else session r d)
  unfolding drop_registration session remove_session
  session-drop e d s r = rw session-announce (elim (Bool-cases (session_in s (get e r.entries))) [
    | inl q ↦ rw q (get-remove e d r.entries)
    | inr q ↦ rw q
  ])

  next-drop :
      (e : List ℕ) (s : SessionId) (r : Registry H)
      → (drop_registration e (some s) r).next_session ≡ r.next_session
  unfolding drop_registration remove_session
  next-drop e s r =
      rw next-announce
        (elim (Bool-cases (session_in s (session r e))) [ inl q ↦ rw q | inr q ↦ rw q ])

  stands-none :
      (d : List ℕ) (n : SessionId) (es : List (Event H)) → again d es ≡ false → stands d n es ≡ none
  stands-none d n [] h = refl
  stands-none d n (arrive e x ∷ es) h = ground (arith, stands-none d (n + 1) es)
  stands-none d n (leave e s ∷ es) h = stands-none d n es h

  abbrev arrivals : List (Event H) → ℕ
  arrivals [] = 0
  arrivals (arrive e h ∷ es) = suc (arrivals es)
  arrivals (leave e s ∷ es) = arrivals es

  kept_same :
      (d e : List ℕ) (s : SessionId) (es : List (Event H)) (y : Option (SessionId × H))
      → same_text e d ≡ true
      → kept d es (if session_in s y then none else y) ≡ kept d (leave e s ∷ es) y
  kept_same d e s es none q = refl
  kept_same d e s es (some (n, g)) q = ground (arith, ==_iff n s, ==_iff s n)

  kept_other :
      (d e : List ℕ) (s : SessionId) (es : List (Event H)) (x y : Option (SessionId × H))
      → same_text e d ≡ false
      → kept d es (if session_in s x then y else y) ≡ kept d (leave e s ∷ es) y
  kept_other d e s es x none q = ground arith
  kept_other d e s es x (some (n, g)) q = ground arith

  kept_leave :
      (d e : List ℕ) (s : SessionId) (es : List (Event H)) (x y : Option (SessionId × H))
      → (same_text e d ≡ true → x ≡ y)
      → kept d es (if session_in s x then if same_text e d then none else y else y)
        ≡ kept d (leave e s ∷ es) y
  kept_leave d e s es x y h = elim (Bool-cases (same_text e d)) [
    | inl q ↦ rw (h q, q) (kept_same d e s es y q)
    | inr q ↦ rw q (kept_other d e s es x y q)
  ]

  session-run_from :
      (d : List ℕ) (es : List (Event H)) (r : Registry H)
      → r.next_session + arrivals es ≤ last_session
      → session (run r es) d
        ≡ (if again d es then stands d r.next_session es else kept d es (session r d))
  unfolding session
  session-run_from d [] r room = kept_nil (session r d)
    where
      kept_nil : (y : Option (SessionId × H)) → y ≡ kept d [] y
      kept_nil none = refl
      kept_nil (some (n, g)) = refl
  session-run_from d (arrive e h ∷ es) r room =
      let more : suc r.next_session ≤ last_session = omega arith in
      session-run_from d es (register e h r).0 (omega (arith, next-register e h r more))
      ∙ rw (next-register e h r more, session-register e d h r more)
          (elim (Bool-cases (again d es)) [
            | inl q ↦ rw q (elim (Bool-cases (same_text e d)) [ inl p ↦ rw p | inr p ↦ rw p ])
            | inr q ↦ rw q (elim (Bool-cases (same_text e d)) [
              | inl p ↦ rw p
              | inr p ↦ rw p (kept_arrive (session r d))
            ])
          ])
    where
      kept_arrive : (y : Option (SessionId × H)) → kept d es y ≡ kept d (arrive e h ∷ es) y
      kept_arrive none = refl
      kept_arrive (some (n, g)) = refl
  session-run_from d (leave e s ∷ es) r room =
      session-run_from d es (drop_registration e (some s) r) (omega (arith, next-drop e s r))
      ∙ rw (next-drop e s r, session-drop e d s r)
          (elim (Bool-cases (again d es)) [
            | inl q ↦ rw q
            | inr q ↦
                rw q (
                  kept_leave d e s es (session r e) (session r d) (λ p. rw (eq_of_same_text e d p)))
          ])

  -- From an empty registry, each device is served by the session that arrived last for it, unless
  -- that very session has ended since, whatever else arrived or ended, in whatever order, if there
  -- were ids enough.
  pub session-run :
      (d : List ℕ) (es : List (Event H))
      → arrivals es ≤ last_session
      → session (run default es) d ≡ stands d 0 es
  unfolding session get
  session-run d es room =
      session-run_from d es default (omega arith)
      ∙ elim (Bool-cases (again d es)) [ inl q ↦ rw q | inr q ↦ rw (q, stands-none d 0 es q) ]

  -- What watchers are told is the list of the devices that are served, after any history.
  pub connected-run :
      (e : Event H) (es : List (Event H)) (r : Registry H)
      → (run r (e ∷ es)).connected ≡ registered (run r (e ∷ es)).entries
  unfolding register drop_registration
  connected-run (arrive d h) [] r = connected-announce (insert_session d h r)
  connected-run (leave d s) [] r = connected-announce (remove_session d (some s) r)
  connected-run e (f ∷ es) r = connected-run f es (step e r)
