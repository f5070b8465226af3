-- ===== src/HomeAssistant/Publisher/Linked.antt =====
-- Which session each device is linked to after src/homeassistant/publisher.rs has linked them.
use heliobridge.Base.{
  ℕ, ◌≡◌, refl, ap, ◌∙◌, true, false, ◌||◌, Option, none, some, List, [], ◌∷◌, map, any,
  if◌then◌else◌, arith, Bool-cases, inl, inr, ==_iff,
}
use heliobridge.Base.Dict.{get, get-insert, same_text_self, eq_of_same_text}
use heliobridge.Base.Text.Parsing.{same_text}
use heliobridge.Control.Registry.{
  SessionId, Registry, Connected, session, registered, sorted_insert, contains, precedes,
}
use heliobridge.Control.Registry.History.{Event, run, connected-run}
use heliobridge.HomeAssistant.Publisher.{
  Publisher, Surroundings, spawn, link_session, link_each, link_devices, device_of, is_linked,
}

contains-sorted_insert :
    (entry : List ℕ × SessionId) (c : Connected) (d : List ℕ)
    → contains (sorted_insert entry c) d ≡ (same_text entry.0 d || contains c d)
unfolding contains sorted_insert
contains-sorted_insert (e, s) [] d = refl
contains-sorted_insert (e, s) ((f, t) ∷ more) d = elim (Bool-cases (precedes e f)) [
  | inl y ↦ rw y
  | inr n ↦ rw (n, contains-sorted_insert (e, s) more d) (ground arith)
]

module _ {H : Type 0} (w : Surroundings H) where
  -- a device that the registry serves is one of those that it announces
  contains-registered :
      (entries : List (List ℕ × (SessionId × H))) (d : List ℕ) (x : SessionId × H)
      → get d entries ≡ some x
      → contains (registered entries) d ≡ true
  unfolding get registered
  contains-registered [] d x h = cc
  contains-registered ((e, (s, g)) ∷ more) d x h =
      contains-sorted_insert (e, s) (registered more) d ∙ elim (Bool-cases (same_text e d)) [
        | inl y ↦ rw y
        | inr n ↦ rw n (contains-registered more d x (rw n at h))
      ]

  is_linked_sound : (o : Option SessionId) (s : SessionId) → is_linked o s ≡ true → o ≡ some s
  is_linked_sound none s h = cc
  is_linked_sound (some t) s h = ap some ((==_iff t s).0 h)

  linked-spawn :
      (e d : List ℕ) (s : SessionId) (h : H) (p : Publisher H)
      → get d (spawn e s h p).linked ≡ (if same_text e d then some s else get d p.linked)
  unfolding spawn
  linked-spawn e d s h p = get-insert e d s p.linked

  link_session_self :
      (d : List ℕ) (s : SessionId) (h : H) (p : Publisher H)
      → w.is_closed h ≡ false
      → get d (link_session w d (some (s, h)) p).linked ≡ some s
  unfolding link_session
  link_session_self d s h p o = elim (Bool-cases (is_linked (get d p.linked) s)) [
    | inl y ↦ rw y (is_linked_sound (get d p.linked) s y)
    | inr n ↦ rw (n, o, linked-spawn d d s h p, same_text_self d)
  ]

  link_session-kept :
      (e d : List ℕ) (o : Option (SessionId × H)) (p : Publisher H)
      → same_text e d ≡ false
      → get d (link_session w e o p).linked ≡ get d p.linked
  unfolding link_session
  link_session-kept e d none p n = refl
  link_session-kept e d (some (t, h)) p n = elim (Bool-cases (is_linked (get e p.linked) t)) [
    | inl y ↦ rw y
    | inr m ↦ elim (Bool-cases (w.is_closed h)) [
      | inl c ↦ rw (m, c)
      | inr c ↦ rw (m, c, linked-spawn e d t h p, n)
    ]
  ]

  module _ (r : Registry H) (d : List ℕ) (s : SessionId) (h : H)
      (served : session r d ≡ some (s, h)) (is_open : w.is_closed h ≡ false) where
    link_session-stays :
        (e : List ℕ) (p : Publisher H)
        → get d p.linked ≡ some s
        → get d (link_session w e (session r e) p).linked ≡ some s
    link_session-stays e p l = elim (Bool-cases (same_text e d)) [
      | inl y ↦ rw (eq_of_same_text e d y, served) (link_session_self d s h p is_open)
      | inr n ↦ link_session-kept e d (session r e) p n ∙ l
    ]

    link_each-stays :
        (ds : List (List ℕ)) (p : Publisher H)
        → get d p.linked ≡ some s
        → get d (link_each w r ds p).linked ≡ some s
    unfolding link_each
    link_each-stays [] p l = l
    link_each-stays (e ∷ ds) p l =
        link_each-stays ds (link_session w e (session r e) p) (link_session-stays e p l)

    link_each-linked :
        (ds : List (List ℕ)) (p : Publisher H)
        → any (λ e. same_text e d) ds ≡ true
        → get d (link_each w r ds p).linked ≡ some s
    unfolding link_each
    link_each-linked [] p m = cc
    link_each-linked (e ∷ ds) p m = elim (Bool-cases (same_text e d)) [
      | inl y ↦
          link_each-stays ds (link_session w e (session r e) p)
            (rw (eq_of_same_text e d y, served) (link_session_self d s h p is_open))
      | inr n ↦ link_each-linked ds (link_session w e (session r e) p) (rw n at m)
    ]

  contains-devices :
      (c : Connected) (d : List ℕ) → any (λ e. same_text e d) (map device_of c) ≡ contains c d
  unfolding contains
  contains-devices [] d = refl
  contains-devices ((e, s) ∷ c) d = rw (contains-devices c d)

  -- Whatever sessions have arrived and ended, a publisher that has seen what the registry announced
  -- last links each device whose session is open to that session, and to no earlier one.
  pub linked-link_devices :
      (before : Registry H) (e : Event H) (es : List (Event H)) (p : Publisher H) (d : List ℕ)
      (s : SessionId) (h : H)
      → p.registry ≡ run before (e ∷ es)
      → p.devices ≡ p.registry.connected
      → session p.registry d ≡ some (s, h)
      → w.is_closed h ≡ false
      → get d (link_devices w p).linked ≡ some s
  unfolding link_devices session
  linked-link_devices before e es p d s h reached seen served is_open =
      let known : p.registry.connected ≡ registered p.registry.entries =
        rw reached (connected-run e es before) in
      link_each-linked p.registry d s h served is_open (map device_of p.devices) p (
        contains-devices p.devices d
        ∙ ap (λ c. contains c d) (seen ∙ known)
        ∙ contains-registered p.registry.entries d (s, h) served)
