-- ===== src/HomeAssistant/Topics/RoundTrip.antt =====
-- The command topics of src/homeassistant/topics.rs, and the serial that is read out of one.
use heliobridge.Base.{
  subst, ℕ, ◌≡◌, refl, ap, ◌↔◌, ◌≢◌, false, Option, none, some, List, [], ◌∷◌, ◌++◌, arith,
  Bool-cases, Option-cases, inl, inr, ==_iff, ==-self, length, length-append,
}
use heliobridge.Base.Text.{codes}
use heliobridge.Base.Text.Parsing.{same_text, strip_prefix}
use heliobridge.Base.Dict.{same_text_self, eq_of_same_text}
use heliobridge.HomeAssistant.Topics.{
  Topics, command, device_of_command, strip_suffix, one_level, has_slash, device_in, after_slash,
}

strip_prefix-append : (p rest : List ℕ) → strip_prefix p (p ++ rest) ≡ some rest
unfolding strip_prefix
strip_prefix-append [] rest = refl
strip_prefix-append (a ∷ p) rest = rw (==-self a) (strip_prefix-append p rest)

strip_prefix_sound : (p text rest : List ℕ) → strip_prefix p text ≡ some rest → text ≡ p ++ rest
unfolding strip_prefix
strip_prefix_sound [] text rest h = cc
strip_prefix_sound (a ∷ p) [] rest h = cc
strip_prefix_sound (a ∷ p) (b ∷ text) rest h =
    ground (arith, strip_prefix_sound p text rest, ==_iff a b)

same_text-longer : (s d : List ℕ) (a : ℕ) → same_text s (a ∷ (d ++ s)) ≡ false
same_text-longer s d a = elim (Bool-cases (same_text s (a ∷ (d ++ s)))) [
  | inl h ↦ absurd (omega (arith, ap length (eq_of_same_text s _ h), length-append d s))
  | inr h ↦ h
]

strip_suffix_self : (s : List ℕ) → strip_suffix s s ≡ some []
unfolding strip_suffix
strip_suffix_self [] = rw (same_text_self [])
strip_suffix_self (b ∷ s) = rw (same_text_self (b ∷ s))

strip_suffix-append : (s d : List ℕ) → strip_suffix s (d ++ s) ≡ some d
unfolding strip_suffix
strip_suffix-append s [] = strip_suffix_self s
strip_suffix-append s (a ∷ d) = rw (same_text-longer s d a, strip_suffix-append s d)

strip_suffix_sound : (s text d : List ℕ) → strip_suffix s text ≡ some d → text ≡ d ++ s
unfolding strip_suffix
strip_suffix_sound s [] d h = elim (Bool-cases (same_text s [])) [
  | inl q ↦ ground (arith, eq_of_same_text s [] q)
  | inr q ↦ ground arith
]
strip_suffix_sound s (a ∷ text) d h = elim (Bool-cases (same_text s (a ∷ text))) [
  | inl q ↦ ground (arith, eq_of_same_text s (a ∷ text) q)
  | inr q ↦ elim (Option-cases (strip_suffix s text)) [
    | inl n ↦ ground arith
    | inr (k, e) ↦ ground (arith, strip_suffix_sound s text k e)
  ]
]

-- A serial that a topic can name: one level of it, and not an empty one.
pub record IsLevel (device : List ℕ) : Type 0 where
  pub named : device ≢ []
  pub one : has_slash device ≡ false

one_level_iff : (d e : List ℕ) → (one_level d ≡ some e) ↔ (IsLevel d × (d ≡ e))
unfolding one_level
one_level_iff [] e = (λ h. cc, λ v. absurd (v.0.named refl))
one_level_iff (a ∷ d) e = (forth, back)
  where
    forth : one_level (a ∷ d) ≡ some e → IsLevel (a ∷ d) × ((a ∷ d) ≡ e)
    forth h = elim (Bool-cases (has_slash (a ∷ d))) [
      | inl q ↦ ground arith
      | inr q ↦ (record { named = λ n. cc; one = q }, ground arith)
    ]

    back : IsLevel (a ∷ d) × ((a ∷ d) ≡ e) → one_level (a ∷ d) ≡ some e
    back (v, q) = rw v.one (ap some q)

device_in_sound :
    (o : Option (List ℕ)) (device : List ℕ)
    → device_in o ≡ some device
    → IsLevel device × (o ≡ some (device ++ codes "/set"))
unfolding device_in
device_in_sound none device h = cc
device_in_sound (some rest) device h = elim (Option-cases (strip_suffix (codes "/set") rest)) [
  | inl q ↦ ground arith
  | inr (d, q) ↦
      let (v, e) = (one_level_iff d device).0 (rw (q, device_in) at h) in
      (subst IsLevel e v, ap some (rw (← e) (strip_suffix_sound (codes "/set") rest d q)))
]

device_in-append :
    (device : List ℕ) → IsLevel device → device_in (some (device ++ codes "/set")) ≡ some device
unfolding device_in
device_in-append device v =
    rw (strip_suffix-append (codes "/set") device, device_in)
      ((one_level_iff device device).1 (v, refl))

after_slash_sound :
    (o : Option (List ℕ)) (rest : List ℕ) → after_slash o ≡ some rest → o ≡ some (0x2f ∷ rest)
unfolding after_slash
after_slash_sound none rest h = cc
after_slash_sound (some text) rest h = ap some (strip_prefix_sound (codes "/") text rest h)

after_first :
    (device : List ℕ)
    → IsLevel device
    → device_in (after_slash (some (0x2f ∷ (device ++ codes "/set")))) ≡ some device
unfolding after_slash strip_prefix
after_first device v = device_in-append device v

-- A topic is read as a command for a device exactly if it is that device's command topic and the
-- serial is one level that is not empty.
pub device_of_command_iff :
    (t : Topics) (topic device : List ℕ)
    → (device_of_command t topic ≡ some device) ↔ (IsLevel device × (topic ≡ command t device))
unfolding device_of_command command
device_of_command_iff t topic device = (forth, back)
  where
    forth : device_of_command t topic ≡ some device → IsLevel device × (topic ≡ command t device)
    forth h =
        let (v, e) = device_in_sound (after_slash (strip_prefix t.base topic)) device h in
        (v, strip_prefix_sound t.base topic _ (after_slash_sound (strip_prefix t.base topic) _ e))

    back : IsLevel device × (topic ≡ command t device) → device_of_command t topic ≡ some device
    back (v, q) =
        rw (q, strip_prefix-append t.base (0x2f ∷ (device ++ codes "/set"))) (after_first device v)
