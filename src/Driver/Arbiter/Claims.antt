-- ===== src/Driver/Arbiter/Claims.antt =====
-- `CloudCommands` of src/driver/arbiter.rs: which answers are credited to the cloud.
use heliobridge.Base.{
  sym, suc, List, subst, ℕ, ◌+◌, ◌-◌, ◌≤◌, ◌<◌, ◌≡◌, inl, inr, true, false, some, none, [], ◌∷◌,
  ◌++◌, arith, All, Option-cases, length-append,
}
use heliobridge.Model.{Register}
use heliobridge.Driver.Arbiter.Queue.{
  expire-IsLive, length-expire, take_first-Taken, length-take_first, take_first-All, Has,
  Has-append_self, Has-append, Has-expire, Has-take_first, take_first-Has, covers-apart,
  remember-none, remember-some,
}
use heliobridge.Driver.Arbiter.{
  unknown, answered, commanded, cloud, outstanding, remember, Originator, Intent, claim, Pending,
  CloudCommands, expire, covers, take_first, command_ttl,
}

-- An entry that answers the registers `s` to `e` at the time `now`.
pub record Answers (s e : Register) (now : ℕ) (p : Pending) : Type 0 where
  pub starts : p.from ≤ s
  pub ends : e ≤ p.to
  pub fresh : now - p.at < command_ttl

-- An answer is credited to the cloud only against a command that is still outstanding, whose
-- registers hold the answer's and which is younger than the limit; that command, the oldest such
-- one, is struck off, and the other live ones stay in their order.
pub claim_sound :
    (i : Intent) (now : ℕ) (q left : CloudCommands)
    → claim i now q ≡ (cloud, left)
    → (r : Register × Register) × (answered i ≡ some r)
      × (before : CloudCommands) × (p : Pending) × (after : CloudCommands) × (expire now q
          ≡ before ++ (p ∷ after))
      × (left ≡ before ++ after)
      × Answers r.0 r.1 now p
      × All (λ x. covers r.0 r.1 x ≡ false) before
unfolding claim
claim_sound i now q left h = elim (Option-cases (answered i)) [
  | inl n ↦ absurd (ground arith)
  | inr ((s, e), a) ↦ elim (Option-cases (take_first s e (expire now q))) [
    | inl n ↦ absurd (ground arith)
    | inr (l, t) ↦
        let k = take_first-Taken s e (expire now q) l t in
        let live = take_first-All (λ p. now - p.at < command_ttl) s e _ l (expire-IsLive now q) k in
        (
          (s, e),
          a,
          k.before,
          k.entry,
          k.after,
          k.was,
          ground (arith, k.leaves),
          ground (arith, k.covering),
          k.first,
        )
  ]
]

-- What happens to the queue: the cloud sends a command, or the device's answer is attributed.
pub data Event : Type 0 where
  sends : Intent → ℕ → Event
  answers : Intent → ℕ → Event

abbrev pub step : Event → CloudCommands → CloudCommands
step (sends i t) q = remember i t q
step (answers i t) q = (claim i t q).1

-- The queue after what happens, in order.
abbrev pub after : List Event → CloudCommands → CloudCommands
after [] q = q
after (e ∷ es) q = after es (step e q)

abbrev time_of : Event → ℕ
time_of (sends i t) = t
time_of (answers i t) = t

-- Nothing that happens is an answer for registers inside these.
abbrev pub IsApart : Register → Register → Event → Type 0
IsApart s e (sends i t) = Unit
IsApart s e (answers i t) =
    (r : Register × Register) → answered i ≡ some r → ¬ ((s ≤ r.0) × (r.1 ≤ e))

-- What happens by `now` and leaves a command for these registers unanswered.
abbrev pub Spares : Register → Register → ℕ → Event → Type 0
Spares s e now event = (time_of event ≤ now) × IsApart s e event

-- An entry that is live, and spared by what happens, stays in the queue.
Has-step :
    (x : Pending) (now : ℕ) (event : Event) (q : CloudCommands)
    → now - x.at < command_ttl
    → Spares x.from x.to now event
    → Has x q
    → Has x (step event q)
unfolding remember claim
Has-step x now (sends i t) q live spared h =
    let kept : Has x (expire t q) = Has-expire x t q (omega (arith, spared.0)) h in
    elim (Option-cases (commanded i)) [
      | inl n ↦ subst (Has x) (sym (remember-none i t q n)) h
      | inr (r, c) ↦
          subst (Has x) (sym (remember-some i t q r c)) (Has-append x _ (expire t q) kept)
    ]
Has-step x now (answers i t) q live spared h =
    let kept : Has x (expire t q) = Has-expire x t q (omega (arith, spared.0)) h in
    elim (Option-cases (answered i)) [
      | inl n ↦ subst (Has x) (ground arith) h
      | inr (r, a) ↦ elim (Option-cases (take_first r.0 r.1 (expire t q))) [
        | inl n ↦ subst (Has x) (ground arith) kept
        | inr (left, k) ↦ subst (Has x) (ground arith) (
            Has-take_first x r.0 r.1 (expire t q) left (covers-apart r.0 r.1 x (spared.1 r a)) k
              kept)
      ]
    ]

Has-after :
    (x : Pending) (now : ℕ) (es : List Event) (q : CloudCommands)
    → now - x.at < command_ttl
    → All (Spares x.from x.to now) es
    → Has x q
    → Has x (after es q)
Has-after x now [] q live spared h = h
Has-after x now (event ∷ es) q live spared h =
    Has-after x now es (step event q) live spared.1 (Has-step x now event q live spared.0 h)

Has-remember :
    (command : Intent) (sent : ℕ) (q : CloudCommands) (s e : Register)
    → commanded command ≡ some (s, e)
    → Has (record { from = s; to = e; at = sent }) (remember command sent q)
unfolding remember
Has-remember command sent q s e h =
    subst (Has _) (sym (remember-some command sent q (s, e) h)) (Has-append_self _ (expire sent q))

claim-Has :
    (x : Pending) (answer : Intent) (now : ℕ) (q : CloudCommands) (s e : Register)
    → answered answer ≡ some (s, e)
    → covers s e x ≡ true
    → now - x.at < command_ttl
    → Has x q
    → (claim answer now q).0 ≡ cloud
unfolding claim
claim-Has x answer now q s e a c live h =
    let there = take_first-Has x s e (expire now q) c (Has-expire x now q live h) in
    elim (Option-cases (take_first s e (expire now q))) [
      | inl n ↦ absurd (there n)
      | inr (left, k) ↦ ground arith
    ]

-- An answer in time, for registers inside those of a command that the cloud sent, is credited to the
-- cloud, whatever was outstanding when the command was sent, and whatever was sent or answered since,
-- if no answer in between was for registers inside the command's.
pub claim-remember :
    (command answer : Intent) (sent now : ℕ) (q : CloudCommands) (es : List Event)
    (s e s' e' : Register)
    → commanded command ≡ some (s, e)
    → answered answer ≡ some (s', e')
    → s ≤ s'
    → e' ≤ e
    → now - sent < command_ttl
    → All (Spares s e now) es
    → (claim answer now (after es (remember command sent q))).0 ≡ cloud
claim-remember command answer sent now q es s e s' e' hc ha hs he live spared =
    let x : Pending = record { from = s; to = e; at = sent } in
    claim-Has x answer now (after es (remember command sent q)) s' e' ha (ground arith) live (
      Has-after x now es (remember command sent q) live spared (Has-remember command sent q s e hc))

abbrev pub issued : List Event → ℕ
issued [] = 0
issued (sends i t ∷ es) = elim (commanded i) [ none ↦ issued es | some r ↦ suc (issued es) ]
issued (answers i t ∷ es) = issued es

abbrev count_cloud : Originator → ℕ
count_cloud cloud = 1
count_cloud unknown = 0

-- How many answers are credited to the cloud over a history that starts with the queue `q`.
unfoldable pub credited : List Event → CloudCommands → ℕ
credited [] q = 0
credited (sends i t ∷ es) q = credited es (remember i t q)
credited (answers i t ∷ es) q = count_cloud (claim i t q).0 + credited es (claim i t q).1

claim-outstanding :
    (i : Intent) (now : ℕ) (q : CloudCommands)
    → count_cloud (claim i now q).0 + outstanding (claim i now q).1 ≤ outstanding q
unfolding claim
claim-outstanding i now q = elim (Option-cases (answered i)) [
  | inl n ↦ ground arith
  | inr ((s, e), a) ↦ elim (Option-cases (take_first s e (expire now q))) [
    | inl n ↦ ground (arith, length-expire now q)
    | inr (l, t) ↦ ground (arith, length-expire now q, length-take_first s e (expire now q) l t)
  ]
]

remember-outstanding :
    (i : Intent) (now : ℕ) (q : CloudCommands)
    → outstanding (remember i now q) ≤ outstanding q + issued (sends i now ∷ [])
unfolding remember
remember-outstanding i now q = elim (Option-cases (commanded i)) [
  | inl n ↦ ground arith
  | inr ((s, e), c) ↦ ground (
    arith,
    length-expire now q,
    length-append (expire now q) (record { from = s; to = e; at = now } ∷ []),
  )
]

-- Over any history no more answers are credited than commands were outstanding or are sent: one
-- command lets at most one answer through.
pub credited-le-issued :
    (es : List Event) (q : CloudCommands) → credited es q ≤ outstanding q + issued es
unfolding credited
credited-le-issued [] q = omega arith
credited-le-issued (sends i t ∷ es) q = elim (Option-cases (commanded i)) [
  | inl n ↦ ground (arith, credited-le-issued es (remember i t q), remember-outstanding i t q)
  | inr (r, c) ↦ ground (arith, credited-le-issued es (remember i t q), remember-outstanding i t q)
]
credited-le-issued (answers i t ∷ es) q =
    omega (arith, credited-le-issued es (claim i t q).1, claim-outstanding i t q)
