-- ===== src/Driver/Arbiter/Queue.antt =====
-- The queue of `CloudCommands` of src/driver/arbiter.rs: what is dropped, what is taken for an answer,
-- and which entries stay.
use heliobridge.Base.{
  ltb, lt→ltb, ◌⊎◌, All-append_right, subst, ℕ, ◌+◌, ◌-◌, ◌≤◌, ◌<◌, ◌≡◌, ◌≢◌, refl, ap, inl, inr,
  true, false, some, none, [], ◌∷◌, ◌++◌, arith, length, All, Option-cases, Bool-cases,
  length-append,
}
use heliobridge.Model.{Register}
use heliobridge.Driver.Arbiter.{
  commanded, remember, Intent, Pending, CloudCommands, expire, covers, take_first, command_ttl,
}

pub expire-IsLive :
    (now : ℕ) (q : CloudCommands) → All (λ p. now - p.at < command_ttl) (expire now q)
unfolding expire
expire-IsLive now [] = tt
expire-IsLive now (p ∷ ps) = ground (arith, expire-IsLive now ps)

pub length-expire : (now : ℕ) (q : CloudCommands) → length (expire now q) ≤ length q
unfolding expire
length-expire now [] = omega arith
length-expire now (p ∷ ps) = ground (arith, length-expire now ps)

-- Where an entry stood in the queue: what was before it covers nothing of the answer.
pub record Taken (s e : Register) (q left : CloudCommands) : Type 0 where
  pub before : CloudCommands
  pub entry : Pending
  pub after : CloudCommands
  pub was : q ≡ before ++ (entry ∷ after)
  pub leaves : left ≡ before ++ after
  pub covering : covers s e entry ≡ true
  pub first : All (λ p. covers s e p ≡ false) before

Taken-cons :
    {s e : Register} {ps left : CloudCommands} (p : Pending)
    → covers s e p ≡ false
    → Taken s e ps left
    → Taken s e (p ∷ ps) (p ∷ left)
Taken-cons p h t = record {
  before = p ∷ t.before;
  entry = t.entry;
  after = t.after;
  was = ap (λ qs. p ∷ qs) t.was;
  leaves = ap (λ qs. p ∷ qs) t.leaves;
  covering = t.covering;
  first = (h, t.first);
}

pub take_first-Taken :
    (s e : Register) (q left : CloudCommands) → take_first s e q ≡ some left → Taken s e q left
unfolding take_first
take_first-Taken s e [] left h = absurd (ground arith)
take_first-Taken s e (p ∷ ps) left h = elim (Bool-cases (covers s e p)) [
  | inl c ↦ record {
    before = [];
    entry = p;
    after = ps;
    was = refl;
    leaves = ground arith;
    covering = c;
    first = tt;
  }
  | inr c ↦ elim (Option-cases (take_first s e ps)) [
    | inl n ↦ absurd (ground arith)
    | inr (qs, t) ↦
        let l : p ∷ qs ≡ left = ground arith in
        subst (λ (l : CloudCommands). Taken s e (p ∷ ps) l) l
          (Taken-cons p c (take_first-Taken s e ps qs t))
  ]
]

pub length-take_first :
    (s e : Register) (q left : CloudCommands)
    → take_first s e q ≡ some left
    → length left + 1 ≡ length q
length-take_first s e q left h =
    let t = take_first-Taken s e q left h in
    omega (
      arith,
      ap length t.was,
      ap length t.leaves,
      length-append t.before (t.entry ∷ t.after),
      length-append t.before t.after,
    )

pub take_first-All {κ} :
    (P : Pending → Type κ) (s e : Register) (q left : CloudCommands)
    → All P q
    → (t : Taken s e q left) → P t.entry
take_first-All P s e q left h t =
    (All-append_right P t.before (t.entry ∷ t.after) (subst (All P) t.was h)).0

-- that an entry is in the queue
abbrev pub Has : Pending → CloudCommands → Type 0
Has x [] = ⊥
Has x (p ∷ ps) = (p ≡ x) ⊎ Has x ps

pub Has-append_self : (x : Pending) (q : CloudCommands) → Has x (q ++ (x ∷ []))
Has-append_self x [] = inl refl
Has-append_self x (p ∷ ps) = inr (Has-append_self x ps)

pub Has-append : (x p : Pending) (q : CloudCommands) → Has x q → Has x (q ++ (p ∷ []))
Has-append x p [] h = absurd h
Has-append x p (y ∷ q) (inl e) = inl e
Has-append x p (y ∷ q) (inr h) = inr (Has-append x p q h)

-- a live entry outlasts what is dropped
pub Has-expire :
    (x : Pending) (now : ℕ) (q : CloudCommands)
    → now - x.at < command_ttl
    → Has x q
    → Has x (expire now q)
unfolding expire
Has-expire x now [] live h = absurd h
Has-expire x now (p ∷ ps) live (inl e) = rw (e, lt→ltb _ _ live) (inl refl)
Has-expire x now (p ∷ ps) live (inr h) = elim (Bool-cases (ltb (now - p.at) command_ttl)) [
  | inl l ↦ rw l (inr (Has-expire x now ps live h))
  | inr l ↦ rw l (Has-expire x now ps live h)
]

-- an entry that does not cover an answer is not the one taken for it
pub Has-take_first :
    (x : Pending) (s e : Register) (q left : CloudCommands)
    → covers s e x ≡ false
    → take_first s e q ≡ some left
    → Has x q
    → Has x left
unfolding take_first
Has-take_first x s e [] left c t h = absurd h
Has-take_first x s e (p ∷ ps) left c t h = elim (Bool-cases (covers s e p)) [
  | inl y ↦ taken y h
  | inr n ↦ elim (Option-cases (take_first s e ps)) [
    | inl z ↦ absurd (ground arith)
    | inr (qs, k) ↦
        let l : p ∷ qs ≡ left = ground arith in
        subst (Has x) l (elim h [ inl y ↦ inl y | inr m ↦ inr (Has-take_first x s e ps qs c k m) ])
  ]
]
  where
    taken : covers s e p ≡ true → (p ≡ x) ⊎ Has x ps → Has x left
    taken y (inl z) = absurd (ground (arith, ap (covers s e) z))
    taken y (inr m) = subst (Has x) (ground (arith, y, t)) m

pub take_first-Has :
    (x : Pending) (s e : Register) (q : CloudCommands)
    → covers s e x ≡ true
    → Has x q
    → take_first s e q ≢ none
unfolding take_first
take_first-Has x s e [] c h = absurd h
take_first-Has x s e (p ∷ ps) c (inl y) = ground (arith, ap (covers s e) y)
take_first-Has x s e (p ∷ ps) c (inr m) = ground (arith, take_first-Has x s e ps c m)

pub covers-apart :
    (s e : Register) (x : Pending) → ¬ ((x.from ≤ s) × (e ≤ x.to)) → covers s e x ≡ false
covers-apart s e x h = ground arith

pub remember-none :
    (i : Intent) (now : ℕ) (q : CloudCommands) → commanded i ≡ none → remember i now q ≡ q
unfolding remember
remember-none i now q n = ground arith

pub remember-some :
    (i : Intent) (now : ℕ) (q : CloudCommands) (r : Register × Register)
    → commanded i ≡ some r
    → remember i now q ≡ expire now q ++ (record { from = r.0; to = r.1; at = now } ∷ [])
unfolding remember
remember-some i now q r c = ground arith
