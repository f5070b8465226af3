-- ===== src/Server/Session/Book.antt =====
-- What the read queue of src/server/session.rs promises, apart from how it is kept: a book of the
-- read in flight, the reads that wait and the answers given, and the steps that may be taken in it.
use heliobridge.Base.{
  ◌≡◌, refl, ℕ, ◌+◌, Bool, true, false, Option, none, some, List, [], ◌∷◌, ◌++◌, map, ◌==◌, arith,
}
use heliobridge.Model.{Raw}
use heliobridge.Driver.Seam.{Setting}
use heliobridge.Control.{Caller, Outcome}
use heliobridge.Server.Session.{PendingRead, take_reply}
use heliobridge.Server.Session.Core.{Core}
use heliobridge.Server.Session.Reads.{resync_of, verify_of}

pub record Book : Type 0 where
  pub in_flight : Option PendingRead
  pub waiting : List PendingRead
  pub replies : List (Caller × Outcome)

abbrev pub book : Core → Book
book c = record { in_flight = c.awaiting; waiting = c.reads; replies = c.replies }

-- The answer to whoever waits on a read, if anyone does.
abbrev pub give : Option Caller → Outcome → List (Caller × Outcome) → List (Caller × Outcome)
give none outcome rest = rest
give (some c) outcome rest = (c, outcome) ∷ rest

abbrev pub caller_of : Option Caller → List Caller
caller_of none = []
caller_of (some c) = c ∷ []

-- One step, and the callers that it takes on.
pub data Step : List Caller → Book → Book → Type 0 where
  -- the first read that waits goes out
  pick :
      {b c : Book} (r : PendingRead) (rs : List PendingRead)
      → b.in_flight ≡ none
      → b.waiting ≡ r ∷ rs
      → c.in_flight ≡ some r
      → c.waiting ≡ rs
      → c.replies ≡ b.replies
      → Step [] b c
  -- a verification goes ahead of what waits
  ask :
      {b c : Book} (entry : Setting) (wanted : Option Raw) (reply : Option Caller)
      → c.in_flight ≡ b.in_flight
      → c.waiting ≡ verify_of entry wanted reply ∷ b.waiting
      → c.replies ≡ b.replies
      → Step (caller_of reply) b c
  -- the settings are read back after what waits
  queue :
      {b c : Book} (entries : List Setting)
      → c.in_flight ≡ b.in_flight
      → c.waiting ≡ b.waiting ++ map resync_of entries
      → c.replies ≡ b.replies
      → Step [] b c
  -- the read in flight goes back to the head of what waits
  put_back :
      {b c : Book} (r : PendingRead)
      → b.in_flight ≡ some r
      → c.in_flight ≡ none
      → c.waiting ≡ r ∷ b.waiting
      → c.replies ≡ b.replies
      → Step [] b c
  -- the read in flight ends, and its caller is told about its register
  finish :
      {b c : Book} (r : PendingRead) (outcome : Outcome)
      → outcome.register ≡ r.entry.register
      → b.in_flight ≡ some r
      → c.in_flight ≡ none
      → c.waiting ≡ b.waiting
      → c.replies ≡ give (take_reply r) outcome b.replies
      → Step [] b c
  -- a caller is answered at once
  answer :
      {b c : Book} (caller : Caller) (outcome : Outcome)
      → c.in_flight ≡ b.in_flight
      → c.waiting ≡ b.waiting
      → c.replies ≡ (caller, outcome) ∷ b.replies
      → Step (caller ∷ []) b c

pub data Steps : List Caller → Book → Book → Type 0 where
  rest : {b c : Book} → c ≡ b → Steps [] b c
  one : {xs : List Caller} {b c : Book} → Step xs b c → Steps xs b c
  chain : {xs ys : List Caller} {b c d : Book} → Steps xs b c → Steps ys c d → Steps (xs ++ ys) b d

-- How often a caller is among those that wait, and among the answers.
module _ (caller : Caller) where
  abbrev pub one_if : Bool → ℕ
  one_if true = 1
  one_if false = 0

  abbrev pub asked : List Caller → ℕ
  asked [] = 0
  asked (c ∷ cs) = one_if (c == caller) + asked cs

  abbrev pub owed_on : PendingRead → ℕ
  owed_on r = asked (caller_of (take_reply r))

  abbrev pub owed_in : List PendingRead → ℕ
  owed_in [] = 0
  owed_in (r ∷ rs) = owed_on r + owed_in rs

  abbrev pub owed_in_flight : Option PendingRead → ℕ
  owed_in_flight none = 0
  owed_in_flight (some r) = owed_on r

  abbrev pub given : List (Caller × Outcome) → ℕ
  given [] = 0
  given ((c, outcome) ∷ more) = one_if (c == caller) + given more

  -- Answers given and answers owed.
  abbrev pub account : Book → ℕ
  account b = given b.replies + (owed_in_flight b.in_flight + owed_in b.waiting)

  asked-append : (xs ys : List Caller) → asked (xs ++ ys) ≡ asked xs + asked ys
  asked-append [] ys = omega arith
  asked-append (x ∷ xs) ys = omega (arith, asked-append xs ys)

  owed-resync_of : (entries : List Setting) → owed_in (map resync_of entries) ≡ 0
  unfolding take_reply
  owed-resync_of [] = refl
  owed-resync_of (e ∷ es) = omega (arith, owed-resync_of es)

  owed_in-append : (xs ys : List PendingRead) → owed_in (xs ++ ys) ≡ owed_in xs + owed_in ys
  owed_in-append [] ys = omega arith
  owed_in-append (x ∷ xs) ys = omega (arith, owed_in-append xs ys)

  given-give :
      (reply : Option Caller) (outcome : Outcome) (more : List (Caller × Outcome))
      → given (give reply outcome more) ≡ asked (caller_of reply) + given more
  given-give none outcome more = omega arith
  given-give (some c) outcome more = omega arith

  account-Step : {xs : List Caller} {b c : Book} → Step xs b c → account c ≡ account b + asked xs
  unfolding take_reply
  account-Step (pick r rs i w i' w' p) = rw (i, w, i', w', p) (omega arith)
  account-Step (ask entry wanted reply i w p) = rw (i, w, p) (omega arith)
  account-Step (queue entries i w p) =
      rw (i, w, p) (omega (arith, owed_in-append _ (map resync_of entries), owed-resync_of entries))
  account-Step (put_back r i i' w p) = rw (i, i', w, p) (omega arith)
  account-Step (finish r outcome about i i' w p) =
      rw (i, i', w, p) (omega (arith, given-give (take_reply r) outcome))
  account-Step (answer c outcome i w p) = rw (i, w, p) (omega arith)

  -- Steps answer or go on owing each caller that they found or took on, and nobody else.
  pub account-Steps :
      {xs : List Caller} {b c : Book} → Steps xs b c → account c ≡ account b + asked xs
  account-Steps (rest e) = rw e (omega arith)
  account-Steps (one st) = account-Step st
  account-Steps (chain {xs} {ys} first more) =
      omega (arith, account-Steps first, account-Steps more, asked-append xs ys)
