-- ===== src/Server/Probe/Healthy.antt =====
-- What src/server/probe.rs leaves of a connection that it hands on, and that a check is answered.
use heliobridge.Base.{
  ◌≢◌, ℕ, ◌≡◌, refl, sym, ◌∙◌, ◌⊎◌, Bool, true, false, Option, none, some, List, [], ◌∷◌, ◌++◌,
  length, arith, Bool-cases, inl, inr, ◌==◌, leb,
}
use heliobridge.Base.Text.{codes, is_utf8}
use heliobridge.Base.Text.Parsing.{strip_prefix}
use heliobridge.Server.Probe.{
  without_returns, health_path, Wire, not_a_probe, concat, decide, is_http, exchange, serve,
  respond, read_request_line, finished, Line, complete, broken, timed_out, request, verdict, alive,
  method,
}
use mathlib.Core.List.{append_assoc, append-nil}

-- a stream that begins as a request has been looked at as one, or not decided on
decide_prefix :
    (head more rest : List ℕ)
    → head ++ more ≡ method ++ rest
    → (decide head ≡ some true) ⊎ (decide head ≡ none)
unfolding decide strip_prefix
decide_prefix [] more rest e = inr refl
decide_prefix (a ∷ []) more rest e = inr (ground arith)
decide_prefix (a ∷ (b ∷ [])) more rest e = inr (ground arith)
decide_prefix (a ∷ (b ∷ (c ∷ []))) more rest e = inr (ground arith)
decide_prefix (a ∷ (b ∷ (c ∷ (d ∷ head)))) more rest e = inl (ground arith)

decide-method : (rest : List ℕ) → decide (method ++ rest) ≡ some true
unfolding decide strip_prefix
decide-method rest = refl

is_http-method :
    (arrivals : List (List ℕ)) (head rest : List ℕ) (closes : Bool)
    → head ++ concat arrivals ≡ method ++ rest
    → is_http head arrivals closes ≡ some true
unfolding is_http
is_http-method [] head rest closes e =
    let same : head ≡ method ++ rest = sym (append-nil head) ∙ e in rw (same, decide-method rest)
is_http-method (a ∷ more) head rest closes e = elim (decide_prefix head (a ++ concat more) rest e) [
  | inl t ↦ rw t
  | inr n ↦
      rw n (is_http-method more (head ++ a) rest closes (append_assoc head a (concat more) ∙ e))
]

verdict-request :
    (closes : Bool) → verdict (respond (read_request_line [] request closes)).written ≡ alive
unfolding verdict respond read_request_line request
verdict-request closes = refl

-- However the request of a check is cut on its way, the probe answers it, and the check reads health
-- from the answer.
pub verdict-serve :
    (arrivals : List (List ℕ)) (closes : Bool)
    → concat arrivals ≡ request
    → verdict (serve (record { arrivals = arrivals; closes = closes })).written ≡ alive
unfolding serve exchange
verdict-serve arrivals closes e =
    rw
      (
        is_http-method arrivals [] (health_path ++ codes " HTTP/1.0\r\nConnection: close\r\n\r\n")
            closes (e ∙ unfold request in refl),
        e,
      )
      (verdict-request closes)

outcome-respond : (r : Line × List ℕ) → (respond r).outcome ≡ not_a_probe → r.0 ≡ timed_out
unfolding respond
outcome-respond (complete line, left) h = cc
outcome-respond (broken, left) h = cc
outcome-respond (timed_out, left) h = refl

finished_in_time : (line : List ℕ) → finished line ≢ timed_out
unfolding finished
finished_in_time line h = elim (Bool-cases (is_utf8 (without_returns line))) [
  | inl u ↦ let e : complete (without_returns line) ≡ timed_out = rw u at h in cc
  | inr u ↦ let e : broken ≡ timed_out = rw u at h in cc
]

-- only a peer that stays silent runs out of time
closes-read_request_line :
    (line rest : List ℕ) (closes : Bool)
    → (read_request_line line rest closes).0 ≡ timed_out
    → closes ≡ false
unfolding read_request_line
closes-read_request_line line [] closes h = ground arith
closes-read_request_line line (b ∷ rest) closes h = elim (Bool-cases (leb 256 (length line))) [
  | inl l ↦ let e : broken ≡ timed_out = rw l at h in cc
  | inr l ↦ elim (Bool-cases (b == 0x0a)) [
    | inl n ↦ absurd (finished_in_time line (rw (l, n) at h))
    | inr n ↦ closes-read_request_line (line ++ (b ∷ [])) rest closes (rw (l, n) at h)
  ]
]

exchange-left :
    (o : Option Bool) (w : Wire)
    → (exchange o w).outcome ≡ not_a_probe
    → ((exchange o w).left ≡ concat w.arrivals) ⊎ ((o ≡ some true) × (w.closes ≡ false))
unfolding exchange
exchange-left none w h = inl refl
exchange-left (some false) w h = inl refl
exchange-left (some true) w h = inr (
  refl,
  closes-read_request_line [] (concat w.arrivals) w.closes
      (outcome-respond (read_request_line [] (concat w.arrivals) w.closes) h),
)

-- A connection that is handed on has all its octets, unless it began as a request and its peer then
-- stayed silent.
pub left-serve :
    (w : Wire)
    → (serve w).outcome ≡ not_a_probe
    → ((serve w).left ≡ concat w.arrivals)
      ⊎ ((is_http [] w.arrivals w.closes ≡ some true) × (w.closes ≡ false))
unfolding serve
left-serve w h = exchange-left (is_http [] w.arrivals w.closes) w h
