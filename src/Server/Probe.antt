-- ===== src/Server/Probe.antt =====
-- src/server/probe.rs: telling a liveness probe from a device, answering it, and what a check makes
-- of the answer. A connection is the octets that arrive, one list for each arrival, and whether its
-- peer then closes it or stays silent until the time is up. Connecting is I/O.
pub mod Healthy
use heliobridge.Base.{
  ℕ, ◌+◌, Bool, true, false, not, ◌&&◌, ◌||◌, Option, none, some, List, [], ◌∷◌, ◌++◌, length, take,
  get_elem?, leb, ltb, ◌==◌, if◌then◌else◌,
}
use heliobridge.Base.Text.{codes, is_utf8}
use heliobridge.Base.Text.Parsing.{same_text, split, strip_prefix}

-- `METHOD`, `TLS_HANDSHAKE`, `HEALTH_PATH` and `MAX_REQUEST_LINE`
abbrev pub method : List ℕ
method = codes "GET "

abbrev pub tls_handshake : ℕ
tls_handshake = 0x16

abbrev pub health_path : List ℕ
health_path = codes "/healthz"

abbrev pub max_request_line : ℕ
max_request_line = 256

pub data Response : Type 0 where
  healthy unknown : Response

-- `Response::to` and `bytes`
unfoldable pub response_to : List ℕ → Response
unfolding same_text
response_to path = if same_text path health_path then healthy else unknown

unfoldable pub bytes : Response → List ℕ
bytes healthy =
    codes
      "HTTP/1.0 200 OK\r\nContent-Type: text/plain\r\nContent-Length: 3\r\nConnection: close\r\n\r\nok\n"
bytes unknown = codes "HTTP/1.0 404 Not Found\r\nContent-Length: 0\r\nConnection: close\r\n\r\n"

abbrev or_nothing : Option (List ℕ) → List ℕ
or_nothing none = []
or_nothing (some text) = text

-- `RequestLine::path`
unfoldable pub path : List ℕ → List ℕ
unfolding split
path line = or_nothing (get_elem? (split 0x20 line) 1)

pub record Wire : Type 0 where
  pub arrivals : List (List ℕ)
  pub closes : Bool

abbrev pub concat : List (List ℕ) → List ℕ
concat [] = []
concat (a ∷ more) = a ++ concat more

-- What a look at the head decides: that it is, or is not, a request, or nothing yet.
unfoldable pub decide : List ℕ → Option Bool
unfolding strip_prefix
decide [] = none
decide (b ∷ rest) =
    if b == tls_handshake then some false else elim (strip_prefix (take 4 (b ∷ rest)) method) [
      | none ↦ some false
      | some [] ↦ some true
      | some (m ∷ ms) ↦ none
    ]

abbrev at_end : List ℕ → Bool → Option Bool
at_end [] true = some false
at_end _ _ = none

abbrev or_look : Option Bool → Option Bool → Option Bool
or_look (some verdict) again = some verdict
or_look none again = again

-- The loop of `is_http`, over what has arrived and what will; no answer means that the time is up.
unfoldable pub is_http : List ℕ → List (List ℕ) → Bool → Option Bool
unfolding decide
is_http head [] closes = or_look (decide head) (at_end head closes)
is_http head (a ∷ more) closes = or_look (decide head) (is_http (head ++ a) more closes)

pub data Line : Type 0 where
  complete : List ℕ → Line
  -- closed, too long, or no text
  broken timed_out : Line

unfoldable pub without_returns : List ℕ → List ℕ
without_returns [] = []
without_returns (b ∷ rest) = elim (without_returns rest) [
  | [] ↦ if b == 0x0d then [] else b ∷ []
  | c ∷ kept ↦ b ∷ (c ∷ kept)
]

unfoldable pub finished : List ℕ → Line
unfolding without_returns is_utf8
finished line = if is_utf8 (without_returns line) then complete (without_returns line) else broken

-- `read_request_line`, with the octets that it leaves
unfoldable pub read_request_line : List ℕ → List ℕ → Bool → Line × List ℕ
unfolding finished
read_request_line line [] closes = (
  (if leb max_request_line (length line) then broken else if closes then broken else timed_out),
  [],
)
read_request_line line (b ∷ rest) closes =
    if leb max_request_line (length line)
    then (broken, b ∷ rest)
    else if b == 0x0a
    then (finished line, rest)
    else read_request_line (line ++ (b ∷ [])) rest closes

pub data Outcome : Type 0 where
  answered not_a_probe : Outcome

-- What became of a connection: the outcome, the octets not consumed, and what was written.
pub record Served : Type 0 where
  pub outcome : Outcome
  pub left : List ℕ
  pub written : List ℕ

unfoldable pub respond : Line × List ℕ → Served
unfolding response_to bytes path
respond (complete line, left) = record {
  outcome = answered;
  left = left;
  written = bytes (response_to (path line));
}
respond (broken, left) = record { outcome = answered; left = left; written = [] }
respond (timed_out, left) = record { outcome = not_a_probe; left = left; written = [] }

unfoldable pub exchange : Option Bool → Wire → Served
unfolding respond read_request_line
exchange (some true) w = respond (read_request_line [] (concat w.arrivals) w.closes)
exchange _ w = record { outcome = not_a_probe; left = concat w.arrivals; written = [] }

-- `Probe::serve`
unfoldable pub serve : Wire → Served
unfolding is_http exchange
serve w = exchange (is_http [] w.arrivals w.closes) w

-- `Check::exchange`: the request
unfoldable pub request : List ℕ
request = method ++ (health_path ++ codes " HTTP/1.0\r\nConnection: close\r\n\r\n")

abbrev first_of : List (List ℕ) → List ℕ
first_of [] = []
first_of (one ∷ more) = one

-- a line without the one carriage return before its end
unfoldable pub chomp : List ℕ → List ℕ
chomp [] = []
chomp (b ∷ []) = if b == 0x0d then [] else b ∷ []
chomp (b ∷ (c ∷ rest)) = b ∷ chomp (c ∷ rest)

abbrev first_line : List (List ℕ) → List ℕ
first_line [] = []
first_line (one ∷ []) = one
first_line (one ∷ (two ∷ more)) = chomp one

-- the status line: `lines().next()`
unfoldable pub status_line : List ℕ → List ℕ
unfolding split chomp
status_line reply = first_line (split 0x0a reply)

pub data Verdict : Type 0 where
  alive : Verdict
  unhealthy : List ℕ → Verdict
  not_http : Verdict

abbrev second_of : List (List ℕ) → Option (List ℕ)
second_of parts = get_elem? parts 1

abbrev is_ok : Option (List ℕ) → Bool
is_ok none = false
is_ok (some code) = same_text code (codes "200")

abbrev starts_with : Option (List ℕ) → Bool
starts_with none = false
starts_with (some rest) = true

-- `Check::run`, given the reply
unfoldable pub verdict : List ℕ → Verdict
unfolding split status_line strip_prefix same_text
verdict reply =
    let status : List ℕ = status_line reply in
    let fields : List (List ℕ) = split 0x20 status in
    if not (starts_with (strip_prefix (codes "HTTP/") (first_of fields)))
    then not_http
    else if is_ok (second_of fields)
    then alive
    else unhealthy status
