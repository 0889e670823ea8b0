-- ===== src/Http/Events.antt =====
-- device-agent/src/http_server/events.rs: the stream of server-sent events.
pub mod Text
pub mod Listener
use devicekit.Prelude.{
  ℕ, suc, ◌-◌, Bool, true, false, not, Option, none, some, List, [], ◌∷◌, ◌++◌, ◌==◌, leb,
  if◌then◌else◌,
}
use devicekit.Prelude.Text.{Str, chars, is_empty}
use devicekit.Client.Messages.{decimal}
use devicekit.NotifyCast.{Notification, NotifyCast, subscribe, unsubscribe}

abbrev pub push_char : ℕ → List Str → List Str
push_char c [] = (c ∷ []) ∷ []
push_char c (line ∷ lines) = (c ∷ line) ∷ lines

-- `split('\n')`
unfoldable pub split_lines : Str → List Str
split_lines [] = [] ∷ []
split_lines (c ∷ s) = let rest = split_lines s in if c == b'\n' then [] ∷ rest else push_char c rest

abbrev pub data_line : Str → Str
data_line line = chars "data: " ++ line

-- `filter_map` over the lines of the data.
unfoldable pub data_lines : List Str → List Str
data_lines [] = []
data_lines ([] ∷ lines) = data_lines lines
data_lines ((c ∷ line) ∷ lines) = data_line (c ∷ line) ∷ data_lines lines

-- `join("\n")`
unfoldable pub join : List Str → Str
join [] = []
join (line ∷ []) = line
join (line ∷ next ∷ lines) = line ++ (b'\n' ∷ join (next ∷ lines))

abbrev pub event_line : Str → Str
event_line event = chars "event: " ++ event

abbrev pub bare : Str → Str
bare event = event_line event ++ (b'\n' ∷ b'\n' ∷ [])

abbrev pub with_lines : Str → Str → Str
with_lines event lines =
    if is_empty lines
    then bare event
    else event_line event ++ (b'\n' ∷ (lines ++ (b'\n' ∷ b'\n' ∷ [])))

unfoldable pub notification : Str → Str → Str
notification event payload =
    if is_empty event
    then []
    else if is_empty payload
    then bare event
    else with_lines event (join (data_lines (split_lines payload)))

unfoldable pub keep_alive : ℕ → Str
keep_alive unix_ms =
    chars "event: keep_alive"
    ++ (b'\n' ∷ (chars "data: " ++ (decimal unix_ms ++ (b'\n' ∷ b'\n' ∷ []))))

-- A round of the loop: the flag; what is received within half a second; the time in milliseconds, of
-- the stream's clock and of the day; and whether a text sent in this round goes out.
pub record Round : Type 0 where
  pub shutdown_flag : Bool
  pub received : Option Notification
  pub now : ℕ
  pub unix_ms : ℕ
  pub goes_out : Bool

-- The text of a round, if any.
abbrev pub text_of : ℕ → Round → Option Notification → Option Str
text_of last_keep_alive round (some (event, payload)) = some (notification event payload)
text_of last_keep_alive round none =
    if leb 15_000 (round.now - last_keep_alive) then some (keep_alive round.unix_ms) else none

abbrev pub sent : Bool → Str → List Str → List Str
sent goes_out text rest = if goes_out then text ∷ rest else text ∷ []

-- The texts that the loop sends; the one that does not go out is the last.
unfoldable pub stream_loop : ℕ → List Round → List Str
stream_loop last_keep_alive [] = []
stream_loop last_keep_alive (round ∷ rounds) = elim (round.shutdown_flag) [
  | true ↦ []
  | false ↦ elim (text_of last_keep_alive round round.received) [
    | none ↦ stream_loop last_keep_alive rounds
    | some text ↦ sent round.goes_out text (stream_loop round.now rounds)
  ]
]

-- What happens around a stream: whether the timeout can be set, whether the client is connected both
-- times that it is looked at, whether the first two texts go out, the time then, and the rounds.
pub record Stream : Type 0 where
  pub timeout_set : Bool
  pub connected : Bool
  pub still_connected : Bool
  pub first_goes_out : Bool
  pub second_goes_out : Bool
  pub start : ℕ
  pub rounds : List Round

abbrev pub first_event : Bool → Str
first_event true = chars "connected"
first_event false = chars "disconnected"

abbrev pub first_text : Stream → Str
first_text s = bare (first_event s.connected)

abbrev pub new_mail : Str
new_mail = notification (chars "new_mail") []

-- Behind the loop: the texts that it sends, and the subscriber taken away.
abbrev pub loop_exit : Stream → ℕ → NotifyCast → List Str → List Str × NotifyCast
loop_exit s token notify front = (front ++ stream_loop s.start s.rounds, unsubscribe token notify)

-- Behind the first text, which went out.
abbrev pub second_exit : Stream → ℕ → NotifyCast → List Str × NotifyCast
second_exit s token notify =
    if not s.still_connected
    then loop_exit s token notify (first_text s ∷ [])
    else if not s.second_goes_out
    then (first_text s ∷ new_mail ∷ [], unsubscribe token notify)
    else loop_exit s token notify (first_text s ∷ new_mail ∷ [])

abbrev pub first_exit : Stream → ℕ → NotifyCast → List Str × NotifyCast
first_exit s token notify =
    if not s.first_goes_out
    then (first_text s ∷ [], unsubscribe token notify)
    else second_exit s token notify

-- The texts that are sent, and the subscribers behind the stream: `meanwhile` is what the others do
-- to them while it lasts. Each of the three exits behind subscribing unsubscribes by itself.
unfoldable pub handle_event_stream :
    Stream → (NotifyCast → NotifyCast) → NotifyCast → List Str × NotifyCast
handle_event_stream s meanwhile notify =
    if not s.timeout_set
    then ([], notify)
    else let (notify', token) = subscribe notify in first_exit s token (meanwhile notify')
