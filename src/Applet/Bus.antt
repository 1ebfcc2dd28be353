-- ===== src/Applet/Bus.antt =====
-- crates/clippo-applet/src/bus.rs: the task between the applet and the daemon.
pub mod Silent
use clippo.Prelude.{
  ℕ, Bool, true, false, not, List, [], ◌∷◌, ◌++◌, Option, none, some, Result, ok, err,
  if◌then◌else◌,
}
use clippo.Prelude.Int.{ℤ}
use clippo.Prelude.Text.{Text, codes}
use clippo.Daemon.Cache.{EntrySummary}
use clippo.Ipc.Peer.{Peer, PeerError, Owner, absent, trusted, untrusted}
use clippo.Applet.Model.{EntryKey}
use clippo.Applet.App.{
  Request, refresh, paste, delete, reveal, pin, thumbnail, BusEvent, toggled, daemon_up,
  daemon_down, entries_came, revealed_came, thumbnail_came, failed,
}

abbrev row_limit : ℕ
row_limit = 200

-- a call of a member of the daemon's interface
pub data Call : Type 0 where
  search : Text → ℕ → Call
  paste_entry copy_entry delete_entry reveal_entry thumbnail_of : ℤ → Call
  pin_entry : ℤ → Bool → Call

-- an error of the bus: whether it says that access was denied, whether that nobody has the name
pub record BusError : Type 0 where
  pub is_access_denied : Bool
  pub is_service_absent : Bool
  pub text : Text

-- what the daemon answers to the calls of one request; no error is `Ok(())`
pub record Answers : Type 0 where
  pub searched : Result (List EntrySummary) BusError
  pub pasted : Option BusError
  pub copied : Option BusError
  pub done : Option BusError
  pub revealed : Result Text BusError
  pub drawn : Result (List ℕ) BusError

unfoldable pub down : Text → BusError → BusEvent
down member e =
    if e.is_service_absent then daemon_down else failed (member ++ (codes " failed: " ++ e.text))

abbrev up_or_down : Text → Option BusError → BusEvent
up_or_down member none = daemon_up
up_or_down member (some e) = down member e

abbrev searched_as : Text → Result (List EntrySummary) BusError → BusEvent
searched_as query (ok entries) = entries_came query entries
searched_as query (err e) = down (codes "Search") e

abbrev revealed_as : ℤ → Result Text BusError → BusEvent
revealed_as id (ok value) = revealed_came id value
revealed_as id (err e) = down (codes "Reveal") e

abbrev drawn_as : EntryKey → Result (List ℕ) BusError → BusEvent
drawn_as key (ok bytes) = thumbnail_came key (some bytes)
drawn_as key (err e) = thumbnail_came key none

-- a paste that is refused is a copy instead
abbrev pasted_as : ℤ → Option BusError → Answers → List Call × BusEvent
pasted_as id none a = (paste_entry id ∷ [], daemon_up)
pasted_as id (some e) a =
    if e.is_access_denied
    then (paste_entry id ∷ copy_entry id ∷ [], up_or_down (codes "Copy") a.copied)
    else (paste_entry id ∷ [], down (codes "Paste") e)

-- the calls made, and the event told
unfoldable pub serve_request : Request → Answers → List Call × BusEvent
serve_request (refresh query) a = (search query row_limit ∷ [], searched_as query a.searched)
serve_request (paste id) a = pasted_as id a.pasted a
serve_request (delete id) a = (delete_entry id ∷ [], up_or_down (codes "Delete") a.done)
serve_request (pin id pinned) a = (pin_entry id pinned ∷ [], up_or_down (codes "Pin") a.done)
serve_request (reveal id) a = (reveal_entry id ∷ [], revealed_as id a.revealed)
serve_request (thumbnail key) a = (thumbnail_of key.id ∷ [], drawn_as key a.drawn)

-- what wakes the loop of `worker`: the new owner of the daemon's name is given as it was checked
pub data Woken : Type 0 where
  requested : Request → Answers → Woken
  history_changed toggle_asked : Woken
  owner_changed : Option (Result Peer PeerError) → Woken

-- the state of the loop, the calls it made, and the events it sent; it returns once the applet is gone
pub record Worker : Type 0 where
  pub is_trusted : Bool
  pub is_running : Bool
  pub calls : List Call
  pub told : List BusEvent

abbrev pub is_up : BusEvent → Bool
is_up daemon_up = true
is_up _ = false

-- `output.send`, by whether the applet takes the event
abbrev pub tell : Bool → BusEvent → Worker → Worker
tell true event w = record w { told = w.told ++ event ∷ [] }
tell false event w = record w { is_running = false }

-- `text`: how an error of the check is shown
module _ (text : PeerError → Text) where
  abbrev pub judged : Result Peer PeerError → BusEvent
  judged (ok peer) = daemon_up
  judged (err why) = clippo.Applet.App.untrusted (text why)

  abbrev pub daemon_owner : Result Owner Text → BusEvent
  daemon_owner (ok absent) = daemon_down
  daemon_owner (ok (trusted peer)) = daemon_up
  daemon_owner (ok (untrusted why)) = clippo.Applet.App.untrusted (text why)
  daemon_owner (err e) = daemon_down

  abbrev pub owner_event : Option (Result Peer PeerError) → BusEvent
  owner_event none = daemon_down
  owner_event (some checked) = judged checked

  -- the worker before its loop, by the owner of the daemon's name
  unfoldable pub start : Result Owner Text → Worker
  start owner = record {
    is_trusted = is_up (daemon_owner owner);
    is_running = true;
    calls = [];
    told = daemon_owner owner ∷ [];
  }

  abbrev pub served : Bool → List Call × BusEvent → Worker → Worker
  served taken (calls, event) w = tell taken event (record w { calls = w.calls ++ calls })

  -- one round; `taken`: whether the applet takes what it is sent
  abbrev pub wake : Bool → Woken → Worker → Worker
  wake taken (requested request answers) w =
      if not w.is_trusted then w else served taken (serve_request request answers) w
  wake taken history_changed w = if w.is_trusted then tell taken daemon_up w else w
  wake taken toggle_asked w = tell taken toggled w
  wake taken (owner_changed owner) w =
      tell taken (owner_event owner) (record w { is_trusted = is_up (owner_event owner) })

  unfoldable pub loop : List (Bool × Woken) → Worker → Worker
  loop [] w = w
  loop (e ∷ es) w = let rest = loop es (wake e.0 e.1 w) in if w.is_running then rest else w
