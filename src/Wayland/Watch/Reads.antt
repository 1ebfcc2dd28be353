-- ===== src/Wayland/Watch/Reads.antt =====
-- watch.rs: reading the flavors of a selection, from its arrival to the event that carries it.
pub mod Slots
pub mod Held
pub mod Waiting
pub mod Registered
pub mod Sources
pub mod Timeout
use clippo.Prelude.{
  ℕ, Bool, true, false, not, ◌&&◌, List, [], ◌∷◌, ◌++◌, map, Option, none, some, Result, ok, err,
  if◌then◌else◌, ◌==◌, filter,
}
use clippo.Prelude.Text.{Text}
use clippo.Wayland.Selection.{SelectionKind, clipboard, primary, DropReason, io, stalled, setup}
use clippo.Wayland.Pending.{
  Push, accepted, too_much, closed, PendingSelection, new_pending, expect_flavor, push, finish,
  drop_flavor, abandon_open, is_complete, into_selection,
}
use clippo.Wayland.Advertised.{interesting_flavors}
use clippo.Wayland.Watch.{
  TrySend, captured, Act, receive, remove_token, remove_key, insert_key, Pending, WatchState,
  u64_next, log, take_out, ReadSource, emit, retire_offers, let_go, abandon_pending,
}

-- what one `read` answers, and what a callback tells the event loop
pub data ReadReply : Type 0 where
  got : List ℕ → ReadReply
  interrupted again : ReadReply
  error : Text → ReadReply

pub data PostAction : Type 0 where
  go_on remove : PostAction

-- the body of the loop of `read_flavor` on one reply; with no action, it reads again
abbrev pub after_chunk : Push × PendingSelection → Option PostAction × PendingSelection
after_chunk (accepted, p) = (none, p)
after_chunk (too_much, p) = (some remove, p)
after_chunk (closed, p) = (some remove, p)

abbrev pub on_reply : ℕ → ReadReply → PendingSelection → Option PostAction × PendingSelection
on_reply slot (got []) p = (some remove, finish slot p)
on_reply slot (got (b ∷ bytes)) p = after_chunk (push slot (b ∷ bytes) p)
on_reply slot interrupted p = (none, p)
on_reply slot again p = (some go_on, p)
on_reply slot (error message) p = (some remove, drop_flavor slot (io message) p)

-- the loop, over the replies that the reads get; with no action, it waits for one more
unfoldable pub read_flavor :
    ℕ → List ReadReply → PendingSelection → Option PostAction × PendingSelection
read_flavor slot [] p = (none, p)
read_flavor slot (reply ∷ replies) p =
    let r = on_reply slot reply p in
    elim r.0 [ none ↦ read_flavor slot replies r.1 | some action ↦ (some action, r.1) ]

-- What the system answers when a read is set up: the errors of `pipe_with`, `fcntl_getfl`,
-- `fcntl_setfl` and `flush`, and the token of the source or the error of `insert_source`.
pub record ReadSetup : Type 0 where
  pub pipe : Option Text
  pub getfl : Option Text
  pub setfl : Option Text
  pub flush : Option Text
  pub source : Result ℕ Text

abbrev or_error : Option Text → Result ℕ Text → Result ℕ Text
or_error none rest = rest
or_error (some e) rest = err e

abbrev received : Option Text → Option Text → Option Text → Act → List Act
received none none none act = act ∷ []
received _ _ _ act = []

unfoldable pub begin_read : ℕ → Text → ReadSetup → List Act × Result ℕ Text
begin_read offer mime s = (
  received s.pipe s.getfl s.setfl (receive offer mime),
  or_error s.pipe (or_error s.getfl (or_error s.setfl (or_error s.flush s.source))),
)

-- what `start_reads` has of the selection so far
pub record Started : Type 0 where
  pub selection : PendingSelection
  pub read_tokens : List (ℕ × ℕ)
  pub acts : List Act
  -- what `insert_source` put into the event loop
  pub sources : List ReadSource

abbrev pub started : ℕ → List Act × Result ℕ Text → Started → Started
started slot (acts, ok token) s = record s {
  read_tokens = insert_key slot token s.read_tokens;
  acts = s.acts ++ acts;
  sources = s.sources ++ (token, s.selection.generation, slot) ∷ [];
}
started slot (acts, err reason) s = record s {
  selection = drop_flavor slot (setup reason) s.selection;
  acts = s.acts ++ acts;
}

abbrev pub start_read : ℕ → ℕ → (ℕ → ReadSetup) → Text → Started → Started
start_read offer cap setups mime s =
    let (slot, selection) = expect_flavor mime cap s.selection in
    started slot (begin_read offer mime (setups slot)) (record s { selection = selection })

unfoldable pub start_all : ℕ → ℕ → (ℕ → ReadSetup) → List Text → Started → Started
start_all offer cap setups [] s = s
start_all offer cap setups (mime ∷ mimes) s =
    start_all offer cap setups mimes (start_read offer cap setups mime s)

abbrev pub emit_pending : TrySend → Option Pending → WatchState → WatchState
emit_pending answer none w = w
emit_pending answer (some p) w =
    if is_complete p.selection
    then emit answer (captured (into_selection p.selection))
        (take_out (let_go p) (record w { pending = none }))
    else w

unfoldable pub emit_if_complete : TrySend → WatchState → WatchState
emit_if_complete answer w = emit_pending answer w.pending w

-- `armed`: the token of the timer, where one could be had
abbrev pub hold : ℕ → Option ℕ → Started → WatchState → WatchState
hold offer armed s w = log s.acts (record w {
  pending = some (record {
    selection = s.selection;
    offer = offer;
    read_tokens = s.read_tokens;
    timeout_token = if is_complete s.selection then none else armed;
  });
  sources = w.sources ++ s.sources;
})

abbrev pub first_state : ℕ → SelectionKind → List Text → Started
first_state generation kind advertised = record {
  selection = new_pending generation kind advertised;
  read_tokens = [];
  acts = [];
  sources = [];
}

unfoldable pub start_reads :
    SelectionKind
    → ℕ
    → List Text
    → List Text
    → (ℕ → ReadSetup)
    → Option ℕ
    → TrySend
    → WatchState
    → WatchState
start_reads kind offer advertised wanted setups armed answer w =
    let generation = u64_next w.generation in
    emit_if_complete answer (
      hold offer armed
        (start_all offer w.max_flavor_bytes setups wanted (first_state generation kind advertised))
        (record w { generation = generation }))

abbrev pub is_primary : SelectionKind → Bool
is_primary clipboard = false
is_primary primary = true

abbrev pub changed_to :
    SelectionKind → Option ℕ → (ℕ → ReadSetup) → Option ℕ → TrySend → WatchState → WatchState
changed_to kind none setups armed answer w = (retire_offers none w).1
changed_to kind (some offer) setups armed answer w =
    let (advertised, w') = retire_offers (some offer) w in
    start_reads kind offer advertised (interesting_flavors advertised) setups armed answer w'

unfoldable pub selection_changed :
    SelectionKind → Option ℕ → (ℕ → ReadSetup) → Option ℕ → TrySend → WatchState → WatchState
selection_changed kind offer setups armed answer w =
    if is_primary kind && not w.primary
    then (retire_offers none w).1
    else changed_to kind offer setups armed answer (abandon_pending w)

-- what is left of a pending selection when a source of it has been read
abbrev pub after_read :
    ℕ → Pending → Option PostAction × PendingSelection → Option PostAction × Pending
after_read slot p (some remove, s) =
    (some remove, record p { selection = s; read_tokens = remove_key slot p.read_tokens })
after_read slot p (action, s) = (action, record p { selection = s })

abbrev pub read_done :
    TrySend → Option PostAction × Pending → WatchState → Option PostAction × WatchState
read_done answer (some remove, p) w =
    (some remove, emit_if_complete answer (record w { pending = some p }))
read_done answer (action, p) w = (action, record w { pending = some p })

abbrev pub readable_at :
    ℕ → ℕ → List ReadReply → TrySend → Option Pending → WatchState → Option PostAction × WatchState
readable_at generation slot replies answer none w = (some remove, emit_if_complete answer w)
readable_at generation slot replies answer (some p) w =
    if p.selection.generation == generation
    then read_done answer (after_read slot p (read_flavor slot replies p.selection)) w
    else (some remove, emit_if_complete answer w)

unfoldable pub on_flavor_readable :
    ℕ → ℕ → List ReadReply → TrySend → WatchState → Option PostAction × WatchState
on_flavor_readable generation slot replies answer w =
    readable_at generation slot replies answer w.pending w

-- the event loop takes a source out whose callback answers so
abbrev pub answered : ℕ → ℕ → Option PostAction × WatchState → WatchState
answered generation slot (some remove, w) = record w {
  sources = filter (λ (s : ReadSource). not ((s.1 == generation) && (s.2 == slot))) w.sources;
}
answered generation slot (action, w) = w

abbrev pub timed_out : ℕ → TrySend → Option Pending → WatchState → WatchState
timed_out generation answer none w = w
timed_out generation answer (some p) w =
    if p.selection.generation == generation
    then emit_if_complete answer (
        take_out (map (λ (e : ℕ × ℕ). remove_token e.1) p.read_tokens) (record w {
          pending = some (record p {
            selection = (abandon_open stalled p.selection).1;
            read_tokens = [];
            timeout_token = none;
          });
        }))
    else w

unfoldable pub on_read_timeout : ℕ → TrySend → WatchState → WatchState
on_read_timeout generation answer w = timed_out generation answer w.pending w
