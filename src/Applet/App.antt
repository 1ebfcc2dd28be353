-- ===== src/Applet/App.antt =====
-- crates/clippo-applet/src/app.rs and surface.rs: the applet, and its picker.
pub mod Face
pub mod Tidy
use clippo.Prelude.{
  ℕ, Bool, true, false, not, ◌&&◌, ◌||◌, List, [], ◌∷◌, ◌++◌, Option, none, some, if◌then◌else◌,
  ◌==◌, is_some,
}
use clippo.Prelude.Int.{ℤ}
use clippo.Prelude.Text.{Text, codes, eq_ignore_case}
use clippo.Daemon.Cache.{EntrySummary}
use clippo.Applet.Model.{
  Model, EntryKey, Status, connected, daemon_unavailable, daemon_untrusted, forget_revealed,
  set_status, set_query, restart, accepts, set_entries, select, select_previous, select_next,
  set_revealed, selected_entry,
}
use clippo.Applet.Thumbnails.{Thumbnails, no_thumbnails, wanted, mark_asked, store, prune, clear}

-- `bus::Request`
pub data Request : Type 0 where
  refresh : Text → Request
  paste delete reveal : ℤ → Request
  pin : ℤ → Bool → Request
  thumbnail : EntryKey → Request

-- `bus::Event`
pub data BusEvent : Type 0 where
  ready toggled daemon_up daemon_down : BusEvent
  entries_came : Text → List EntrySummary → BusEvent
  revealed_came : ℤ → Text → BusEvent
  thumbnail_came : EntryKey → Option (List ℕ) → BusEvent
  untrusted failed : Text → BusEvent

pub data Action : Type 0 where
  previous next activate_it remove_it toggle_pin reveal_it dismiss_it : Action

-- a press of a key, and the modifiers held with it
data KeyName : Type 0 where
  arrow_up arrow_down enter delete_key escape : KeyName
  character : Text → KeyName
  other_key : KeyName

record Modifiers : Type 0 where
  pub control : Bool
  pub alt : Bool
  pub shift : Bool
  pub logo : Bool

abbrev only_control : Modifiers → Bool
only_control m = m.control && not m.alt && not m.shift && not m.logo

abbrev unless_control : Modifiers → Action → Option Action
unless_control m action = if not m.control then some action else none

unfoldable action_for : KeyName → Modifiers → Option Action
action_for arrow_up m = unless_control m previous
action_for arrow_down m = unless_control m next
action_for enter m = unless_control m activate_it
action_for delete_key m = unless_control m remove_it
action_for escape m = some dismiss_it
action_for (character c) m =
    if only_control m && eq_ignore_case c (codes "p")
    then some toggle_pin
    else if only_control m && eq_ignore_case c (codes "r")
    then some reveal_it
    else none
action_for other_key m = none

-- `Message`, less the scrolling of the list
pub data Message : Type 0 where
  icon_pressed : Message
  opened closed unfocused : ℕ → Message
  query_changed : Text → Message
  chose : ℤ → Message
  key : Action → Message
  bus : BusEvent → Message

-- what is asked of the toolkit; where the list is scrolled to is not modelled
pub data Task : Type 0 where
  nothing focus_search scroll : Task
  open_surface destroy_surface : ℕ → Task

-- `Clippo`: its picker is the surface that is open; `sent` is what went into the channel to the bus so
-- far, where there is one
pub record App : Type 0 where
  pub model : Model
  pub picker : Option ℕ
  pub is_ready : Bool
  pub sent : List Request
  pub thumbnails : Thumbnails

abbrev pub is_open : App → Bool
is_open a = is_some a.picker

-- `Picker::close`
abbrev close_picker : Option ℕ → Task
close_picker none = nothing
close_picker (some id) = destroy_surface id

abbrev pub is_picker : ℕ → Option ℕ → Bool
is_picker id none = false
is_picker id (some open_id) = open_id == id

-- `takes`: whether the channel takes one more request, after those that were sent
module _ (takes : List Request → Bool) where
  unfoldable pub ask : Request → App → Bool × App
  ask request a =
      if not a.is_ready
      then (false, a)
      else if takes a.sent
      then (true, record a { sent = a.sent ++ request ∷ [] })
      else (false, a)

  abbrev pub refresh_list : App → App
  refresh_list a = (ask (refresh a.model.query) a).1

  abbrev pub refresh_if_visible : App → App
  refresh_if_visible a = if is_open a then refresh_list a else a

  abbrev pub dismiss : App → Task × App
  dismiss a = (close_picker a.picker, record a { model = forget_revealed a.model; picker = none })

  -- by `selected_id`
  abbrev pub activate_at : Option ℤ → App → Task × App
  activate_at none a = (nothing, a)
  activate_at (some id) a = dismiss (ask (paste id) a).1

  unfoldable pub activate : App → Task × App
  activate a = activate_at a.model.selected a

  -- `Picker::show`, with the number that `Id::unique` makes
  abbrev pub show_at : ℕ → Option ℕ → Task × Option ℕ
  show_at fresh none = (open_surface fresh, some fresh)
  show_at fresh (some id) = (nothing, some id)

  unfoldable pub present : ℕ → App → Task × App
  present fresh a =
      let (opening, picker) = show_at fresh a.picker in
      (
        opening,
        refresh_if_visible (record a { model = restart (set_query [] a.model); picker = picker }),
      )

  unfoldable pub toggle : ℕ → App → Task × App
  toggle fresh a = if is_open a then dismiss a else present fresh a

  abbrev pub fetch_on : EntryKey → Bool × App → App
  fetch_on k (sent, a) = record a { thumbnails = mark_asked k a.thumbnails }

  -- the loop of `fetch_thumbnails`
  unfoldable pub fetch_all : List EntryKey → App → App
  fetch_all [] a = a
  fetch_all (k ∷ ks) a =
      let asked = ask (thumbnail k) a in
      elim asked.0 [ true ↦ fetch_all ks (fetch_on k asked) | false ↦ a ]

  abbrev pub fetch_thumbnails : App → App
  fetch_thumbnails a = fetch_all (wanted a.model.entries a.thumbnails) a

  abbrev pub with_entries : Bool × Model → App → Task × App
  with_entries (landed, m) a = (
    if landed then scroll else nothing,
    fetch_thumbnails (record a { model = m; thumbnails = prune m.entries a.thumbnails }),
  )

  unfoldable pub on_bus : ℕ → BusEvent → App → Task × App
  on_bus fresh ready a = (nothing, refresh_if_visible (record a { is_ready = true; sent = [] }))
  on_bus fresh (entries_came query entries) a =
      if accepts query a.model then with_entries (set_entries entries a.model) a else (nothing, a)
  on_bus fresh (revealed_came id value) a =
      (nothing, record a { model = set_revealed id value a.model })
  on_bus fresh (thumbnail_came k bytes) a =
      (nothing, fetch_thumbnails (record a { thumbnails = store k bytes a.thumbnails }))
  on_bus fresh toggled a = toggle fresh a
  on_bus fresh daemon_up a =
      (nothing, refresh_if_visible (record a { model = set_status connected a.model }))
  on_bus fresh daemon_down a = (
    nothing,
    record a { model = set_status daemon_unavailable a.model; thumbnails = clear a.thumbnails },
  )
  on_bus fresh (untrusted why) a = (
    nothing,
    record a { model = set_status (daemon_untrusted why) a.model; thumbnails = clear a.thumbnails },
  )
  on_bus fresh (failed message) a = (nothing, a)

  -- a request about the selected entry, where there is one
  abbrev pub ask_for {ℓ} : {A : Type ℓ} → (A → Request) → Option A → App → App
  ask_for request none a = a
  ask_for request (some x) a = (ask (request x) a).1

  abbrev pub act : Action → App → Task × App
  act previous a = (scroll, record a { model = select_previous a.model })
  act next a = (scroll, record a { model = select_next a.model })
  act activate_it a = activate a
  act dismiss_it a = dismiss a
  act remove_it a = (nothing, ask_for delete a.model.selected a)
  act toggle_pin a =
      (nothing, ask_for (λ (e : EntrySummary). pin e.id (not e.pinned)) (selected_entry a.model) a)
  act reveal_it a = (nothing, ask_for reveal a.model.selected a)

  unfoldable pub on_key : Action → App → Task × App
  on_key action a = if not (is_open a) then (nothing, a) else act action a

  unfoldable pub update : ℕ → Message → App → Task × App
  update fresh icon_pressed a = toggle fresh a
  update fresh (opened id) a = (if is_picker id a.picker then focus_search else nothing, a)
  update fresh (closed id) a = (
    nothing,
    if is_picker id a.picker
        then record a { model = forget_revealed a.model; picker = none }
        else a,
  )
  update fresh (unfocused id) a = if is_picker id a.picker then dismiss a else (nothing, a)
  update fresh (query_changed query) a =
      (nothing, refresh_list (record a { model = set_query query a.model }))
  update fresh (chose id) a = activate (record a { model = select id a.model })
  update fresh (key action) a = on_key action a
  update fresh (bus event) a = on_bus fresh event a

  -- each message with the number of the surface it may open
  unfoldable pub run : List (ℕ × Message) → App → App
  run [] a = a
  run (m ∷ ms) a = run ms (update m.0 m.1 a).1

abbrev pub new_app : Model → App
new_app m = record {
  model = m;
  picker = none;
  is_ready = false;
  sent = [];
  thumbnails = no_thumbnails;
}
