-- ===== src/Daemon/State.antt =====
-- crates/clippod/src/daemon.rs: the daemon's state and its operations. Each holds the lock from its
-- first look at the state to its last change, so an operation is one step.
pub mod Commit
pub mod Mirrors
pub mod CopyBack
pub mod Guard
pub mod Refines
pub mod Swept
use clippo.Prelude.{
  ℕ, suc, ◌-◌, ◌^◌, Bool, true, false, not, ◌&&◌, ◌||◌, List, [], ◌∷◌, Option, none, some, Result,
  ok, err, ltb, ◌==◌, if◌then◌else◌, filter,
}
use clippo.Prelude.Text.{Text, codes, is_empty}
use clippo.Core.Host.{Host}
use clippo.Core.Entry.{
  EntryId, Timestamp, EntryKind, image, kind_eq, Flavor, Entry, NewEntry, for_flavors,
}
use clippo.Core.Chord.{Chord}
use clippo.Core.Config.{Config}
use clippo.Core.Secrets.Masking.{SecretsConfig, usize_max}
use clippo.Store.Images.{is_offerable}
use clippo.Store.Dedup
use clippo.Store.Tables.{Db}
use clippo.Store.Sql.{StoreError, Backend}
use clippo.Store.Retention.{Sweep, is_empty_sweep}
use clippo.Store.Capture.{Insertion, StoredEntry, Limits, set_config}
use clippo.Store.History
use clippo.Daemon.Echo.{EchoGuard, is_echo}
use clippo.Daemon.Cache.{EntrySummary, PreviewCache, replace, page, search, check_query}
use clippo.Daemon.Preview.{describe}
use clippo.Daemon.Preview
use clippo.Wayland.Selection.{Selection, has_password_manager_hint, selection_is_empty}

-- `State` and the atomics beside it
pub record Daemon : Type 0 where
  pub store : Db
  pub cache : PreviewCache
  pub echo : EchoGuard
  pub paused : Bool
  -- how often `HistoryChanged` was announced
  pub emitted : ℕ

-- what the daemon is given when it starts, and what answers its calls
pub record World : Type 1 where
  pub host : Host
  pub backend : Backend
  pub config : Config
  -- `format!("{:.1}", a as f64 / b as f64)`
  pub tenths : ℕ → ℕ → Text
  -- the score of a preview for a query, by the fuzzy matcher
  pub score : Text → Text → Option ℕ
  -- `clipboard.offer`, once there is a clipboard: whether it fails
  pub clipboard : Option (List Flavor → Bool)
  -- `keystrokes.send`, where there is a keyboard: whether it succeeds
  pub keystrokes : Option (Chord → Bool)

-- `fdo::Error`, with what its message names
pub data FdoError : Type 0 where
  failed : Text → StoreError → FdoError
  no_clipboard nothing_to_offer offer_failed : EntryId → FdoError
  no_such_entry : EntryId → FdoError
  not_supported : EntryId → FdoError
  access_denied : Text → FdoError
  query_too_long : FdoError

pub data Command : Type 0 where
  capture : Selection → Timestamp → Command
  lost : Command
  copy paste_it : EntryId → Timestamp → Command
  delete_it : EntryId → Command
  pin_it : EntryId → Bool → Command
  clear_all pause : Bool → Command

abbrev Step : Type 0 → Type 0
Step A = Daemon → Daemon × Result A FdoError

-- `reload`, where the caller goes on after a failure: the cache is then what it was
abbrev pub reloaded : Daemon → Db × Result (List Entry) StoreError → Daemon
reloaded d (db, ok entries) = record d { store = db; cache = replace entries }
reloaded d (db, err e) = record d { store = db }

abbrev pub history_changed : Daemon → Daemon
history_changed d = record d { emitted = suc d.emitted }

abbrev or_no : Result Bool StoreError → Bool
or_no (ok touched) = touched
or_no (err e) = false

abbrev pub if_allowed : {A : Type 0} → Bool → Text → Step A → Step A
if_allowed true member step d = step d
if_allowed false member step d = (d, err (access_denied member))

module _ (w : World) where
  unfoldable pub reload : Daemon → Daemon
  reload d = reloaded d (History.list w.backend usize_max 0 d.store)

  abbrev started : Db → Result (List Entry) StoreError → Result Daemon StoreError
  started db (err e) = err e
  started db (ok entries) =
      ok (record { store = db; cache = replace entries; echo = none; paused = false; emitted = 0 })

  -- `Daemon::new`
  unfoldable pub start : Db → Result Daemon StoreError
  start db = started db (History.list w.backend usize_max 0 db).1

  unfoldable pub commit : Bool → Daemon → Daemon
  commit changed d = if changed then history_changed (reload d) else d

  -- `new_entry`
  unfoldable pub new_entry : Selection → Timestamp → Option NewEntry
  new_entry selection now = elim (for_flavors selection.flavors) [
    | none ↦ none
    | some kind ↦ elim (Dedup.hash w.host kind selection.flavors) [
      | none ↦ none
      | some hash ↦
          let described =
            describe w.host w.tenths kind selection.flavors (has_password_manager_hint selection)
              w.config.secrets in
          some (record {
            created_at = now;
            kind = kind;
            preview = described.preview;
            hash = hash;
            sensitive = described.sensitive;
            flavors = selection.flavors;
          })
    ]
  ]

  abbrev pub recorded : Daemon → Db × Result Insertion StoreError → Daemon
  recorded d (db, ok insertion) = history_changed (reload (record d { store = db }))
  recorded d (db, err e) = record d { store = db }

  -- the guard is asked first, and is disarmed by any copy that could be stored
  unfoldable pub capture_new : NewEntry → Daemon → Daemon
  capture_new new d =
      let (echo, guard) = is_echo new.hash d.echo in
      let asked = record d { echo = guard } in
      if echo || d.paused
      then asked
      else recorded asked (History.insert w.backend (set_config w.config) new d.store)

  abbrev pub capture_some : Option NewEntry → Daemon → Daemon
  capture_some none d = d
  capture_some (some new) d = capture_new new d

  unfoldable pub capture_at : Selection → Timestamp → Daemon → Daemon
  capture_at selection now d =
      if selection_is_empty selection then d else capture_some (new_entry selection now) d

  unfoldable pub selection_lost : Daemon → Daemon
  selection_lost d = record d { echo = none }

  abbrev pub touched_at : Daemon → Db × Result Bool StoreError → Daemon
  touched_at d (db, touched) = commit (or_no touched) (record d { store = db })

  -- what is offered is on the clipboard: the entry moves to the front
  unfoldable pub offer : (List Flavor → Bool) → EntryId → Timestamp → StoredEntry → Step (Unit {0})
  offer fails id now stored d =
      let offerable = filter (λ f. is_offerable f.mime) stored.flavors in
      if is_empty offerable
      then (d, err (nothing_to_offer id))
      else if fails offerable
      then (record d { echo = none }, err (offer_failed id))
      else (
        touched_at (record d { echo = some stored.entry.hash })
            (History.touch w.backend id now d.store),
        ok tt,
      )

  abbrev pub offer_found :
      (List Flavor → Bool)
      → EntryId
      → Timestamp
      → Db × Result (Option StoredEntry) StoreError
      → Step (Unit {0})
  offer_found fails id now (db, err e) d = (d, err (failed (codes "copy") e))
  offer_found fails id now (db, ok none) d = (d, err (no_such_entry id))
  offer_found fails id now (db, ok (some stored)) d = offer fails id now stored d

  abbrev pub copy_with : Option (List Flavor → Bool) → EntryId → Timestamp → Step (Unit {0})
  copy_with none id now d = (d, err (no_clipboard id))
  copy_with (some fails) id now d = offer_found fails id now (History.get w.backend id d.store) d

  unfoldable pub copy_at : EntryId → Timestamp → Step (Unit {0})
  copy_at id now d = copy_with w.clipboard id now d

  abbrev check_privileged : {A : Type 0} → Text → Step A → Step A
  check_privileged member step d = if_allowed w.config.allow_privileged_members member step d

  abbrev pressed : Option (Chord → Bool) → Bool
  pressed none = false
  pressed (some send) = w.config.auto_paste && send w.config.paste_shortcut

  -- whether the shortcut was pressed; the keystroke touches no state
  abbrev pub then_press : Daemon × Result (Unit {0}) FdoError → Daemon × Result Bool FdoError
  then_press (d, err e) = (d, err e)
  then_press (d, ok u) = (d, ok (pressed w.keystrokes))

  unfoldable pub paste : EntryId → Timestamp → Step Bool
  paste id now = check_privileged (codes "Paste") (λ d. then_press (copy_at id now d))

  -- a change that names one entry
  abbrev pub changed_one :
      Text → EntryId → Daemon → Db × Result Bool StoreError → Daemon × Result (Unit {0}) FdoError
  changed_one member id d (db, err e) = (record d { store = db }, err (failed member e))
  changed_one member id d (db, ok changed) =
      (commit changed (record d { store = db }), if changed then ok tt else err (no_such_entry id))

  unfoldable pub delete : EntryId → Step (Unit {0})
  delete id d = changed_one (codes "delete") id d (History.delete w.backend id d.store)

  unfoldable pub pin : EntryId → Bool → Step (Unit {0})
  pin id pinned d = changed_one (codes "pin") id d (History.set_pinned w.backend id pinned d.store)

  abbrev pub cleared : Daemon → Db × Result ℕ StoreError → Daemon × Result (Unit {0}) FdoError
  cleared d (db, err e) = (record d { store = db }, err (failed (codes "clear") e))
  cleared d (db, ok n) = (commit (ltb 0 n) (record d { store = db }), ok tt)

  unfoldable pub clear : Bool → Step (Unit {0})
  clear include_pinned d = cleared d (History.clear w.backend include_pinned d.store)

  -- a failure leaves before the reload, with what the first statement deleted gone
  abbrev pub swept_with :
      Daemon → Db × Result Sweep StoreError → Daemon × Result (Unit {0}) StoreError
  swept_with d (db, err e) = (record d { store = db }, err e)
  swept_with d (db, ok swept) =
      (commit (not (is_empty_sweep swept)) (record d { store = db }), ok tt)

  unfoldable pub sweep_retention : Timestamp → Daemon → Daemon × Result (Unit {0}) StoreError
  sweep_retention now d =
      swept_with d (History.enforce_retention w.backend (set_config w.config).retention now d.store)

  unfoldable pub set_paused : Bool → Step (Unit {0})
  set_paused paused d = (record d { paused = paused }, ok tt)

  -- what a client or the clipboard asks of the daemon
  unfoldable pub perform : Command → Daemon → Daemon
  perform (capture selection now) d = capture_at selection now d
  perform lost d = selection_lost d
  perform (copy id now) d = (copy_at id now d).0
  perform (paste_it id now) d = (paste id now d).0
  perform (delete_it id) d = (delete id d).0
  perform (pin_it id pinned) d = (pin id pinned d).0
  perform (clear_all include_pinned) d = (clear include_pinned d).0
  perform (pause paused) d = (set_paused paused d).0

  unfoldable pub perform_all : List Command → Daemon → Daemon
  perform_all [] d = d
  perform_all (c ∷ cs) d = perform_all cs (perform c d)

  -- the members that only answer
  unfoldable pub list : ℕ → ℕ → Daemon → List EntrySummary
  list limit offset d = page limit offset d.cache

  unfoldable pub search_for : Text → ℕ → Daemon → Result (List EntrySummary) FdoError
  search_for query limit d = elim (search w.score query limit d.cache) [
    | ok found ↦ ok found
    | err e ↦ err query_too_long
  ]

  abbrev shown : EntryId → Result (Option StoredEntry) StoreError → Result Text FdoError
  shown id (err e) = err (failed (codes "reveal") e)
  shown id (ok none) = err (no_such_entry id)
  shown id (ok (some stored)) = elim (Preview.reveal w.host stored.entry.kind stored.flavors) [
    | none ↦ err (not_supported id)
    | some value ↦ ok value
  ]

  unfoldable pub reveal : EntryId → Daemon → Result Text FdoError
  reveal id d =
      if w.config.allow_privileged_members
      then shown id (History.get w.backend id d.store).1
      else err (access_denied (codes "Reveal"))

  abbrev png_of : EntryId → Result (Option (List ℕ)) StoreError → Result (List ℕ) FdoError
  png_of id (err e) = err (failed (codes "thumbnail") e)
  png_of id (ok none) = err (not_supported id)
  png_of id (ok (some png)) = ok png

  abbrev thumbnail_from :
      EntryId → Daemon → Result (Option Entry) StoreError → Result (List ℕ) FdoError
  thumbnail_from id d (err e) = err (failed (codes "thumbnail") e)
  thumbnail_from id d (ok none) = err (no_such_entry id)
  thumbnail_from id d (ok (some e)) =
      if kind_eq e.kind image
      then png_of id (History.thumbnail w.backend id d.store).1
      else err (not_supported id)

  unfoldable pub thumbnail : EntryId → Daemon → Result (List ℕ) FdoError
  thumbnail id d = thumbnail_from id d (History.entry w.backend id d.store).1
