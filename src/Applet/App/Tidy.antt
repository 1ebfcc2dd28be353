-- ===== src/Applet/App/Tidy.antt =====
-- app.rs: what is selected, and that nothing revealed outlives the picker.
use clippo.Prelude.{
  ℕ, ◌≡◌, refl, ◌∙◌, Bool, true, false, not, List, [], ◌∷◌, Option, none, some, Bool-cases, inl,
  inr, if◌then◌else◌,
}
use clippo.Prelude.Int.{ℤ, pos, negsuc}
use clippo.Daemon.Cache.{EntrySummary}
use clippo.Applet.Model.{
  Status, connected, daemon_unavailable, daemon_untrusted, forget_revealed, set_status, set_query,
  accepts, set_entries, select, select_previous, select_next, step, selected_entry,
}
use clippo.Applet.Model.Selected.{
  set_entries-IsSelected, step-IsSelected, select-IsSelected, set_status-IsSelected,
  set_query-IsSelected,
}
use clippo.Applet.Thumbnails.{prune, store}
use clippo.Applet.App.{
  Request, refresh, delete, reveal, pin, BusEvent, ready, toggled, daemon_up, daemon_down,
  entries_came, revealed_came, thumbnail_came, untrusted, failed, Action, previous, next,
  activate_it, remove_it, toggle_pin, reveal_it, dismiss_it, Message, icon_pressed, opened, closed,
  unfocused, query_changed, chose, key, bus, App, is_open, is_picker, fetch_thumbnails,
  with_entries, on_bus, ask_for, act, on_key, update, run,
}
use clippo.Applet.App.Face.{
  IsTidy, IsTidy-face, ask-IsTidy, refresh_if_visible-IsTidy, dismiss-IsTidy, activate-IsTidy,
  toggle-IsTidy, changed-IsTidy, set_status-revealed, set_query-revealed, select-revealed,
  step-revealed, fetch_thumbnails-face,
}

-- where none of the messages brings a revealed value while the picker is closed
abbrev IsTimely : ℕ × Message → App → Type 0
IsTimely (fresh, bus (revealed_came id value)) a = is_open a ≡ true
IsTimely m a = Unit

module _ (takes : List Request → Bool) where
  status-IsTidy :
      (status : Status) (a : App)
      → IsTidy a
      → IsTidy (record a { model = set_status status a.model })
  status-IsTidy status a h =
      changed-IsTidy takes a (set_status status a.model) (set_status-IsSelected status a.model h.0)
        (set_status-revealed takes status a.model) h

  entries-IsTidy :
      (entries : List EntrySummary) (a : App)
      → IsTidy (with_entries takes (set_entries entries a.model) a).1
  unfolding set_entries
  entries-IsTidy entries a =
      let m = (set_entries entries a.model).1 in
      let b = record a { model = m; thumbnails = prune m.entries a.thumbnails } in
      IsTidy-face takes b (fetch_thumbnails takes b) (fetch_thumbnails-face takes b)
        (set_entries-IsSelected entries a.model, λ shut. refl)

  on_bus-IsTidy :
      (fresh : ℕ) (e : BusEvent) (a : App)
      → IsTimely (fresh, bus e) a
      → IsTidy a
      → IsTidy (on_bus takes fresh e a).1
  unfolding on_bus
  on_bus-IsTidy fresh ready a t h =
      refresh_if_visible-IsTidy takes (record a { is_ready = true; sent = [] }) h
  on_bus-IsTidy fresh (entries_came query entries) a t h =
      elim (Bool-cases (accepts query a.model)) [
        | inl e ↦ rw e (entries-IsTidy entries a)
        | inr e ↦ rw e h
      ]
  on_bus-IsTidy fresh (revealed_came id value) a t (s, h) = (s, λ shut. cc)
  on_bus-IsTidy fresh (thumbnail_came k bytes) a t h =
      let b = record a { thumbnails = store k bytes a.thumbnails } in
      IsTidy-face takes b (fetch_thumbnails takes b) (fetch_thumbnails-face takes b) h
  on_bus-IsTidy fresh toggled a t h = toggle-IsTidy takes fresh a h
  on_bus-IsTidy fresh daemon_up a t h =
      refresh_if_visible-IsTidy takes (record a { model = set_status connected a.model })
        (status-IsTidy connected a h)
  on_bus-IsTidy fresh daemon_down a t h = status-IsTidy daemon_unavailable a h
  on_bus-IsTidy fresh (untrusted why) a t h = status-IsTidy (daemon_untrusted why) a h
  on_bus-IsTidy fresh (failed message) a t h = h

  ask_for-IsTidy {ℓ} :
      {A : Type ℓ} (request : A → Request) (o : Option A) (a : App)
      → IsTidy a
      → IsTidy (ask_for takes request o a)
  ask_for-IsTidy request none a h = h
  ask_for-IsTidy request (some x) a h = ask-IsTidy takes (request x) a h

  moved-IsTidy : (delta : ℤ) (a : App) → IsTidy a → IsTidy (record a { model = step delta a.model })
  moved-IsTidy delta a h =
      changed-IsTidy takes a (step delta a.model) (step-IsSelected delta a.model)
        (λ hidden. step-revealed takes delta a.model ∙ hidden) h

  act-IsTidy : (action : Action) (a : App) → IsTidy a → IsTidy (act takes action a).1
  unfolding select_previous select_next
  act-IsTidy previous a h = moved-IsTidy (negsuc 0) a h
  act-IsTidy next a h = moved-IsTidy (pos 1) a h
  act-IsTidy activate_it a h = activate-IsTidy takes a h
  act-IsTidy dismiss_it a h = dismiss-IsTidy takes a h.0
  act-IsTidy remove_it a h = ask_for-IsTidy delete a.model.selected a h
  act-IsTidy toggle_pin a h =
      ask_for-IsTidy (λ (e : EntrySummary). pin e.id (not e.pinned)) (selected_entry a.model) a h
  act-IsTidy reveal_it a h = ask_for-IsTidy reveal a.model.selected a h

  update-IsTidy :
      (fresh : ℕ) (m : Message) (a : App)
      → IsTimely (fresh, m) a
      → IsTidy a
      → IsTidy (update takes fresh m a).1
  unfolding update on_key
  update-IsTidy fresh icon_pressed a t h = toggle-IsTidy takes fresh a h
  update-IsTidy fresh (opened id) a t h = h
  update-IsTidy fresh (closed id) a t h = go (is_picker id a.picker)
    where
      go :
          (b : Bool)
          → IsTidy (if b then record a { model = forget_revealed a.model; picker = none } else a)
      go true = (h.0, λ shut. refl)
      go false = h
  update-IsTidy fresh (unfocused id) a t h = elim (Bool-cases (is_picker id a.picker)) [
    | inl e ↦ rw e (dismiss-IsTidy takes a h.0)
    | inr e ↦ rw e h
  ]
  update-IsTidy fresh (query_changed query) a t h =
      ask-IsTidy takes (refresh (set_query query a.model).query)
        (record a { model = set_query query a.model })
        (changed-IsTidy takes a (set_query query a.model) (set_query-IsSelected query a.model h.0)
          (λ hidden. set_query-revealed takes query a.model ∙ hidden) h)
  update-IsTidy fresh (chose id) a t h =
      activate-IsTidy takes (record a { model = select id a.model })
        (changed-IsTidy takes a (select id a.model) (select-IsSelected id a.model h.0)
          (λ hidden. select-revealed takes id a.model ∙ hidden) h)
  update-IsTidy fresh (key action) a t h = elim (Bool-cases (is_open a)) [
    | inl e ↦ rw e (act-IsTidy action a h)
    | inr e ↦ rw e h
  ]
  update-IsTidy fresh (bus e) a t h = on_bus-IsTidy fresh e a t h

  -- every message is timely when it arrives
  abbrev AreTimely : List (ℕ × Message) → App → Type 0
  AreTimely [] a = Unit
  AreTimely (m ∷ ms) a = IsTimely m a × AreTimely ms (update takes m.0 m.1 a).1

  -- Whatever happens to the applet, an entry is selected where any are listed, and while its picker is
  -- closed it holds no revealed value, as long as no revealed value comes while the picker is closed.
  pub run-IsTidy :
      (ms : List (ℕ × Message)) (a : App) → AreTimely ms a → IsTidy a → IsTidy (run takes ms a)
  unfolding run
  run-IsTidy [] a t h = h
  run-IsTidy (m ∷ ms) a (t, ts) h =
      run-IsTidy ms (update takes m.0 m.1 a).1 ts (update-IsTidy m.0 m.1 a t h)
