-- ===== src/Applet/App/Face.antt =====
-- app.rs: what each part of the applet does to its model and its picker.
use clippo.Prelude.{
  ℕ, ◌≡◌, refl, sym, ◌∙◌, Bool, true, false, not, List, [], ◌∷◌, Option, none, some, Bool-cases,
  inl, inr, subst, if◌then◌else◌, is_some, any, ◌++◌,
}
use clippo.Prelude.Int.{ℤ}
use clippo.Prelude.Text.{Text, text_eq, is_empty}
use clippo.Applet.Model.{
  Model, EntryKey, Status, is_connected, set_status, set_query, restart, select, step, with_id,
}
use clippo.Applet.Model.Selected.{IsSelected, set_query-IsSelected}
use clippo.Applet.Thumbnails.{wanted}
use clippo.Applet.App.{
  Request, refresh, thumbnail, paste, App, is_open, ask, refresh_list, refresh_if_visible, dismiss,
  activate_at, activate, show_at, present, toggle, fetch_on, fetch_all, fetch_thumbnails,
}

-- what is shown, and whether
abbrev face : App → Model × Option ℕ
face a = (a.model, a.picker)

-- an entry is selected where there are any, and where the picker is closed nothing revealed is held
abbrev IsTidyFace : Model × Option ℕ → Type 0
IsTidyFace f = IsSelected f.0 × (is_some f.1 ≡ false → f.0.revealed_entry ≡ none)

abbrev pub IsTidy : App → Type 0
IsTidy a = IsTidyFace (face a)

module _ (takes : List Request → Bool) where
  ask-face : (r : Request) (a : App) → face (ask takes r a).1 ≡ face a
  unfolding ask
  ask-face r a = go a.is_ready (takes a.sent)
    where
      asked : Bool → Bool → Bool × App
      asked b c =
          if not b
          then (false, a)
          else if c
          then (true, record a { sent = a.sent ++ r ∷ [] })
          else (false, a)

      go : (b c : Bool) → face (asked b c).1 ≡ face a
      go false c = refl
      go true true = refl
      go true false = refl

  fetch_on-face : (k : EntryKey) (r : Bool × App) → face (fetch_on takes k r) ≡ face r.1
  fetch_on-face k (sent, a) = refl

  fetch_all-face : (ks : List EntryKey) (a : App) → face (fetch_all takes ks a) ≡ face a
  unfolding fetch_all
  fetch_all-face [] a = refl
  fetch_all-face (k ∷ ks) a = go (ask takes (thumbnail k) a).0 (
      fetch_all-face ks (fetch_on takes k (ask takes (thumbnail k) a))
      ∙ fetch_on-face k (ask takes (thumbnail k) a)
      ∙ ask-face (thumbnail k) a)
    where
      go :
          (b : Bool)
          → face (fetch_all takes ks (fetch_on takes k (ask takes (thumbnail k) a))) ≡ face a
          → face (elim b [
            | true ↦ fetch_all takes ks (fetch_on takes k (ask takes (thumbnail k) a))
            | false ↦ a
          ])
            ≡ face a
      go true h = h
      go false h = refl

  pub fetch_thumbnails-face : (a : App) → face (fetch_thumbnails takes a) ≡ face a
  fetch_thumbnails-face a = fetch_all-face (wanted a.model.entries a.thumbnails) a

  pub IsTidy-face : (a b : App) → face b ≡ face a → IsTidy a → IsTidy b
  IsTidy-face a b same h = subst (λ (f : Model × Option ℕ). IsTidyFace f) (sym same) h

  pub ask-IsTidy : (r : Request) (a : App) → IsTidy a → IsTidy (ask takes r a).1
  ask-IsTidy r a h = IsTidy-face a (ask takes r a).1 (ask-face r a) h

  pub refresh_if_visible-IsTidy : (a : App) → IsTidy a → IsTidy (refresh_if_visible takes a)
  refresh_if_visible-IsTidy a h = go (is_open a)
    where
      go : (b : Bool) → IsTidy (if b then refresh_list takes a else a)
      go true = ask-IsTidy (refresh a.model.query) a h
      go false = h

  pub dismiss-IsTidy : (a : App) → IsSelected a.model → IsTidy (dismiss takes a).1
  dismiss-IsTidy a h = (h, λ e. refl)

  pub activate-IsTidy : (a : App) → IsTidy a → IsTidy (activate takes a).1
  unfolding activate
  activate-IsTidy a h = go a.model.selected
    where
      go : (o : Option ℤ) → IsTidy (activate_at takes o a).1
      go none = h
      go (some id) = dismiss-IsTidy (ask takes (paste id) a).1 (ask-IsTidy (paste id) a h).0

  show_at-open : (fresh : ℕ) (p : Option ℕ) → is_some (show_at takes fresh p).1 ≡ true
  unfolding is_some
  show_at-open fresh none = refl
  show_at-open fresh (some id) = refl

  present-IsTidy : (fresh : ℕ) (a : App) → IsTidy a → IsTidy (present takes fresh a).1
  unfolding present
  present-IsTidy fresh a (s, h) =
      let q = (show_at takes fresh a.picker).1 in
      let shown = show_at-open fresh a.picker in
      refresh_if_visible-IsTidy (record a { model = restart (set_query [] a.model); picker = q })
        (set_query-IsSelected [] a.model s, λ shut. cc)

  pub toggle-IsTidy : (fresh : ℕ) (a : App) → IsTidy a → IsTidy (toggle takes fresh a).1
  unfolding toggle
  toggle-IsTidy fresh a h = go (is_open a)
    where
      go : (b : Bool) → IsTidy (if b then dismiss takes a else present takes fresh a).1
      go true = dismiss-IsTidy a h.0
      go false = present-IsTidy fresh a h

  -- a change of the model that reveals nothing
  pub changed-IsTidy :
      (a : App) (m : Model)
      → IsSelected m
      → (a.model.revealed_entry ≡ none → m.revealed_entry ≡ none)
      → IsTidy a
      → IsTidy (record a { model = m })
  changed-IsTidy a m s keeps (s', h) = (s, λ shut. keeps (h shut))

  pub set_status-revealed :
      (status : Status) (m : Model)
      → m.revealed_entry ≡ none
      → (set_status status m).revealed_entry ≡ none
  unfolding set_status
  set_status-revealed status m h = go (is_connected status)
    where
      go :
          (b : Bool)
          → (if b then record m { status = status } else record m {
            entries = [];
            selected = none;
            revealed_entry = none;
            status = status;
          }).revealed_entry
            ≡ none
      go true = h
      go false = refl

  pub set_query-revealed :
      (query : Text) (m : Model) → (set_query query m).revealed_entry ≡ m.revealed_entry
  unfolding set_query
  set_query-revealed query m = go (text_eq query m.query)
    where
      go :
          (b : Bool)
          → (if b
              then record m { query = query }
              else record m { query = query; land_at_top = true }).revealed_entry
            ≡ m.revealed_entry
      go true = refl
      go false = refl

  pub select-revealed : (id : ℤ) (m : Model) → (select id m).revealed_entry ≡ m.revealed_entry
  unfolding select
  select-revealed id m = go (any (with_id id) m.entries)
    where
      go :
          (b : Bool)
          → (if b then record m { selected = some id } else m).revealed_entry ≡ m.revealed_entry
      go true = refl
      go false = refl

  pub step-revealed : (delta : ℤ) (m : Model) → (step delta m).revealed_entry ≡ m.revealed_entry
  unfolding step
  step-revealed delta m = elim (Bool-cases (is_empty m.entries)) [
    | inl e ↦ rw e refl
    | inr e ↦ rw e refl
  ]
