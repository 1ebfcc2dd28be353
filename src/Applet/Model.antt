-- ===== src/Applet/Model.antt =====
-- crates/clippo-applet/src/model.rs: what the applet shows and which entry is selected.
pub mod Selected
use clippo.Prelude.{
  ℕ, suc, ◌+◌, ◌-◌, Bool, true, false, not, ◌&&◌, List, [], ◌∷◌, Option, none, some, if◌then◌else◌,
  any, find?, length, get_elem?, min,
}
use clippo.Prelude.Int.{ℤ, pos, negsuc, pos_part, ◌+ℤ◌, eqb_ℤ}
use clippo.Prelude.Text.{Text, text_eq, is_empty}
use clippo.Daemon.Cache.{EntrySummary}

pub record EntryKey : Type 0 where
  pub id : ℤ
  pub created_at : ℤ

-- `EntryKey::of`
abbrev pub key_of : EntrySummary → EntryKey
key_of e = record { id = e.id; created_at = e.created_at }

pub data Status : Type 0 where
  connected daemon_unavailable : Status
  daemon_untrusted : Text → Status

abbrev pub is_connected : Status → Bool
is_connected connected = true
is_connected daemon_unavailable = false
is_connected (daemon_untrusted reason) = false

pub record Revealed : Type 0 where
  pub id : ℤ
  pub value : Text

pub record Model : Type 0 where
  pub query : Text
  pub entries : List EntrySummary
  pub selected : Option ℤ
  pub revealed_entry : Option Revealed
  pub status : Status
  pub land_at_top : Bool

abbrev pub forget_revealed : Model → Model
forget_revealed m = record m { revealed_entry = none }

unfoldable pub set_status : Status → Model → Model
set_status status m =
    if is_connected status
    then record m { status = status }
    else record m { entries = []; selected = none; revealed_entry = none; status = status }

unfoldable pub set_query : Text → Model → Model
set_query query m =
    if text_eq query m.query
    then record m { query = query }
    else record m { query = query; land_at_top = true }

abbrev pub restart : Model → Model
restart m = record m { land_at_top = true }

abbrev pub accepts : Text → Model → Bool
accepts query m = text_eq query m.query

abbrev pub with_id : ℤ → EntrySummary → Bool
with_id id e = eqb_ℤ e.id id

unfoldable pub position : ℤ → List EntrySummary → Option ℕ
position id [] = none
position id (e ∷ es) =
    if with_id id e then some 0 else elim (position id es) [ none ↦ none | some i ↦ some (suc i) ]

abbrev pub index_of : Option ℤ → List EntrySummary → Option ℕ
index_of none entries = none
index_of (some id) entries = position id entries

unfoldable pub selected_index : Model → Option ℕ
selected_index m = index_of m.selected m.entries

abbrev entry_of : Option ℤ → List EntrySummary → Option EntrySummary
entry_of none entries = none
entry_of (some id) entries = find? (with_id id) entries

unfoldable pub selected_entry : Model → Option EntrySummary
selected_entry m = entry_of m.selected m.entries

abbrev pub id_at : List EntrySummary → ℕ → Option ℤ
id_at entries i = elim (get_elem? entries i) [ none ↦ none | some e ↦ some e.id ]

abbrev pub is_among : Option ℤ → List EntrySummary → Bool
is_among none entries = false
is_among (some id) entries = any (with_id id) entries

abbrev or_zero : Option ℕ → ℕ
or_zero none = 0
or_zero (some i) = i

-- whether the selection moved, and the model after it
unfoldable pub set_entries : List EntrySummary → Model → Bool × Model
set_entries entries m =
    let still_there = not m.land_at_top && is_among m.selected entries in
    let landing =
      if m.land_at_top then 0 else min (or_zero (selected_index m)) (length entries - 1) in
    (
      not still_there,
      record m {
        entries = entries;
        selected = if still_there then m.selected else id_at entries landing;
        revealed_entry = none;
        land_at_top = false;
      },
    )

unfoldable pub select : ℤ → Model → Model
select id m = if any (with_id id) m.entries then record m { selected = some id } else m

-- `clamp(0, last)`
abbrev clamped : ℤ → ℕ → ℕ
clamped i last = min (pos_part i) last

unfoldable pub step : ℤ → Model → Model
step delta m = if is_empty m.entries then record m { selected = none } else record m {
  selected =
      id_at m.entries (clamped (pos (or_zero (selected_index m)) +ℤ delta) (length m.entries - 1));
}

unfoldable pub select_previous : Model → Model
select_previous m = step (negsuc 0) m

unfoldable pub select_next : Model → Model
select_next m = step (pos 1) m

abbrev pub set_revealed : ℤ → Text → Model → Model
set_revealed id value m = record m { revealed_entry = some (record { id = id; value = value }) }

abbrev shown_if : Option ℤ → Revealed → Option Text
shown_if none r = none
shown_if (some id) r = if eqb_ℤ r.id id then some r.value else none

abbrev shown_of : Option Revealed → Option ℤ → Option Text
shown_of none selected = none
shown_of (some r) selected = shown_if selected r

-- the revealed value, of the selected entry only
unfoldable pub revealed : Model → Option Text
revealed m = shown_of m.revealed_entry m.selected

-- what happens to the model
pub data Change : Type 0 where
  status_is : Status → Change
  query_is : Text → Change
  restarted previous next forgotten : Change
  entries_are : List EntrySummary → Change
  select_it : ℤ → Change
  revealed_is : ℤ → Text → Change

unfoldable pub apply : Change → Model → Model
apply (status_is status) m = set_status status m
apply (query_is query) m = set_query query m
apply restarted m = restart m
apply previous m = select_previous m
apply next m = select_next m
apply forgotten m = forget_revealed m
apply (entries_are entries) m = (set_entries entries m).1
apply (select_it id) m = select id m
apply (revealed_is id value) m = set_revealed id value m

unfoldable pub apply_all : List Change → Model → Model
apply_all [] m = m
apply_all (c ∷ cs) m = apply_all cs (apply c m)
