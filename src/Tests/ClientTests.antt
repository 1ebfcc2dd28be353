-- ===== src/Tests/ClientTests.antt =====
-- crates/clippo-cli and crates/clippo-applet at concrete inputs.
use clippo.Prelude.{
  ℕ, ◌≡◌, refl, Bool, true, false, List, [], ◌∷◌, Option, none, some, is_some, Result, ok, map, ◌⊎◌,
  if◌then◌else◌, ◌==◌,
}
use clippo.Prelude.Int.{ℤ, pos, negsuc}
use clippo.Prelude.Text.{Text, codes, text_eq, trim, is_whitespace, to_ascii_lowercase}
use clippo.Daemon.Cache.{EntrySummary}
use clippo.Core.Display.{is_invisible_or_reordering}
use clippo.Ipc.Peer.{PeerError, owned_by, from_paths, owner_of, is_sandboxed}
use clippo.Cli.Ids.{resolve}
use clippo.Cli.Ids.Resolved.{Means, resolve-Means}
use clippo.Cli.Render.{row, headers, table, escape_all, escape_invisible}
use clippo.Cli.Render.Aligned.{IsAligned, table-IsAligned}
use clippo.Cli.Run.{ClearAnswers, affirmative, doomed, remove_all, clear}
use clippo.Cli.Run.Asked.{Clears, WasAsked, clear-asked, IsUpTo, remove_all-IsUpTo}
use clippo.Applet.Bus.{Woken, Answers, requested, history_changed, toggle_asked, start, loop}
use clippo.Applet.Bus.Silent.{loop-start}
use clippo.Applet.Model.{
  Model, connected, entries_are, next, previous, apply_all, set_query, revealed,
}
use clippo.Applet.App.{
  Request, refresh, reveal, ready, revealed_came, reveal_it, dismiss_it, Message, icon_pressed, key,
  bus, new_app, ask, toggle, present, on_bus, on_key, update, run,
}
use clippo.Applet.App.Tidy.{run-IsTidy}
use clippo.Applet.App.Face.{IsTidy}
use clippo.Applet.Model.Selected.{IsSelected, apply_all-IsSelected}

abbrev summary : ℤ → EntrySummary
summary id = record {
  id = id;
  created_at = pos 1;
  last_used_at = pos 1;
  kind = codes "text";
  preview = codes "hello";
  pinned = false;
  sensitive = false;
}

abbrev three_entries : List EntrySummary
three_entries = summary (pos 12) ∷ summary (pos 13) ∷ summary (pos 2) ∷ []

resolve-Means_example : Means (codes "2") three_entries (resolve (codes "2") three_entries)
resolve-Means_example = resolve-Means (codes "2") three_entries

abbrev empty_model : Model
empty_model = record {
  query = [];
  entries = [];
  selected = none;
  revealed_entry = none;
  status = connected;
  land_at_top = false;
}

apply_all-IsSelected_example :
    IsSelected (apply_all (entries_are three_entries ∷ next ∷ previous ∷ []) empty_model)
apply_all-IsSelected_example =
    apply_all-IsSelected (entries_are three_entries ∷ next ∷ previous ∷ []) empty_model refl

abbrev three_model : Model
three_model = record empty_model { entries = three_entries; selected = some (pos 12) }

abbrev always : List Request → Bool
always sent_so_far = true

-- the picker is opened, a value is asked for, and it comes while the picker is open
abbrev a_look : List (ℕ × Message)
a_look =
    (1, bus ready)
    ∷ (1, icon_pressed)
    ∷ (1, key reveal_it)
    ∷ (1, bus (revealed_came (pos 12) (codes "hunter2")))
    ∷ (1, key dismiss_it)
    ∷ []

run-IsTidy_example : IsTidy (run always a_look (new_app three_model))
unfolding run update on_bus ask toggle present on_key is_some set_query text_eq
run-IsTidy_example =
    run-IsTidy always a_look (new_app three_model) (tt, (tt, (tt, (refl, (tt, tt)))))
      (refl, λ shut. refl)

-- a value that comes after the picker was closed is drawn when it is opened again, until the list comes
abbrev a_late_answer : List (ℕ × Message)
a_late_answer =
    (1, bus ready)
    ∷ (1, icon_pressed)
    ∷ (1, key reveal_it)
    ∷ (1, key dismiss_it)
    ∷ (1, bus (revealed_came (pos 12) (codes "hunter2")))
    ∷ (2, icon_pressed)
    ∷ []

late_answer :
    revealed (run always a_late_answer (new_app three_model)).model ≡ some (codes "hunter2")
unfolding run update on_bus ask toggle present on_key is_some set_query revealed text_eq
late_answer = refl

abbrev a_clearing : ClearAnswers Text
a_clearing = record {
  is_terminal = true;
  entries = ok three_entries;
  line = ok (codes " Y");
  error = none;
}

clear-asked_example :
    ((false ≡ true) × Clears false (clear false false a_clearing).0)
    ⊎ WasAsked false a_clearing (clear false false a_clearing).0
unfolding clear affirmative text_eq doomed trim is_whitespace to_ascii_lowercase
clear-asked_example = clear-asked false false a_clearing refl

-- the second entry is not there any more
abbrev delete_first : ℤ → Option Text
delete_first (pos n) = if n == 12 then none else some (codes "no such entry")
delete_first (negsuc n) = none

remove_all-IsUpTo_example :
    IsUpTo delete_first
      (pos 12 ∷ pos 13 ∷ pos 2 ∷ [])
      (remove_all delete_first (pos 12 ∷ pos 13 ∷ pos 2 ∷ []))
remove_all-IsUpTo_example = remove_all-IsUpTo delete_first (pos 12 ∷ pos 13 ∷ pos 2 ∷ [])

stops_at_second :
    remove_all delete_first (pos 12 ∷ pos 13 ∷ pos 2 ∷ [])
    ≡ (pos 12 ∷ [], some (codes "no such entry"))
unfolding remove_all
stops_at_second = refl

-- a right-to-left override, and a tag, which is two units
abbrev hidden_text : Text
hidden_text = 0x61 ∷ 0x202e ∷ 0xe0041 ∷ []

escaped : escape_invisible hidden_text ≡ codes "a\\u202e\\udb40\\udc41"
unfolding escape_invisible is_invisible_or_reordering escape_all
escaped = refl

table-IsAligned_example :
    IsAligned (table three_entries (pos 90000)) (headers ∷ map (row (pos 90000)) three_entries)
table-IsAligned_example =
    table-IsAligned (summary (pos 12)) (summary (pos 13) ∷ summary (pos 2) ∷ []) (pos 90000)

abbrev in_sandbox : Text → Bool
in_sandbox path = true

abbrev its_link : Text → Result Text Text
its_link path = ok (codes "/usr/bin/clippod")

abbrev never_link : Text → Option Text
never_link path = none

abbrev no_order : Text → Text → Bool
no_order a b = true

abbrev its_text : PeerError → Text
its_text e = codes "not clippod"

abbrev some_answers : Answers
some_answers = record {
  searched = ok three_entries;
  pasted = none;
  copied = none;
  done = none;
  revealed = ok (codes "hunter2");
  drawn = ok [];
}

abbrev some_events : List (Bool × Woken)
some_events =
    (true, toggle_asked)
    ∷ (true, requested (refresh []) some_answers)
    ∷ (true, history_changed)
    ∷ (true, requested (reveal (pos 12)) some_answers)
    ∷ []

not_outside : ¬ (true ≡ false)
not_outside h = cc

loop-start_example :
    (loop its_text some_events (
      start its_text (
        owner_of in_sandbox its_link none
          (owned_by (codes ":1.7"))
          none
          (ok (some 12))
          (from_paths never_link no_order (codes "/usr/bin/clippod" ∷ []))))).calls
    ≡ []
unfolding is_sandboxed
loop-start_example =
    loop-start its_text in_sandbox its_link never_link no_order (codes "/usr/bin/clippod" ∷ []) none
      (owned_by (codes ":1.7")) none (ok (some 12)) some_events (λ peer h. not_outside h.4) refl
