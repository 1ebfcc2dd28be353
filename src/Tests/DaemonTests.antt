-- ===== src/Tests/DaemonTests.antt =====
-- crates/clippod at concrete inputs.
use clippo.Prelude.{
  length, ◌<◌, ◌^◌, arith, List, ℕ, ◌≡◌, refl, true, false, ◌&&◌, ◌||◌, [], ◌∷◌, none, ok, is_some,
  any,
}
use clippo.Prelude.Int.{pos}
use clippo.Prelude.Text.{codes, text_eq, is_ascii_whitespace, to_ascii_lowercase}
use clippo.Core.Entry.{html}
use clippo.Core.Config.{default_secrets}
use clippo.Store.History
use clippo.Store.Images.{is_offerable, same_mime}
use clippo.Daemon.Cache.{EntrySummary, summarize, replace}
use clippo.Daemon.Preview.{detect_over_flavors, is_text_bearing, signal_of}
use clippo.Daemon.Preview.Sensitive.{detect_over_flavors_lem}
use clippo.Store.Tables.{delete_where}
use clippo.Daemon.State.Refines.{Answers, perform_all-Answers}
use clippo.Daemon.State.{
  Daemon, Command, delete_it, pause, perform_all, start, delete, set_paused, commit, reload,
  clear_all, perform, copy_at, capture_new, sweep_retention, offer,
}
use clippo.Daemon.State.Mirrors.{Outcome, listed, perform-Outcome}
use clippo.Daemon.State.CopyBack.{Harmless, copy_at-Harmless}
use clippo.Daemon.State.Guard.{capture_new-copy_at}
use clippo.Daemon.State.Swept.{SweepOutcome, sweep_retention-SweepOutcome}
use clippo.Wayland.Selection.{Selection, clipboard}
use clippo.Tests.Samples.{
  sample_host, sample_world, two_entries, first_entry, second_entry, new_copy, hello, page_of_text,
}

abbrev sample_daemon : Daemon
sample_daemon = record {
  store = two_entries;
  cache = replace (listed two_entries);
  echo = none;
  paused = false;
  emitted = 0;
}

abbrev sample_selection : Selection
sample_selection = record {
  kind = clipboard;
  advertised = codes "text/plain" ∷ [];
  flavors = hello ∷ [];
  dropped = [];
}

detect_over_flavors_lem_example :
    is_some (detect_over_flavors sample_host html (page_of_text ∷ hello ∷ []) false default_secrets)
    ≡ (false
        || any
            (λ f. is_text_bearing f.mime && is_some (signal_of sample_host default_secrets f))
            (page_of_text ∷ hello ∷ []))
detect_over_flavors_lem_example =
    detect_over_flavors_lem sample_host default_secrets html (page_of_text ∷ hello ∷ []) false

abbrev some_scores : List (ℕ × EntrySummary)
some_scores =
    (3, summarize first_entry) ∷ (9, summarize second_entry) ∷ (3, summarize second_entry) ∷ []

perform-Outcome_example :
    Outcome sample_daemon (perform sample_world (clear_all true) sample_daemon)
perform-Outcome_example = perform-Outcome sample_world (λ db. refl) (clear_all true) sample_daemon

copy_at-Harmless_example :
    Harmless sample_world sample_daemon (copy_at sample_world (pos 3) (pos 9) sample_daemon)
copy_at-Harmless_example = copy_at-Harmless sample_world (pos 3) (pos 9) sample_daemon

copy_at-first : (copy_at sample_world (pos 1) (pos 9) sample_daemon).1 ≡ ok tt
unfolding copy_at History.get History.entry History.flavors_if offer is_offerable same_mime text_eq
    is_ascii_whitespace to_ascii_lowercase
copy_at-first = refl

same_hash : text_eq first_entry.hash new_copy.hash ≡ true
unfolding text_eq
same_hash = refl

capture_new-copy_at_example :
    capture_new sample_world new_copy (copy_at sample_world (pos 1) (pos 9) sample_daemon).0
    ≡ record ((copy_at sample_world (pos 1) (pos 9) sample_daemon).0) { echo = none }
capture_new-copy_at_example =
    capture_new-copy_at sample_world (pos 1) (pos 9) first_entry new_copy sample_daemon refl
      same_hash copy_at-first

sweep_retention-SweepOutcome_example :
    SweepOutcome sample_daemon (sweep_retention sample_world (pos 9) sample_daemon)
sweep_retention-SweepOutcome_example =
    sweep_retention-SweepOutcome sample_world (λ db. refl) (pos 9) sample_daemon

abbrev some_commands : List Command
some_commands = delete_it (pos 1) ∷ pause true ∷ []

one_left : length (perform_all sample_world some_commands sample_daemon).store.entries < 2 ^ 63
unfolding perform_all perform delete set_paused commit reload History.list History.delete
    delete_where
one_left = omega arith

perform_all-Answers_example :
    Answers sample_world
      (λ db. refl)
      (perform_all sample_world some_commands sample_daemon)
      1
      0
      (codes "bye")
unfolding start History.list
perform_all-Answers_example =
    perform_all-Answers sample_world (λ db. refl) two_entries sample_daemon some_commands 1 0
      (codes "bye") refl one_left
