-- ===== src/Wayland/Watch/Steps.antt =====
-- watch.rs: whatever reaches the watcher, in whatever order.
pub mod Apart
pub mod Sound
use clippo.Prelude.{
  ℕ, zero, suc, ◌+◌, ◌≤◌, ◌≡◌, refl, sym, ap, ◌∙◌, Bool, true, false, not, ◌&&◌, List, [], ◌∷◌,
  ◌++◌, Option, none, some, arith, Bool-cases, Option-cases, inl, inr, if◌then◌else◌, subst, ◌==◌,
}
use clippo.Prelude.Text.{Text, is_empty}
use clippo.Core.Entry.{Flavor}
use clippo.Wayland.Selection.{SelectionKind, clipboard, primary}
use clippo.Wayland.Pending.{is_complete, into_selection}
use clippo.Wayland.Offer.{Reply, offered_flavors}
use clippo.Wayland.Advertised.{interesting_flavors}
use clippo.Wayland.Watch.{
  TrySend, sent, full, gone, WatchEvent, captured, selection_lost, Act, Pending, OwnedOffer,
  PendingWrite, WatchState, u64_next, log, emit, offer_created, offer_mime_at, offer_mime,
  retire_offers, abandon_at, abandon_pending, take_selection, cancelled_at, source_cancelled,
  release_selection, shutdown, device_finished, get_key, let_go,
}
use clippo.Wayland.Watch.Reads.{
  ReadReply, ReadSetup, Started, emit_pending, emit_if_complete, hold, start_reads, changed_to,
  is_primary, selection_changed, read_done, after_read, readable_at, on_flavor_readable, timed_out,
  on_read_timeout, answered, PostAction, go_on, remove, start_all, first_state,
}
use clippo.Wayland.Watch.Pastes.{PasteSetup, source_send, on_write_ready, on_write_timeout}

-- a request of the compositor, a callback of the event loop or a command of the daemon
pub data Happening : Type 0 where
  created : ℕ → Happening
  mime_offered : ℕ → Text → Happening
  changed : SelectionKind → Option ℕ → (ℕ → ReadSetup) → Option ℕ → TrySend → Happening
  readable : ℕ → ℕ → List ReadReply → TrySend → Happening
  read_timer : ℕ → TrySend → Happening
  paste : ℕ → Text → PasteSetup → Happening
  cancelled : ℕ → TrySend → Happening
  offer : ℕ → List Flavor → Happening
  writable : ℕ → List Reply → Happening
  write_timer : ℕ → Happening
  retired : Happening

unfoldable pub step : Happening → WatchState → WatchState
step (created o) w = offer_created o w
step (mime_offered o mime) w = offer_mime o mime w
step (changed kind o setups armed answer) w = selection_changed kind o setups armed answer w
step (readable generation slot replies answer) w =
    answered generation slot (on_flavor_readable generation slot replies answer w)
step (read_timer generation answer) w = on_read_timeout generation answer w
step (paste source mime s) w = source_send source mime s w
step (cancelled source answer) w = source_cancelled source answer w
step (offer source flavors) w = take_selection source flavors w
step (writable id replies) w = (on_write_ready id replies w).1
step (write_timer id) w = on_write_timeout id w
step retired w = device_finished w

unfoldable pub run : List Happening → WatchState → WatchState
run [] w = w
run (h ∷ hs) w = run hs (step h w)
