-- ===== src/Wayland/Watch/Pastes.antt =====
-- watch.rs: pastes that are being answered.
pub mod Room
pub mod Bounded
use clippo.Prelude.{
  ℕ, zero, suc, Bool, true, false, not, List, [], ◌∷◌, ◌++◌, Option, none, some, if◌then◌else◌,
  filter, length, ltb, ◌==◌,
}
use clippo.Prelude.Text.{Text}
use clippo.Wayland.Offer.{
  Reply, WriteProgress, finished, blocked, waiting, failed, BlobWriter, new_writer, pump, blob_for,
}
use clippo.Wayland.Watch.{
  Act, remove_token, optional_token, remove_key, insert_key, get_key, OwnedOffer, PendingWrite,
  WatchState, u64_next, log,
}
use clippo.Wayland.Watch.Reads.{PostAction, go_on, remove}

unfoldable pub forget_write : ℕ → PendingWrite → Bool → WatchState → WatchState
forget_write id write remove_source w =
    log
      ((if remove_source then remove_token write.token ∷ [] else [])
        ++ optional_token write.timeout)
      (record w { write_order = filter (λ queued. not (queued == id)) w.write_order })

abbrev pub evict_at : ℕ → Option PendingWrite → WatchState → WatchState
evict_at oldest none w = w
evict_at oldest (some write) w =
    forget_write oldest write true (record w { writes = remove_key oldest w.writes })

-- the body of the loop of `make_room_for_a_write`, once `oldest` is out of the queue
unfoldable pub evict : ℕ → List ℕ → WatchState → WatchState
evict oldest order w = evict_at oldest (get_key oldest w.writes) (record w { write_order = order })

-- the loop, on fuel: as many rounds as the queue is long are enough
unfoldable pub make_room : ℕ → WatchState → WatchState
make_room zero w = w
make_room (suc fuel) w = elim (ltb (length w.writes) w.max_pending_pastes) [
  | true ↦ w
  | false ↦ elim w.write_order [ [] ↦ w | oldest ∷ order ↦ make_room fuel (evict oldest order w) ]
]

unfoldable pub make_room_for_a_write : WatchState → WatchState
make_room_for_a_write w = make_room (length w.write_order) w

-- What the system answers when a paste begins: the error of making its pipe non-blocking, the replies
-- of its first writes, the token of its source and that of its timer, where they could be had.
pub record PasteSetup : Type 0 where
  pub nonblocking : Option Text
  pub replies : List Reply
  pub source : Option ℕ
  pub timer : Option ℕ

abbrev pub park : Text → BlobWriter → Option ℕ → Option ℕ → WatchState → WatchState
park mime writer none timer w = record w { next_write = u64_next w.next_write }
park mime writer (some token) timer w = record w {
  next_write = u64_next w.next_write;
  writes =
      insert_key w.next_write
        (record { mime = mime; writer = writer; token = token; timeout = timer }) w.writes;
  write_order = w.write_order ++ w.next_write ∷ [];
}

-- replies that end before the loop does leave the handler at its write, with nothing changed yet
abbrev pub begun : Text → PasteSetup → WriteProgress × BlobWriter → WatchState → WatchState
begun mime s (finished, writer) w = w
begun mime s (failed e, writer) w = w
begun mime s (waiting, writer) w = w
begun mime s (blocked, writer) w = park mime writer s.source s.timer (make_room_for_a_write w)

abbrev pub begin_write_at : Text → List ℕ → PasteSetup → Option Text → WatchState → WatchState
begin_write_at mime blob s (some e) w = w
begin_write_at mime blob s none w = begun mime s (pump s.replies (new_writer blob)) w

unfoldable pub begin_write : Text → List ℕ → PasteSetup → WatchState → WatchState
begin_write mime blob s w = begin_write_at mime blob s s.nonblocking w

abbrev pub send_blob : Text → PasteSetup → Option (List ℕ) → WatchState → WatchState
send_blob mime s none w = w
send_blob mime s (some blob) w = begin_write mime blob s w

abbrev pub send_from : ℕ → Text → PasteSetup → Option OwnedOffer → WatchState → WatchState
send_from source mime s none w = w
send_from source mime s (some o) w =
    if o.source == source then send_blob mime s (blob_for o.flavors mime) w else w

unfoldable pub source_send : ℕ → Text → PasteSetup → WatchState → WatchState
source_send source mime s w = send_from source mime s w.offered w

-- `w`: the state with the paste out of the map
abbrev pub written :
    ℕ → PendingWrite → WriteProgress × BlobWriter → WatchState → Option PostAction × WatchState
written id write (blocked, writer) w =
    (some go_on, record w { writes = insert_key id (record write { writer = writer }) w.writes })
written id write (finished, writer) w = (some remove, forget_write id write false w)
written id write (failed e, writer) w = (some remove, forget_write id write false w)
written id write (waiting, writer) w =
    (none, record w { writes = insert_key id (record write { writer = writer }) w.writes })

abbrev pub ready_at :
    ℕ → List Reply → Option PendingWrite → WatchState → Option PostAction × WatchState
ready_at id replies none w = (some remove, w)
ready_at id replies (some write) w =
    written id write (pump replies write.writer) (record w { writes = remove_key id w.writes })

unfoldable pub on_write_ready : ℕ → List Reply → WatchState → Option PostAction × WatchState
on_write_ready id replies w = ready_at id replies (get_key id w.writes) w

abbrev pub write_timeout_at : ℕ → Option PendingWrite → WatchState → WatchState
write_timeout_at id none w = w
write_timeout_at id (some write) w =
    forget_write id write true (record w { writes = remove_key id w.writes })

unfoldable pub on_write_timeout : ℕ → WatchState → WatchState
on_write_timeout id w = write_timeout_at id (get_key id w.writes) w
