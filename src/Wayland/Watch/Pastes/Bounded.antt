-- ===== src/Wayland/Watch/Pastes/Bounded.antt =====
-- watch.rs: the pastes that wait are bounded, and the queue is of them.
use clippo.Prelude.{
  ℕ, suc, ◌-◌, ◌≤◌, ◌≡◌, refl, sym, ap, ◌∙◌, Bool, true, false, not, ◌&&◌, ◌||◌, List, [], ◌∷◌,
  ◌++◌, Option, none, some, any-append, length, ◌==◌, arith, Bool-cases, inl, inr, subst, is_some,
  ==_iff,
}
use clippo.Prelude.Text.{Text}
use clippo.Wayland.Offer.{
  Reply, WriteProgress, finished, blocked, waiting, failed, BlobWriter, new_writer, pump, blob_for,
}
use clippo.Wayland.Watch.{remove_key, insert_key, get_key, OwnedOffer, PendingWrite, WatchState}
use clippo.Wayland.Watch.Keys.{
  has_key, is_some-get_key, has_key-remove_key, has_key-insert_key, length-remove_key-le,
  length-remove_key, length-insert_key-le,
}
use clippo.Wayland.Watch.Pastes.{
  forget_write, make_room_for_a_write, PasteSetup, park, begun, begin_write_at, begin_write,
  send_blob, send_from, source_send, written, ready_at, on_write_ready, write_timeout_at,
  on_write_timeout,
}
use clippo.Wayland.Watch.Pastes.Room.{
  is_queued, IsMirrored, is_queued-filter, HasRoom, make_room_for_a_write-Made,
}

-- at most as many as the configuration allows, and one where it allows none
abbrev IsBounded : WatchState → Type 0
IsBounded w = length w.writes ≤ suc (w.max_pending_pastes - 1)

abbrev pub AreParked : WatchState → Type 0
AreParked w = IsMirrored w × IsBounded w

is_queued-append :
    (order : List ℕ) (id k : ℕ) → is_queued id (order ++ k ∷ []) ≡ ((k == id) || is_queued id order)
is_queued-append order id k = ground (arith, any-append (λ queued. queued == id) order (k ∷ []))

room_for_one : (w : WatchState) → HasRoom w → suc (length w.writes) ≤ suc (w.max_pending_pastes - 1)
room_for_one w (inl h) = ground arith
room_for_one w (inr h) = ground (arith, ap length h)

park-AreParked :
    (mime : Text) (writer : BlobWriter) (token timer : Option ℕ) (w : WatchState)
    → IsMirrored w
    → HasRoom w
    → AreParked (park mime writer token timer w)
park-AreParked mime writer none timer w m room = (m, omega (arith, room_for_one w room))
park-AreParked mime writer (some token) timer w m room = (
  λ id. mirrored id,
  omega (arith, room_for_one w room, length-insert_key-le w.next_write new w.writes),
)
  where
    new : PendingWrite
    new = record { mime = mime; writer = writer; token = token; timeout = timer }

    mirrored :
        (id : ℕ)
        → has_key id (insert_key w.next_write new w.writes)
          ≡ is_queued id (w.write_order ++ w.next_write ∷ [])
    mirrored id =
        has_key-insert_key w.next_write id new w.writes
        ∙ ap (λ (b : Bool). (w.next_write == id) || b) (m id)
        ∙ sym (is_queued-append w.write_order id w.next_write)

forget-AreParked :
    (id : ℕ) (write : PendingWrite) (remove_source : Bool) (w : WatchState)
    → AreParked w
    → AreParked (forget_write id write remove_source (record w { writes = remove_key id w.writes }))
unfolding forget_write
forget-AreParked id write remove_source w (m, b) = (
  λ other.
      has_key-remove_key id other w.writes
      ∙ ap (λ (k : Bool). not (other == id) && k) (m other)
      ∙ sym (is_queued-filter id other w.write_order),
  omega (arith, length-remove_key-le id w.writes),
)

begun-AreParked :
    (mime : Text) (s : PasteSetup) (r : WriteProgress × BlobWriter) (w : WatchState)
    → AreParked w
    → AreParked (begun mime s r w)
begun-AreParked mime s (finished, writer) w h = h
begun-AreParked mime s (failed e, writer) w h = h
begun-AreParked mime s (waiting, writer) w h = h
begun-AreParked mime s (blocked, writer) w h =
    let (m, room, same) = make_room_for_a_write-Made w h.0 in
    park-AreParked mime writer s.source s.timer (make_room_for_a_write w) m room

begin_write-AreParked :
    (mime : Text) (blob : List ℕ) (s : PasteSetup) (w : WatchState)
    → AreParked w
    → AreParked (begin_write mime blob s w)
unfolding begin_write
begin_write-AreParked mime blob s w h = go s.nonblocking
  where
    go : (o : Option Text) → AreParked (begin_write_at mime blob s o w)
    go none = begun-AreParked mime s (pump s.replies (new_writer blob)) w h
    go (some e) = h

send_blob-AreParked :
    (mime : Text) (s : PasteSetup) (blob : Option (List ℕ)) (w : WatchState)
    → AreParked w
    → AreParked (send_blob mime s blob w)
send_blob-AreParked mime s none w h = h
send_blob-AreParked mime s (some blob) w h = begin_write-AreParked mime blob s w h

pub source_send-AreParked :
    (source : ℕ) (mime : Text) (s : PasteSetup) (w : WatchState)
    → AreParked w
    → AreParked (source_send source mime s w)
unfolding source_send
source_send-AreParked source mime s w h = go w.offered
  where
    go : (o : Option OwnedOffer) → AreParked (send_from source mime s o w)
    go none = h
    go (some o) = elim (Bool-cases (o.source == source)) [
      | inl e ↦ rw e (send_blob-AreParked mime s (blob_for o.flavors mime) w h)
      | inr e ↦ rw e h
    ]

-- a paste that blocks again goes back into the map
again-AreParked :
    (id : ℕ) (write : PendingWrite) (w : WatchState)
    → has_key id w.writes ≡ true
    → AreParked w
    → AreParked (record w { writes = insert_key id write (remove_key id w.writes) })
again-AreParked id write w has (m, b) = (
  λ other. mirrored other,
  omega (
    arith,
    length-remove_key id w.writes has,
    length-insert_key-le id write (remove_key id w.writes),
  ),
)
  where
    mirrored :
        (other : ℕ)
        → has_key other (insert_key id write (remove_key id w.writes))
          ≡ is_queued other w.write_order
    mirrored other = elim (Bool-cases (id == other)) [
      | inl e ↦
          subst
            (λ (k : ℕ).
              has_key k (insert_key id write (remove_key id w.writes)) ≡ is_queued k w.write_order)
            ((==_iff id other).0 e)
            (ground (arith, has_key-insert_key id id write (remove_key id w.writes), m id))
      | inr e ↦ ground (
        arith,
        has_key-insert_key id other write (remove_key id w.writes),
        has_key-remove_key id other w.writes,
        m other,
      )
    ]

written-AreParked :
    (id : ℕ) (write : PendingWrite) (r : WriteProgress × BlobWriter) (w : WatchState)
    → has_key id w.writes ≡ true
    → AreParked w
    → AreParked (written id write r (record w { writes = remove_key id w.writes })).1
written-AreParked id write (blocked, writer) w has h =
    again-AreParked id (record write { writer = writer }) w has h
written-AreParked id write (waiting, writer) w has h =
    again-AreParked id (record write { writer = writer }) w has h
written-AreParked id write (finished, writer) w has h = forget-AreParked id write false w h
written-AreParked id write (failed e, writer) w has h = forget-AreParked id write false w h

pub on_write_ready-AreParked :
    (id : ℕ) (replies : List Reply) (w : WatchState)
    → AreParked w
    → AreParked (on_write_ready id replies w).1
unfolding on_write_ready is_some
on_write_ready-AreParked id replies w h = go (get_key id w.writes) refl
  where
    go : (o : Option PendingWrite) → get_key id w.writes ≡ o → AreParked (ready_at id replies o w).1
    go none e = h
    go (some write) e =
        written-AreParked id write (pump replies write.writer) w
          (sym (is_some-get_key id w.writes) ∙ ap is_some e) h

pub on_write_timeout-AreParked :
    (id : ℕ) (w : WatchState) → AreParked w → AreParked (on_write_timeout id w)
unfolding on_write_timeout
on_write_timeout-AreParked id w h = go (get_key id w.writes)
  where
    go : (o : Option PendingWrite) → AreParked (write_timeout_at id o w)
    go none = h
    go (some write) = forget-AreParked id write true w h
