-- ===== src/Wayland/Watch/Steps/Apart.antt =====
-- watch.rs: reading a selection and answering pastes leave each other alone.
use clippo.Prelude.{
  ℕ, zero, suc, ◌≡◌, refl, ◌∙◌, Bool, true, false, not, ◌&&◌, List, [], ◌∷◌, Option, none, some,
  Bool-cases, inl, inr, if◌then◌else◌, ◌==◌, map, length, ltb,
}
use clippo.Prelude.Text.{Text, is_empty}
use clippo.Core.Entry.{Flavor}
use clippo.Wayland.Selection.{SelectionKind}
use clippo.Wayland.Selection.{stalled}
use clippo.Wayland.Pending.{abandon_open, is_complete, into_selection}
use clippo.Wayland.Offer.{
  Reply, BlobWriter, new_writer, WriteProgress, finished, failed, waiting, blocked, pump, blob_for,
  offered_flavors,
}
use clippo.Wayland.Advertised.{AdvertisedMimes, interesting_flavors}
use clippo.Wayland.Watch.{
  TrySend, sent, full, gone, WatchEvent, captured, selection_lost, Pending, OwnedOffer,
  PendingWrite, WatchState, u64_next, log, take_out, ReadSource, emit, remove_token, destroy_source,
  remove_key, offer_mime_at, offer_mime, retire_offers, abandon_at, abandon_pending, take_selection,
  cancelled_at, source_cancelled, get_key, let_go,
}
use clippo.Wayland.Watch.Reads.{
  ReadReply, ReadSetup, emit_pending, emit_if_complete, hold, start_reads, changed_to, is_primary,
  selection_changed, read_done, after_read, readable_at, on_flavor_readable, timed_out,
  on_read_timeout, PostAction, go_on, remove, start_all, first_state, read_flavor,
}
use clippo.Wayland.Watch.Pastes.{PasteSetup, source_send, on_write_ready, on_write_timeout}
use clippo.Wayland.Watch.Pastes.{
  forget_write, evict_at, evict, make_room, make_room_for_a_write, park, begun, begin_write_at,
  begin_write, send_blob, send_from, written, ready_at, write_timeout_at,
}

-- what is waited for, of pastes and of a selection
abbrev pub parked : WatchState → List (ℕ × PendingWrite) × List ℕ × ℕ
parked w = (w.writes, w.write_order, w.max_pending_pastes)

abbrev pub held : WatchState → Option Pending × ℕ × List ReadSource
held w = (w.pending, w.generation, w.sources)

emit-parked :
    (answer : TrySend) (e : WatchEvent) (w : WatchState) → parked (emit answer e w) ≡ parked w
emit-parked sent e w = refl
emit-parked full e w = refl
emit-parked gone e w = refl

emit-held : (answer : TrySend) (e : WatchEvent) (w : WatchState) → held (emit answer e w) ≡ held w
emit-held sent e w = refl
emit-held full e w = refl
emit-held gone e w = refl

if_either {ℓ} :
    {B : Type ℓ} (f : WatchState → B) (b : Bool) (x y : WatchState) {k : B}
    → f x ≡ k
    → f y ≡ k
    → f (if b then x else y) ≡ k
if_either f true x y h h' = h
if_either f false x y h h' = h'

emit_pending-parked :
    (answer : TrySend) (p : Option Pending) (w : WatchState)
    → parked (emit_pending answer p w) ≡ parked w
emit_pending-parked answer none w = refl
emit_pending-parked answer (some p) w =
    let gone_now = take_out (let_go p) (record w { pending = none }) in
    if_either parked (is_complete p.selection)
      (emit answer (captured (into_selection p.selection)) gone_now) w
      (emit-parked answer (captured (into_selection p.selection)) gone_now) refl

emit_if_complete-parked :
    (answer : TrySend) (w : WatchState) → parked (emit_if_complete answer w) ≡ parked w
unfolding emit_if_complete
emit_if_complete-parked answer w = emit_pending-parked answer w.pending w

abandon_pending-parked : (w : WatchState) → parked (abandon_pending w) ≡ parked w
unfolding abandon_pending
abandon_pending-parked w = go w.pending
  where
    go : (p : Option Pending) → parked (abandon_at p w) ≡ parked w
    go none = refl
    go (some p) = refl

start_reads-parked :
    (kind : SelectionKind) (o : ℕ) (advertised wanted : List Text) (setups : ℕ → ReadSetup)
    (armed : Option ℕ) (answer : TrySend) (w : WatchState)
    → parked (start_reads kind o advertised wanted setups armed answer w) ≡ parked w
unfolding start_reads
start_reads-parked kind o advertised wanted setups armed answer w =
    let generation = u64_next w.generation in
    emit_if_complete-parked answer (
      hold o armed
        (start_all o w.max_flavor_bytes setups wanted (first_state generation kind advertised))
        (record w { generation = generation }))

changed_to-parked :
    (kind : SelectionKind) (o : Option ℕ) (setups : ℕ → ReadSetup) (armed : Option ℕ)
    (answer : TrySend) (w : WatchState)
    → parked (changed_to kind o setups armed answer w) ≡ parked w
unfolding retire_offers
changed_to-parked kind none setups armed answer w = refl
changed_to-parked kind (some o) setups armed answer w =
    let (advertised, w') = retire_offers (some o) w in
    start_reads-parked kind o advertised (interesting_flavors advertised) setups armed answer w'

pub selection_changed-parked :
    (kind : SelectionKind) (o : Option ℕ) (setups : ℕ → ReadSetup) (armed : Option ℕ)
    (answer : TrySend) (w : WatchState)
    → parked (selection_changed kind o setups armed answer w) ≡ parked w
unfolding selection_changed retire_offers
selection_changed-parked kind o setups armed answer w =
    if_either parked (is_primary kind && not w.primary) (retire_offers none w).1
      (changed_to kind o setups armed answer (abandon_pending w)) refl
      (changed_to-parked kind o setups armed answer (abandon_pending w) ∙ abandon_pending-parked w)

read_done-parked :
    (answer : TrySend) (r : Option PostAction × Pending) (w : WatchState)
    → parked (read_done answer r w).1 ≡ parked w
read_done-parked answer (none, p) w = refl
read_done-parked answer (some go_on, p) w = refl
read_done-parked answer (some remove, p) w =
    emit_if_complete-parked answer (record w { pending = some p })

pub on_flavor_readable-parked :
    (generation slot : ℕ) (replies : List ReadReply) (answer : TrySend) (w : WatchState)
    → parked (on_flavor_readable generation slot replies answer w).1 ≡ parked w
unfolding on_flavor_readable
on_flavor_readable-parked generation slot replies answer w = go w.pending
  where
    go : (p : Option Pending) → parked (readable_at generation slot replies answer p w).1 ≡ parked w
    go none = emit_if_complete-parked answer w
    go (some p) = elim (Bool-cases (p.selection.generation == generation)) [
      | inl e ↦
          rw e
            (read_done-parked answer (after_read slot p (read_flavor slot replies p.selection)) w)
      | inr e ↦ rw e (emit_if_complete-parked answer w)
    ]

pub on_read_timeout-parked :
    (generation : ℕ) (answer : TrySend) (w : WatchState)
    → parked (on_read_timeout generation answer w) ≡ parked w
unfolding on_read_timeout
on_read_timeout-parked generation answer w = go w.pending
  where
    on_time : Pending → WatchState
    on_time p = take_out (map (λ (e : ℕ × ℕ). remove_token e.1) p.read_tokens) (record w {
      pending = some (record p {
        selection = (abandon_open stalled p.selection).1;
        read_tokens = [];
        timeout_token = none;
      });
    })

    go : (p : Option Pending) → parked (timed_out generation answer p w) ≡ parked w
    go none = refl
    go (some p) = elim (Bool-cases (p.selection.generation == generation)) [
      | inl e ↦ rw e (emit_if_complete-parked answer (on_time p))
      | inr e ↦ rw e refl
    ]

pub source_cancelled-apart :
    (source : ℕ) (answer : TrySend) (w : WatchState)
    → (parked (source_cancelled source answer w) ≡ parked w)
      × (held (source_cancelled source answer w) ≡ held w)
unfolding source_cancelled
source_cancelled-apart source answer w = go w.offered
  where
    after : OwnedOffer → WatchState
    after o = log (destroy_source o.source ∷ []) (record w { offered = none })

    go :
        (o : Option OwnedOffer)
        → (parked (cancelled_at source answer o w) ≡ parked w)
          × (held (cancelled_at source answer o w) ≡ held w)
    go none = (refl, refl)
    go (some o) = (
      if_either parked (o.source == source) (emit answer selection_lost (after o)) w
          (emit-parked answer selection_lost (after o)) refl,
      if_either held (o.source == source) (emit answer selection_lost (after o)) w
          (emit-held answer selection_lost (after o)) refl,
    )

pub offer_mime-apart :
    (o : ℕ) (mime : Text) (w : WatchState)
    → (parked (offer_mime o mime w) ≡ parked w) × (held (offer_mime o mime w) ≡ held w)
unfolding offer_mime
offer_mime-apart o mime w = go (get_key o w.offers)
  where
    go :
        (a : Option AdvertisedMimes)
        → (parked (offer_mime_at o mime a w) ≡ parked w)
          × (held (offer_mime_at o mime a w) ≡ held w)
    go none = (refl, refl)
    go (some a) = (refl, refl)

pub take_selection-apart :
    (source : ℕ) (flavors : List Flavor) (w : WatchState)
    → (parked (take_selection source flavors w) ≡ parked w)
      × (held (take_selection source flavors w) ≡ held w)
unfolding take_selection
take_selection-apart source flavors w = elim (Bool-cases (is_empty (offered_flavors flavors))) [
  | inl e ↦ rw e (refl, refl)
  | inr e ↦ rw e (refl, refl)
]

evict-held : (oldest : ℕ) (order : List ℕ) (w : WatchState) → held (evict oldest order w) ≡ held w
unfolding evict forget_write
evict-held oldest order w = go (get_key oldest w.writes)
  where
    go :
        (o : Option PendingWrite)
        → held (evict_at oldest o (record w { write_order = order })) ≡ held w
    go none = refl
    go (some write) = refl

make_room-held : (fuel : ℕ) (w : WatchState) → held (make_room fuel w) ≡ held w
unfolding make_room
make_room-held zero w = refl
make_room-held (suc fuel) w = elim (Bool-cases (ltb (length w.writes) w.max_pending_pastes)) [
  | inl e ↦ rw (e, make_room) refl
  | inr e ↦ rw (e, make_room) (round w.write_order (make_room-held fuel))
]
  where
    round :
        (o : List ℕ)
        → ((v : WatchState) → held (make_room fuel v) ≡ held v)
        → held (elim o [ [] ↦ w | oldest ∷ order ↦ make_room fuel (evict oldest order w) ]) ≡ held w
    round [] rest = refl
    round (oldest ∷ order) rest = rest (evict oldest order w) ∙ evict-held oldest order w

pub source_send-held :
    (source : ℕ) (mime : Text) (s : PasteSetup) (w : WatchState)
    → held (source_send source mime s w) ≡ held w
unfolding source_send begin_write make_room_for_a_write
source_send-held source mime s w = go w.offered
  where
    parks :
        (writer : BlobWriter) (token timer : Option ℕ) (v : WatchState)
        → held (park mime writer token timer v) ≡ held v
    parks writer none timer v = refl
    parks writer (some token) timer v = refl

    begins : (r : WriteProgress × BlobWriter) → held (begun mime s r w) ≡ held w
    begins (finished, writer) = refl
    begins (failed e, writer) = refl
    begins (waiting, writer) = refl
    begins (blocked, writer) =
        parks writer s.source s.timer (make_room_for_a_write w)
        ∙ make_room-held (length w.write_order) w

    starts : (blob : List ℕ) (o : Option Text) → held (begin_write_at mime blob s o w) ≡ held w
    starts blob none = begins (pump s.replies (new_writer blob))
    starts blob (some e) = refl

    sends : (blob : Option (List ℕ)) → held (send_blob mime s blob w) ≡ held w
    sends none = refl
    sends (some blob) = starts blob s.nonblocking

    go : (o : Option OwnedOffer) → held (send_from source mime s o w) ≡ held w
    go none = refl
    go (some o) =
        if_either held (o.source == source) (send_blob mime s (blob_for o.flavors mime) w) w
          (sends (blob_for o.flavors mime)) refl

pub on_write_ready-held :
    (id : ℕ) (replies : List Reply) (w : WatchState) → held (on_write_ready id replies w).1 ≡ held w
unfolding on_write_ready forget_write
on_write_ready-held id replies w = go (get_key id w.writes)
  where
    writes_on :
        (write : PendingWrite) (r : WriteProgress × BlobWriter) (v : WatchState)
        → held (written id write r v).1 ≡ held v
    writes_on write (finished, writer) v = refl
    writes_on write (failed e, writer) v = refl
    writes_on write (waiting, writer) v = refl
    writes_on write (blocked, writer) v = refl

    go : (o : Option PendingWrite) → held (ready_at id replies o w).1 ≡ held w
    go none = refl
    go (some write) =
        writes_on write (pump replies write.writer) (record w { writes = remove_key id w.writes })

pub on_write_timeout-held : (id : ℕ) (w : WatchState) → held (on_write_timeout id w) ≡ held w
unfolding on_write_timeout forget_write
on_write_timeout-held id w = go (get_key id w.writes)
  where
    go : (o : Option PendingWrite) → held (write_timeout_at id o w) ≡ held w
    go none = refl
    go (some write) = refl
