-- ===== src/Wayland/Watch.antt =====
-- crates/clippo-wayland/src/watch.rs: the state of the watcher, and what holds its selections.
pub mod Keys
pub mod Reads
pub mod Pastes
pub mod Steps
use clippo.Prelude.{
  ℕ, zero, suc, ◌+◌, ◌%◌, Bool, true, false, not, List, [], ◌∷◌, ◌++◌, map, Option, none, some,
  if◌then◌else◌, filter, find?, ◌==◌,
}
use clippo.Prelude.Text.{Text, is_empty}
use clippo.Core.Entry.{Flavor}
use clippo.Wayland.Selection.{Selection}
use clippo.Wayland.Pending.{PendingSelection}
use clippo.Wayland.Offer.{offered_flavors, BlobWriter}
use clippo.Wayland.Advertised.{AdvertisedMimes, no_mimes, push_mime}

pub data WatchEvent : Type 0 where
  captured : Selection → WatchEvent
  selection_lost : WatchEvent

-- how `try_send` on the channel to the daemon ends
pub data TrySend : Type 0 where
  sent full gone : TrySend

-- What the watcher does to the compositor's objects, to its event loop and to its channel. An object
-- and a source of the event loop are known by their numbers.
pub data Act : Type 0 where
  receive : ℕ → Text → Act
  destroy_offer destroy_source : ℕ → Act
  remove_token : ℕ → Act
  source_offer : ℕ → Text → Act
  set_selection : Option ℕ → Act
  deliver drop_event : WatchEvent → Act
  stop_loop destroy_device : Act

-- a map keyed by numbers, each key once
module _ {ℓ} {A : Type ℓ} where
  unfoldable pub remove_key : ℕ → List (ℕ × A) → List (ℕ × A)
  remove_key k m = filter (λ (e : ℕ × A). not (e.0 == k)) m

  unfoldable pub insert_key : ℕ → A → List (ℕ × A) → List (ℕ × A)
  insert_key k v m = remove_key k m ++ (k, v) ∷ []

  unfoldable pub get_key : ℕ → List (ℕ × A) → Option A
  get_key k [] = none
  get_key k (e ∷ m) = if e.0 == k then some e.1 else get_key k m

pub record OwnedOffer : Type 0 where
  pub source : ℕ
  pub flavors : List Flavor

pub record PendingWrite : Type 0 where
  pub mime : Text
  pub writer : BlobWriter
  pub token : ℕ
  pub timeout : Option ℕ

pub record Pending : Type 0 where
  pub selection : PendingSelection
  pub offer : ℕ
  pub read_tokens : List (ℕ × ℕ)
  pub timeout_token : Option ℕ

-- a source of the event loop that watches the pipe of a read: its token, and the generation and the slot
-- that its callback is told
abbrev pub ReadSource : Type 0
ReadSource = ℕ × ℕ × ℕ

-- `handle.remove` on the sources of the reads: those that the calls leave in the loop
abbrev pub left_in_loop : List Act → List ReadSource → List ReadSource
left_in_loop [] sources = sources
left_in_loop (remove_token token ∷ acts) sources =
    left_in_loop acts (filter (λ (s : ReadSource). not (s.0 == token)) sources)
left_in_loop (act ∷ acts) sources = left_in_loop acts sources

-- `WatchState`, less the handles of the libraries it calls, with its configuration, and `acts`: what
-- was asked of those libraries so far, and `sources`: the sources of reads that the event loop has
pub record WatchState : Type 0 where
  pub primary : Bool
  pub max_flavor_bytes : ℕ
  pub max_pending_pastes : ℕ
  pub offers : List (ℕ × AdvertisedMimes)
  pub pending : Option Pending
  pub generation : ℕ
  pub offered : Option OwnedOffer
  pub writes : List (ℕ × PendingWrite)
  pub write_order : List ℕ
  pub next_write : ℕ
  pub acts : List Act
  pub sources : List ReadSource

-- `+= 1` on a `u64`
abbrev pub u64_next : ℕ → ℕ
u64_next n = suc n % 18_446_744_073_709_551_616

abbrev pub log : List Act → WatchState → WatchState
log acts w = record w { acts = w.acts ++ acts }

-- calls that take sources of reads out of the loop
abbrev pub take_out : List Act → WatchState → WatchState
take_out acts w = log acts (record w { sources = left_in_loop acts w.sources })

abbrev pub emit : TrySend → WatchEvent → WatchState → WatchState
emit sent event w = log (deliver event ∷ []) w
emit full event w = log (drop_event event ∷ []) w
emit gone event w = log (stop_loop ∷ []) w

unfoldable pub offer_created : ℕ → WatchState → WatchState
offer_created offer w = record w { offers = insert_key offer no_mimes w.offers }

abbrev pub offer_mime_at : ℕ → Text → Option AdvertisedMimes → WatchState → WatchState
offer_mime_at offer mime none w = w
offer_mime_at offer mime (some a) w = record w {
  offers = insert_key offer (push_mime mime a) w.offers;
}

unfoldable pub offer_mime : ℕ → Text → WatchState → WatchState
offer_mime offer mime w = offer_mime_at offer mime (get_key offer w.offers) w

-- the offers that `retire_offers` destroys
abbrev pub retired : Option ℕ → List (ℕ × AdvertisedMimes) → List (ℕ × AdvertisedMimes)
retired none m = m
retired (some keep) m = remove_key keep m

abbrev kept_mimes : Option AdvertisedMimes → List Text
kept_mimes none = []
kept_mimes (some a) = a.mimes

abbrev kept : Option ℕ → List (ℕ × AdvertisedMimes) → List Text
kept none m = []
kept (some keep) m = kept_mimes (get_key keep m)

unfoldable pub retire_offers : Option ℕ → WatchState → List Text × WatchState
retire_offers keep w = (
  kept keep w.offers,
  log (map (λ (e : ℕ × AdvertisedMimes). destroy_offer e.0) (retired keep w.offers))
      (record w { offers = [] }),
)

abbrev pub optional_token : Option ℕ → List Act
optional_token none = []
optional_token (some token) = remove_token token ∷ []

-- `clear_sources`, then `offer.destroy`
abbrev pub let_go : Pending → List Act
let_go p =
    map (λ (e : ℕ × ℕ). remove_token e.1) p.read_tokens
    ++ (optional_token p.timeout_token ++ destroy_offer p.offer ∷ [])

abbrev pub abandon_at : Option Pending → WatchState → WatchState
abandon_at none w = w
abandon_at (some p) w = take_out (let_go p) (record w { pending = none })

unfoldable pub abandon_pending : WatchState → WatchState
abandon_pending w = abandon_at w.pending w

abbrev superseded : Option OwnedOffer → List Act
superseded none = []
superseded (some o) = destroy_source o.source ∷ []

-- `source` is what `create_source` makes
unfoldable pub take_selection : ℕ → List Flavor → WatchState → WatchState
take_selection source flavors w =
    if is_empty (offered_flavors flavors)
    then w
    else log
        (map (λ (f : Flavor). source_offer source f.mime) (offered_flavors flavors)
          ++ (set_selection (some source) ∷ superseded w.offered))
        (record w {
          offered = some (record { source = source; flavors = offered_flavors flavors });
        })

abbrev pub cancelled_at : ℕ → TrySend → Option OwnedOffer → WatchState → WatchState
cancelled_at source answer none w = w
cancelled_at source answer (some o) w =
    if o.source == source
    then emit answer selection_lost
        (log (destroy_source o.source ∷ []) (record w { offered = none }))
    else w

unfoldable pub source_cancelled : ℕ → TrySend → WatchState → WatchState
source_cancelled source answer w = cancelled_at source answer w.offered w

abbrev release_at : Option OwnedOffer → WatchState → WatchState
release_at none w = w
release_at (some o) w =
    log (set_selection none ∷ destroy_source o.source ∷ []) (record w { offered = none })

unfoldable pub release_selection : WatchState → WatchState
release_selection w = release_at w.offered w

unfoldable pub shutdown : WatchState → WatchState
shutdown w =
    log (destroy_device ∷ []) (release_selection (retire_offers none (abandon_pending w)).1)

unfoldable pub device_finished : WatchState → WatchState
device_finished w = log (stop_loop ∷ []) w
