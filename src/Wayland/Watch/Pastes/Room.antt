-- ===== src/Wayland/Watch/Pastes/Room.antt =====
-- watch.rs: making room for a paste ends, with room.
use clippo.Prelude.{
  ℕ, zero, suc, ◌≤◌, ◌≡◌, refl, ap, ◌∙◌, Bool, true, false, not, ◌&&◌, List, [], ◌∷◌, any, filter,
  length, ltb, ◌==◌, arith, Bool-cases, Option-cases, inl, inr, ◌⊎◌, length-filter-le,
}
use clippo.Wayland.Watch.{remove_key, get_key, PendingWrite, WatchState}
use clippo.Wayland.Watch.Keys.{has_key, get_key-none, has_key-remove_key}
use clippo.Wayland.Watch.Pastes.{forget_write, evict, make_room, make_room_for_a_write}

abbrev pub is_queued : ℕ → List ℕ → Bool
is_queued id order = any (λ queued. queued == id) order

-- the pastes that wait are those in the queue
abbrev pub IsMirrored : WatchState → Type 0
IsMirrored w = (id : ℕ) → has_key id w.writes ≡ is_queued id w.write_order

pub is_queued-filter :
    (id other : ℕ) (order : List ℕ)
    → is_queued other (filter (λ queued. not (queued == id)) order)
      ≡ (not (other == id) && is_queued other order)
is_queued-filter id other [] = ground arith
is_queued-filter id other (queued ∷ order) = ground (arith, is_queued-filter id other order)

no_keys : (m : List (ℕ × PendingWrite)) → ((id : ℕ) → has_key id m ≡ false) → m ≡ []
no_keys [] h = refl
no_keys (e ∷ m) h = absurd (ground (arith, h e.0))

-- what one round does
abbrev Evicted : ℕ → List ℕ → WatchState → WatchState → Type 0
Evicted oldest order w w' =
    (w'.writes ≡ remove_key oldest w.writes)
    × (w'.write_order ≡ filter (λ queued. not (queued == oldest)) order)
    × (w'.max_pending_pastes ≡ w.max_pending_pastes)

evict_lem :
    (oldest : ℕ) (order : List ℕ) (w : WatchState)
    → has_key oldest w.writes ≡ true
    → Evicted oldest order w (evict oldest order w)
unfolding evict forget_write
evict_lem oldest order w h = elim (Option-cases (get_key oldest w.writes)) [
  | inl e ↦ let k = get_key-none oldest w.writes e in cc
  | inr (write, e) ↦ rw (e, evict) (refl, refl, refl)
]

Evicted-IsMirrored :
    (oldest : ℕ) (order : List ℕ) (w w' : WatchState)
    → w.write_order ≡ oldest ∷ order
    → IsMirrored w
    → Evicted oldest order w w'
    → IsMirrored w'
Evicted-IsMirrored oldest order w w' e m (a, b, c) id =
    ground (
      arith,
      a,
      b,
      e,
      m id,
      has_key-remove_key oldest id w.writes,
      is_queued-filter oldest id order,
    )

-- room for one paste more, or none that waits
abbrev pub HasRoom : WatchState → Type 0
HasRoom w = (ltb (length w.writes) w.max_pending_pastes ≡ true) ⊎ (w.writes ≡ [])

abbrev pub Made : WatchState → WatchState → Type 0
Made w w' = IsMirrored w' × HasRoom w' × (w'.max_pending_pastes ≡ w.max_pending_pastes)

none_queued : (order : List ℕ) (id : ℕ) → length order ≤ 0 → is_queued id order ≡ false
none_queued [] id h = refl
none_queued (q ∷ order) id h = absurd (omega arith)

first_queued : (oldest : ℕ) (order : List ℕ) → is_queued oldest (oldest ∷ order) ≡ true
first_queued oldest order = ground arith

shorter :
    (fuel oldest : ℕ) (order : List ℕ) (w w' : WatchState)
    → w.write_order ≡ oldest ∷ order
    → length w.write_order ≤ suc fuel
    → Evicted oldest order w w'
    → length w'.write_order ≤ fuel
shorter fuel oldest order w w' e le (a, b, c) =
    ground
      (arith, ap length e, ap length b, length-filter-le (λ queued. not (queued == oldest)) order)

-- one round, from what holds of the rounds that are left
round-Made :
    (fuel : ℕ) (w : WatchState) (o : List ℕ)
    → ((v : WatchState) → IsMirrored v → length v.write_order ≤ fuel → Made v (make_room fuel v))
    → IsMirrored w
    → length w.write_order ≤ suc fuel
    → w.write_order ≡ o
    → Made w (elim o [ [] ↦ w | oldest ∷ order ↦ make_room fuel (evict oldest order w) ])
round-Made fuel w [] rest m le e =
    (m, inr (no_keys w.writes (λ id. m id ∙ ap (is_queued id) e)), refl)
round-Made fuel w (oldest ∷ order) rest m le e =
    let waits = m oldest ∙ ap (is_queued oldest) e ∙ first_queued oldest order in
    let gone = evict_lem oldest order w waits in
    let (m', room, same) =
      rest (evict oldest order w)
        (Evicted-IsMirrored oldest order w (evict oldest order w) e m gone)
        (shorter fuel oldest order w (evict oldest order w) e le gone) in
    (m', room, same ∙ gone.2)

make_room-Made :
    (fuel : ℕ) (w : WatchState)
    → IsMirrored w
    → length w.write_order ≤ fuel
    → Made w (make_room fuel w)
unfolding make_room
make_room-Made zero w m le =
    (m, inr (no_keys w.writes (λ id. m id ∙ none_queued w.write_order id le)), refl)
make_room-Made (suc fuel) w m le = elim (Bool-cases (ltb (length w.writes) w.max_pending_pastes)) [
  | inl e ↦ rw (e, make_room) (m, inl e, refl)
  | inr e ↦ rw (e, make_room) (round-Made fuel w w.write_order (make_room-Made fuel) m le refl)
]

-- The loop that makes room for a paste ends, in as many rounds as the queue is long: afterwards fewer
-- pastes wait than the configuration allows, or none at all, and the queue still is of those that wait.
pub make_room_for_a_write-Made : (w : WatchState) → IsMirrored w → Made w (make_room_for_a_write w)
unfolding make_room_for_a_write
make_room_for_a_write-Made w m = make_room-Made (length w.write_order) w m (omega arith)
