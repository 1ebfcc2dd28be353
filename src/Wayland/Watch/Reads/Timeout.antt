-- ===== src/Wayland/Watch/Reads/Timeout.antt =====
-- watch.rs: a selection whose sources stall is delivered all the same.
use clippo.Prelude.{
  ℕ, zero, suc, ◌≡◌, refl, ap, ◌∙◌, true, false, List, [], ◌∷◌, ◌++◌, map, Option, none, some,
  get_elem?, ◌==◌, Bool-cases, Option-cases, inl, inr, length, set, subst, ==_iff,
}
use clippo.Prelude.Text.{Text}
use clippo.Core.Entry.{Flavor}
use clippo.Wayland.Selection.{Selection, DropReason, stalled}
use clippo.Wayland.Pending.{
  Slot, reading, done, dropped, FlavorBuffer, flavors_done, drop_from, PendingSelection,
  drop_flavor, abandon_open, into_selection,
}
use clippo.Wayland.Pending.Counted.{IsCounted, abandon_open_lem}
use clippo.Wayland.Watch.{
  TrySend, WatchEvent, deliver, destroy_offer, remove_token, sent, full, gone, captured, Pending,
  WatchState, log, take_out, emit,
}
use clippo.Wayland.Watch.Reads.{
  remove, emit_if_complete, readable_at, on_flavor_readable, timed_out, on_read_timeout, ReadReply,
}
use clippo.Wayland.Watch.Reads.Waiting.{emit_pending-idle}
use clippo.Wayland.Watch.Reads.Held.{IsHeld}

-- a slot that is given up had no flavor to lose
flavors_done-set :
    (slots : List Slot) (i : ℕ) (b : FlavorBuffer) (mime : Text) (r : DropReason)
    → get_elem? slots i ≡ some (reading b)
    → flavors_done (set slots i (dropped mime r)) ≡ flavors_done slots
unfolding flavors_done
flavors_done-set [] i b mime r h = cc
flavors_done-set (reading c ∷ slots) zero b mime r h = refl
flavors_done-set (done f ∷ slots) zero b mime r h = cc
flavors_done-set (dropped m q ∷ slots) zero b mime r h = refl
flavors_done-set (reading c ∷ slots) (suc i) b mime r h = flavors_done-set slots i b mime r h
flavors_done-set (done f ∷ slots) (suc i) b mime r h =
    ap (λ (fs : List Flavor). f ∷ fs) (flavors_done-set slots i b mime r h)
flavors_done-set (dropped m q ∷ slots) (suc i) b mime r h = flavors_done-set slots i b mime r h

flavors_done-drop_flavor :
    (i : ℕ) (reason : DropReason) (p : PendingSelection)
    → flavors_done (drop_flavor i reason p).slots ≡ flavors_done p.slots
unfolding drop_flavor
flavors_done-drop_flavor i reason p = elim (Option-cases (get_elem? p.slots i)) [
  | inl e ↦ rw e refl
  | inr (reading b, e) ↦ rw e (flavors_done-set p.slots i b b.mime reason e)
  | inr (done f, e) ↦ rw e refl
  | inr (dropped mime r, e) ↦ rw e refl
]

flavors_done-drop_from :
    (n i : ℕ) (reason : DropReason) (p : PendingSelection)
    → flavors_done (drop_from i n reason p).slots ≡ flavors_done p.slots
unfolding drop_from
flavors_done-drop_from zero i reason p = refl
flavors_done-drop_from (suc n) i reason p =
    flavors_done-drop_from n (suc i) reason (drop_flavor i reason p)
    ∙ flavors_done-drop_flavor i reason p

-- the selection that a timeout makes of one that is read
abbrev pub given_up : Pending → Selection
given_up p = into_selection (abandon_open stalled p.selection).1

given_up-flavors : (p : Pending) → (given_up p).flavors ≡ flavors_done p.selection.slots
unfolding into_selection abandon_open
given_up-flavors p = flavors_done-drop_from (length p.selection.slots) 0 stalled p.selection

-- its sources are taken out of the loop, and its offer is destroyed
abbrev pub let_go_of : Pending → WatchState → WatchState
let_go_of p w =
    log (destroy_offer p.offer ∷ [])
      (take_out (map (λ (e : ℕ × ℕ). remove_token e.1) p.read_tokens) (record w { pending = none }))

pub timed_out-emits :
    (generation : ℕ) (answer : TrySend) (p : Pending) (w : WatchState)
    → (p.selection.generation == generation) ≡ true
    → IsCounted p.selection
    → timed_out generation answer (some p) w ≡ emit answer (captured (given_up p)) (let_go_of p w)
unfolding emit_if_complete
timed_out-emits generation answer p w same c =
    rw (same, (abandon_open_lem stalled p.selection c).1) refl

emit-pending :
    (answer : TrySend) (e : WatchEvent) (w : WatchState)
    → ((emit answer e w).pending ≡ w.pending) × ((emit answer e w).generation ≡ w.generation)
emit-pending sent e w = (refl, refl)
emit-pending full e w = (refl, refl)
emit-pending gone e w = (refl, refl)

-- When the timer of the selection that is being read goes off, the selection is delivered, with every
-- flavor whose pipe had been read to its end; nothing is read any longer, the sources that were still
-- open are taken out of the event loop, and the offer is destroyed. This is where the channel has room.
pub on_read_timeout-delivers :
    (p : Pending) (w : WatchState)
    → IsHeld w.generation w.pending
    → w.pending ≡ some p
    → ((on_read_timeout w.generation sent w).pending ≡ none)
      × ((on_read_timeout w.generation sent w).acts
          ≡ (let_go_of p w).acts ++ deliver (captured (given_up p)) ∷ [])
      × ((given_up p).flavors ≡ flavors_done p.selection.slots)
unfolding on_read_timeout
on_read_timeout-delivers p w h e =
    let held = subst (λ (o : Option Pending). IsHeld w.generation o) e h in
    let same = (==_iff p.selection.generation w.generation).1 held.0.0 in
    let became =
      ap (λ (o : Option Pending). timed_out w.generation sent o w) e
      ∙ timed_out-emits w.generation sent p w same held.0.1 in
    (
      ap (λ (v : WatchState). v.pending) became,
      ap (λ (v : WatchState). v.acts) became,
      given_up-flavors p,
    )

pub on_read_timeout-IsHeld :
    (generation : ℕ) (answer : TrySend) (w : WatchState)
    → IsHeld w.generation w.pending
    → IsHeld w.generation (on_read_timeout generation answer w).pending
      × ((on_read_timeout generation answer w).generation ≡ w.generation)
unfolding on_read_timeout
on_read_timeout-IsHeld generation answer w h = go w.pending refl
  where
    go :
        (o : Option Pending)
        → w.pending ≡ o
        → IsHeld w.generation (timed_out generation answer o w).pending
          × ((timed_out generation answer o w).generation ≡ w.generation)
    go none e = (h, refl)
    go (some p) e = elim (Bool-cases (p.selection.generation == generation)) [
      | inl same ↦
          let held = subst (λ (o : Option Pending). IsHeld w.generation o) e h in
          let (waits, g) = emit-pending answer (captured (given_up p)) (let_go_of p w) in
          rw (timed_out-emits generation answer p w same held.0.1, waits) (tt, g)
      | inr stale ↦ rw stale (h, refl)
    ]

-- A timer of a selection that a newer one has replaced changes nothing at all, and neither does a pipe
-- of it that turns out readable, but for being removed from the event loop.
pub stale_callbacks :
    (generation slot : ℕ) (replies : List ReadReply) (answer : TrySend) (w : WatchState)
    → IsHeld w.generation w.pending
    → (w.generation == generation) ≡ false
    → (on_read_timeout generation answer w ≡ w)
      × (on_flavor_readable generation slot replies answer w ≡ (some remove, w))
unfolding on_read_timeout on_flavor_readable emit_if_complete
stale_callbacks generation slot replies answer w h stale = go w.pending refl
  where
    go :
        (o : Option Pending)
        → w.pending ≡ o
        → (timed_out generation answer o w ≡ w)
          × (readable_at generation slot replies answer o w ≡ (some remove, w))
    go none e = (refl, rw (emit_pending-idle answer w.pending w h) refl)
    go (some p) e =
        let held = subst (λ (o : Option Pending). IsHeld w.generation o) e h in
        let other = ap (λ (g : ℕ). g == generation) held.0.0 ∙ stale in
        rw (other, emit_pending-idle answer w.pending w h) (refl, refl)
