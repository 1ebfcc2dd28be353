-- ===== src/Wayland/Watch/Reads/Waiting.antt =====
-- watch.rs: a callback for a pipe keeps what holds of the selection.
use clippo.Prelude.{
  ℕ, zero, suc, ◌≡◌, refl, sym, ap, ◌∙◌, true, false, List, [], ◌∷◌, Option, none, some, get_elem?,
  ◌==◌, arith, Bool-cases, inl, inr, subst, ==_iff,
}
use clippo.Wayland.Pending.{Slot, reading, done, dropped, PendingSelection, is_complete}
use clippo.Wayland.Pending.Counted.{IsCounted, count_reading}
use clippo.Wayland.Watch.{TrySend, remove_key, Pending, WatchState}
use clippo.Wayland.Watch.Keys.{has_key, has_key-remove_key}
use clippo.Wayland.Watch.Reads.{
  PostAction, go_on, remove, emit_pending, emit_if_complete, after_read, read_done, readable_at,
  on_flavor_readable, read_flavor, ReadReply,
}
use clippo.Wayland.Watch.Reads.Slots.{reads, Reads, read_flavor-Reads, is_read}
use clippo.Wayland.Watch.Reads.Held.{IsWatched, IsHeld, emit_pending-IsHeld}

some_slot_read :
    (slots : List Slot)
    → (count_reading slots == 0) ≡ false
    → (i : ℕ) × (is_read (get_elem? slots i) ≡ true)
some_slot_read [] h = cc
some_slot_read (reading b ∷ slots) h = (zero, refl)
some_slot_read (done f ∷ slots) h = let (i, r) = some_slot_read slots (ground arith) in (suc i, r)
some_slot_read (dropped mime r ∷ slots) h =
    let (i, q) = some_slot_read slots (ground arith) in (suc i, q)

counts_slot :
    (slots : List Slot) (i : ℕ)
    → is_read (get_elem? slots i) ≡ true
    → (count_reading slots == 0) ≡ false
counts_slot [] i h = cc
counts_slot (reading b ∷ slots) i h = ground arith
counts_slot (done f ∷ slots) zero h = cc
counts_slot (done f ∷ slots) (suc i) h = ground (arith, counts_slot slots i h)
counts_slot (dropped mime r ∷ slots) zero h = cc
counts_slot (dropped mime r ∷ slots) (suc i) h = ground (arith, counts_slot slots i h)

-- while the same slots are read, the selection waits
still_waits :
    (p q : PendingSelection)
    → IsCounted p
    → IsCounted q
    → ((i : ℕ) → reads q i ≡ reads p i)
    → is_complete p ≡ false
    → is_complete q ≡ false
still_waits p q c d same h =
    let (i, r) = some_slot_read p.slots (ap (λ (n : ℕ). n == 0) (sym c) ∙ h) in
    ap (λ (n : ℕ). n == 0) d ∙ counts_slot q.slots i (same i ∙ r)

-- a read that leaves its slot read as it was
waiting_on :
    (slot : ℕ) (p : Pending) (generation : ℕ) (s : PendingSelection)
    → IsHeld generation (some p)
    → Reads slot p.selection (none, s)
    → IsHeld generation (some (record p { selection = s }))
waiting_on slot p generation s ((g, c, k), h) (g', c', other, own) =
    ((g' ∙ g, c' c, λ i. k i ∙ sym (same i)), still_waits p.selection s c (c' c) same h)
  where
    same : (i : ℕ) → reads s i ≡ reads p.selection i
    same i = elim (Bool-cases (slot == i)) [
      | inl e ↦ subst (λ (j : ℕ). reads s j ≡ reads p.selection j) ((==_iff slot i).0 e) own
      | inr e ↦ other i e
    ]

removed-IsWatched :
    (slot : ℕ) (p : Pending) (generation : ℕ) (s : PendingSelection)
    → IsHeld generation (some p)
    → Reads slot p.selection (some remove, s)
    → IsWatched generation s (remove_key slot p.read_tokens)
removed-IsWatched slot p generation s ((g, c, k), h) (g', c', other, own) =
    (g' ∙ g, c' c, λ i. watched i)
  where
    watched : (i : ℕ) → has_key i (remove_key slot p.read_tokens) ≡ reads s i
    watched i = elim (Bool-cases (slot == i)) [
      | inl e ↦
          subst (λ (j : ℕ). has_key j (remove_key slot p.read_tokens) ≡ reads s j)
            ((==_iff slot i).0 e) (ground (arith, has_key-remove_key slot slot p.read_tokens, own))
      | inr e ↦ ground (arith, has_key-remove_key slot i p.read_tokens, k i, other i e)
    ]

read_done-IsHeld :
    (answer : TrySend) (slot : ℕ) (p : Pending) (r : Option PostAction × PendingSelection)
    (w : WatchState)
    → IsHeld w.generation (some p)
    → Reads slot p.selection r
    → IsHeld w.generation (read_done answer (after_read slot p r) w).1.pending
      × ((read_done answer (after_read slot p r) w).1.generation ≡ w.generation)
unfolding emit_if_complete
read_done-IsHeld answer slot p (none, s) w h q = (waiting_on slot p w.generation s h q, refl)
read_done-IsHeld answer slot p (some go_on, s) w h q = (waiting_on slot p w.generation s h q, refl)
read_done-IsHeld answer slot p (some remove, s) w h q =
    let p' = record p { selection = s; read_tokens = remove_key slot p.read_tokens } in
    emit_pending-IsHeld answer p' (record w { pending = some p' }) refl
      (removed-IsWatched slot p w.generation s h q)

pub emit_pending-idle :
    (answer : TrySend) (p : Option Pending) (w : WatchState)
    → IsHeld w.generation p
    → emit_pending answer p w ≡ w
emit_pending-idle answer none w h = refl
emit_pending-idle answer (some p) w (k, h) = rw h refl

pub on_flavor_readable-IsHeld :
    (generation slot : ℕ) (replies : List ReadReply) (answer : TrySend) (w : WatchState)
    → IsHeld w.generation w.pending
    → IsHeld w.generation (on_flavor_readable generation slot replies answer w).1.pending
      × ((on_flavor_readable generation slot replies answer w).1.generation ≡ w.generation)
unfolding on_flavor_readable emit_if_complete
on_flavor_readable-IsHeld generation slot replies answer w h = go w.pending refl
  where
    go :
        (o : Option Pending)
        → w.pending ≡ o
        → IsHeld w.generation (readable_at generation slot replies answer o w).1.pending
          × ((readable_at generation slot replies answer o w).1.generation ≡ w.generation)
    go none e = rw (emit_pending-idle answer w.pending w h) (h, refl)
    go (some p) e = elim (Bool-cases (p.selection.generation == generation)) [
      | inl same ↦ rw same (
          read_done-IsHeld answer slot p (read_flavor slot replies p.selection) w
            (subst (λ (o : Option Pending). IsHeld w.generation o) e h)
            (read_flavor-Reads slot replies p.selection))
      | inr stale ↦ rw (stale, emit_pending-idle answer w.pending w h) (h, refl)
    ]
