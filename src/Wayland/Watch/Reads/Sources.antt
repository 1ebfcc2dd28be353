-- ===== src/Wayland/Watch/Reads/Sources.antt =====
-- watch.rs: setting up reads, reading, giving up and letting go keep the event loop's sources in step.
use clippo.Prelude.{
  ℕ, ◌≡◌, refl, sym, ap, ◌∙◌, Bool, false, not, List, [], ◌∷◌, ◌++◌, map, Option, none, some,
  Result, ok, err, filter, ◌==◌, ==_iff, Bool-cases, inl, inr, if◌then◌else◌, length, subst,
}
use clippo.Prelude.Text.{Text}
use clippo.Wayland.Selection.{SelectionKind}
use clippo.Wayland.Pending.{PendingSelection, expect_flavor, is_complete, into_selection}
use clippo.Wayland.Watch.{
  TrySend, sent, full, gone, WatchEvent, captured, Act, remove_token, ReadSource, left_in_loop,
  remove_key, insert_key, Pending, WatchState, u64_next, take_out, emit, let_go, abandon_at,
  abandon_pending,
}
use clippo.Wayland.Watch.Keys.{has_key}
use clippo.Wayland.Watch.Reads.{
  ReadReply, PostAction, go_on, remove, ReadSetup, begin_read, Started, started, start_read,
  start_all, emit_pending, emit_if_complete, hold, first_state, start_reads, after_read, read_done,
  readable_at, on_flavor_readable, read_flavor, timed_out, on_read_timeout, answered,
}
use clippo.Wayland.Watch.Reads.Slots.{Reads, read_flavor-Reads}
use clippo.Wayland.Watch.Reads.Held.{
  IsWatched, IsHeld, start_read-IsWatched, start_all-IsWatched, get_elem?-end,
}
use clippo.Wayland.Watch.Reads.Waiting.{emit_pending-idle}
use clippo.Wayland.Watch.Reads.Timeout.{given_up, let_go_of, timed_out-emits}
use clippo.Wayland.Watch.Reads.Registered.{
  sources_of, IsRegistered, let_go-none, removals-none, sources_of-append, remove_key-fresh, called,
  called-own, called-other, left-filter,
}

-- an answer of the channel changes neither the selection that is read nor the loop's sources
emit-sources :
    (answer : TrySend) (e : WatchEvent) (w : WatchState)
    → ((emit answer e w).pending ≡ w.pending) × ((emit answer e w).sources ≡ w.sources)
emit-sources sent e w = (refl, refl)
emit-sources full e w = (refl, refl)
emit-sources gone e w = (refl, refl)

-- nothing is read, and the loop has no source
abbrev pub IsIdle : WatchState → Type 0
IsIdle w = (w.pending ≡ none) × (w.sources ≡ [])

pub IsIdle-IsRegistered : (w : WatchState) → IsIdle w → IsRegistered w.pending w.sources
IsIdle-IsRegistered w (p, s) = subst (λ (o : Option Pending). IsRegistered o w.sources) (sym p) s

emit-IsIdle :
    (answer : TrySend) (e : WatchEvent) (w : WatchState) → IsIdle w → IsIdle (emit answer e w)
emit-IsIdle answer e w (p, s) = let (p', s') = emit-sources answer e w in (p' ∙ p, s' ∙ s)

let_go-IsIdle :
    (p : Pending) (w : WatchState)
    → IsRegistered (some p) w.sources
    → IsIdle (take_out (let_go p) (record w { pending = none }))
let_go-IsIdle p w h = (refl, ap (left_in_loop (let_go p)) h ∙ let_go-none p p.selection.generation)

emit_pending-IsRegistered :
    (answer : TrySend) (p : Pending) (w : WatchState)
    → w.pending ≡ some p
    → IsRegistered (some p) w.sources
    → IsRegistered (emit_pending answer (some p) w).pending (emit_pending answer (some p) w).sources
emit_pending-IsRegistered answer p w at h = elim (Bool-cases (is_complete p.selection)) [
  | inl e ↦ rw e (
      let v = take_out (let_go p) (record w { pending = none }) in
      let event = captured (into_selection p.selection) in
      IsIdle-IsRegistered (emit answer event v) (emit-IsIdle answer event v (let_go-IsIdle p w h)))
  | inr e ↦ rw e (subst (λ (o : Option Pending). IsRegistered o w.sources) (sym at) h)
]

-- what is set up so far is what the loop has been given
abbrev IsStarted : ℕ → Started → Type 0
IsStarted generation s =
    IsWatched generation s.selection s.read_tokens
    × (s.sources ≡ sources_of generation s.read_tokens)

started-sources :
    (slot generation : ℕ) (r : List Act × Result ℕ Text) (s : Started)
    → s.selection.generation ≡ generation
    → has_key slot s.read_tokens ≡ false
    → s.sources ≡ sources_of generation s.read_tokens
    → (started slot r s).sources ≡ sources_of generation (started slot r s).read_tokens
unfolding insert_key
started-sources slot generation (acts, ok token) s g fresh h =
    ap (λ (k : ℕ). s.sources ++ (token, k, slot) ∷ []) g
    ∙ ap (λ (l : List ReadSource). l ++ (token, generation, slot) ∷ []) h
    ∙ sym (sources_of-append generation s.read_tokens (slot, token))
    ∙ ap (λ (m : List (ℕ × ℕ)). sources_of generation (m ++ (slot, token) ∷ []))
        (sym (remove_key-fresh slot s.read_tokens fresh))
started-sources slot generation (acts, err reason) s g fresh h = h

start_all-IsStarted :
    (offer cap : ℕ) (setups : ℕ → ReadSetup) (mimes : List Text) (generation : ℕ) (s : Started)
    → IsStarted generation s
    → (start_all offer cap setups mimes s).sources
      ≡ sources_of generation (start_all offer cap setups mimes s).read_tokens
unfolding start_all expect_flavor
start_all-IsStarted offer cap setups [] generation s (h, e) = e
start_all-IsStarted offer cap setups (mime ∷ mimes) generation s (h, e) =
    let slots = s.selection.slots in
    start_all-IsStarted offer cap setups mimes generation (start_read offer cap setups mime s) (
      start_read-IsWatched offer cap setups mime generation s h,
      started-sources (length slots) generation (begin_read offer mime (setups (length slots)))
          (record s { selection = (expect_flavor mime cap s.selection).1 }) h.0
          (h.2 (length slots) ∙ get_elem?-end slots) e,
    )

pub start_reads-IsRegistered :
    (kind : SelectionKind) (offer : ℕ) (advertised wanted : List Text) (setups : ℕ → ReadSetup)
    (armed : Option ℕ) (answer : TrySend) (w : WatchState)
    → w.sources ≡ []
    → IsRegistered
        (start_reads kind offer advertised wanted setups armed answer w).pending
        (start_reads kind offer advertised wanted setups armed answer w).sources
unfolding start_reads emit_if_complete
start_reads-IsRegistered kind offer advertised wanted setups armed answer w empty =
    let generation = u64_next w.generation in
    let first = first_state generation kind advertised in
    let s = start_all offer w.max_flavor_bytes setups wanted first in
    let watched =
      start_all-IsWatched offer w.max_flavor_bytes setups wanted generation first
        (refl, refl, λ i. refl) in
    emit_pending-IsRegistered answer
      (record {
        selection = s.selection;
        offer = offer;
        read_tokens = s.read_tokens;
        timeout_token = if is_complete s.selection then none else armed;
      })
      (hold offer armed s (record w { generation = generation })) refl
      (ap (λ (l : List ReadSource). l ++ s.sources) empty
        ∙ start_all-IsStarted offer w.max_flavor_bytes setups wanted generation first
            ((refl, refl, λ i. refl), refl)
        ∙ ap (λ (g : ℕ). sources_of g s.read_tokens) (sym watched.0))

pub abandon_pending-IsIdle :
    (w : WatchState) → IsRegistered w.pending w.sources → IsIdle (abandon_pending w)
unfolding abandon_pending
abandon_pending-IsIdle w h = go w.pending refl
  where
    go : (o : Option Pending) → w.pending ≡ o → IsIdle (abandon_at o w)
    go none e = (e, subst (λ (o : Option Pending). IsRegistered o w.sources) e h)
    go (some p) e = let_go-IsIdle p w (subst (λ (o : Option Pending). IsRegistered o w.sources) e h)

-- a callback that asks to be removed, of a selection that may be complete now
answered-emit :
    (generation slot : ℕ) (answer : TrySend) (p : Pending) (w : WatchState)
    → w.pending ≡ some p
    → filter (λ (s : ReadSource). not (called generation slot s)) w.sources
      ≡ sources_of p.selection.generation p.read_tokens
    → IsRegistered
        (answered generation slot (some remove, emit_pending answer (some p) w)).pending
        (answered generation slot (some remove, emit_pending answer (some p) w)).sources
answered-emit generation slot answer p w at h = elim (Bool-cases (is_complete p.selection)) [
  | inl e ↦ rw e (
      let v = take_out (let_go p) (record w { pending = none }) in
      let event = captured (into_selection p.selection) in
      let (gone_now, same) = emit-sources answer event v in
      let kept = λ (s : ReadSource). not (called generation slot s) in
      subst (λ (o : Option Pending). IsRegistered o (filter kept (emit answer event v).sources))
        (sym gone_now)
        (ap (filter kept) same
          ∙ left-filter kept (let_go p) w.sources
          ∙ ap (left_in_loop (let_go p)) h
          ∙ let_go-none p p.selection.generation))
  | inr e ↦ rw e (
      subst
        (λ (o : Option Pending).
          IsRegistered o (filter (λ (s : ReadSource). not (called generation slot s)) w.sources))
        (sym at) h)
]

read_done-IsRegistered :
    (slot : ℕ) (answer : TrySend) (p : Pending) (r : Option PostAction × PendingSelection)
    (w : WatchState)
    → IsRegistered (some p) w.sources
    → Reads slot p.selection r
    → IsRegistered
        (answered p.selection.generation slot (read_done answer (after_read slot p r) w)).pending
        (answered p.selection.generation slot (read_done answer (after_read slot p r) w)).sources
unfolding emit_if_complete
read_done-IsRegistered slot answer p (none, s) w h q =
    h ∙ ap (λ (g : ℕ). sources_of g p.read_tokens) (sym q.0)
read_done-IsRegistered slot answer p (some go_on, s) w h q =
    h ∙ ap (λ (g : ℕ). sources_of g p.read_tokens) (sym q.0)
read_done-IsRegistered slot answer p (some remove, s) w h q =
    let generation = p.selection.generation in
    let p' = record p { selection = s; read_tokens = remove_key slot p.read_tokens } in
    answered-emit generation slot answer p' (record w { pending = some p' }) refl
      (ap (filter (λ (s : ReadSource). not (called generation slot s))) h
        ∙ called-own generation slot p.read_tokens
        ∙ ap (λ (g : ℕ). sources_of g (remove_key slot p.read_tokens)) (sym q.0))

pub on_flavor_readable-IsRegistered :
    (generation slot : ℕ) (replies : List ReadReply) (answer : TrySend) (w : WatchState)
    → IsHeld w.generation w.pending
    → IsRegistered w.pending w.sources
    → IsRegistered
        (answered generation slot (on_flavor_readable generation slot replies answer w)).pending
        (answered generation slot (on_flavor_readable generation slot replies answer w)).sources
unfolding on_flavor_readable emit_if_complete
on_flavor_readable-IsRegistered generation slot replies answer w held h = go w.pending refl
  where
    kept : ReadSource → Bool
    kept s = not (called generation slot s)

    go :
        (o : Option Pending)
        → w.pending ≡ o
        → IsRegistered
            (answered generation slot (readable_at generation slot replies answer o w)).pending
            (answered generation slot (readable_at generation slot replies answer o w)).sources
    go none e = rw (emit_pending-idle answer w.pending w held) (
        subst (λ (o : Option Pending). IsRegistered o (filter kept w.sources)) (sym e)
          (ap (filter kept) (subst (λ (o : Option Pending). IsRegistered o w.sources) e h)))
    go (some p) e =
        let own = subst (λ (o : Option Pending). IsRegistered o w.sources) e h in
        elim (Bool-cases (p.selection.generation == generation)) [
          | inl same ↦ rw same (
              let r = read_flavor slot replies p.selection in
              subst
                (λ (g : ℕ).
                  IsRegistered (answered g slot (read_done answer (after_read slot p r) w)).pending
                    (answered g slot (read_done answer (after_read slot p r) w)).sources)
                ((==_iff p.selection.generation generation).0 same)
                (read_done-IsRegistered slot answer p r w own
                  (read_flavor-Reads slot replies p.selection)))
          | inr stale ↦
              rw (stale, emit_pending-idle answer w.pending w held)
                (subst (λ (o : Option Pending). IsRegistered o (filter kept w.sources)) (sym e)
                  (ap (filter kept) own
                    ∙ called-other p.selection.generation generation slot p.read_tokens stale))
        ]

pub on_read_timeout-IsRegistered :
    (generation : ℕ) (answer : TrySend) (w : WatchState)
    → IsHeld w.generation w.pending
    → IsRegistered w.pending w.sources
    → IsRegistered
        (on_read_timeout generation answer w).pending
        (on_read_timeout generation answer w).sources
unfolding on_read_timeout
on_read_timeout-IsRegistered generation answer w held h = go w.pending refl
  where
    go :
        (o : Option Pending)
        → w.pending ≡ o
        → IsRegistered
            (timed_out generation answer o w).pending
            (timed_out generation answer o w).sources
    go none e = h
    go (some p) e = elim (Bool-cases (p.selection.generation == generation)) [
      | inl same ↦
          let own = subst (λ (o : Option Pending). IsHeld w.generation o) e held in
          let reg = subst (λ (o : Option Pending). IsRegistered o w.sources) e h in
          let event = captured (given_up p) in
          rw (timed_out-emits generation answer p w same own.0.1) (
            IsIdle-IsRegistered (emit answer event (let_go_of p w)) (
              emit-IsIdle answer event (let_go_of p w) (
                refl,
                ap (left_in_loop (map (λ (e : ℕ × ℕ). remove_token e.1) p.read_tokens)) reg
                    ∙ removals-none p.selection.generation p.read_tokens,
              )))
      | inr stale ↦ rw stale h
    ]
