-- ===== src/Wayland/Watch/Reads/Registered.antt =====
-- watch.rs: which sources of reads the event loop has.
use clippo.Prelude.{
  ℕ, ◌≡◌, refl, sym, ap, ◌∙◌, Bool, true, false, not, ◌&&◌, List, [], ◌∷◌, ◌++◌, map, Option, none,
  some, any, all, filter, ◌==◌, arith, Bool-cases, inl, inr, ==_iff, append-nil,
}
use clippo.Wayland.Watch.{
  Act, remove_token, destroy_offer, ReadSource, left_in_loop, remove_key, Pending, optional_token,
  let_go,
}
use clippo.Wayland.Watch.Keys.{has_key}

-- the sources of the reads of a generation, by their slots
abbrev pub sources_of : ℕ → List (ℕ × ℕ) → List ReadSource
sources_of generation [] = []
sources_of generation (e ∷ tokens) = (e.1, generation, e.0) ∷ sources_of generation tokens

-- The event loop has exactly the sources whose tokens the selection that is read holds, each for its slot
-- of that selection; with none that is read, it has none.
abbrev pub IsRegistered : Option Pending → List ReadSource → Type 0
IsRegistered none sources = sources ≡ []
IsRegistered (some p) sources = sources ≡ sources_of p.selection.generation p.read_tokens

abbrev removals : List (ℕ × ℕ) → List Act
removals tokens = map (λ (e : ℕ × ℕ). remove_token e.1) tokens

-- a source has one of the tokens
abbrev is_held : List (ℕ × ℕ) → ReadSource → Bool
is_held tokens s = any (λ (e : ℕ × ℕ). e.1 == s.0) tokens

left_in_loop-none : (acts : List Act) → left_in_loop acts [] ≡ []
left_in_loop-none [] = refl
left_in_loop-none (remove_token token ∷ acts) = left_in_loop-none acts
left_in_loop-none (act ∷ acts) = left_in_loop-none acts

all-held-filter :
    (e : ℕ × ℕ) (tokens : List (ℕ × ℕ)) (sources : List ReadSource)
    → all (is_held (e ∷ tokens)) sources ≡ true
    → all (is_held tokens) (filter (λ (s : ReadSource). not (s.0 == e.1)) sources) ≡ true
all-held-filter e tokens [] h = refl
all-held-filter e tokens (s ∷ sources) h = ground (arith, all-held-filter e tokens sources)

-- removing every token leaves nothing
left-removals :
    (tokens : List (ℕ × ℕ)) (acts : List Act) (sources : List ReadSource)
    → all (is_held tokens) sources ≡ true
    → left_in_loop (removals tokens ++ acts) sources ≡ []
left-removals [] acts [] h = left_in_loop-none acts
left-removals [] acts (s ∷ sources) h = cc
left-removals (e ∷ tokens) acts sources h =
    left-removals tokens acts (filter (λ (s : ReadSource). not (s.0 == e.1)) sources)
      (all-held-filter e tokens sources h)

all-held-more :
    (e : ℕ × ℕ) (tokens : List (ℕ × ℕ)) (sources : List ReadSource)
    → all (is_held tokens) sources ≡ true
    → all (is_held (e ∷ tokens)) sources ≡ true
all-held-more e tokens [] h = refl
all-held-more e tokens (s ∷ sources) h = ground (arith, all-held-more e tokens sources)

all-held-sources_of :
    (generation : ℕ) (tokens : List (ℕ × ℕ))
    → all (is_held tokens) (sources_of generation tokens) ≡ true
all-held-sources_of generation [] = refl
all-held-sources_of generation (e ∷ tokens) = ground (
  arith,
  all-held-more e tokens (sources_of generation tokens),
  all-held-sources_of generation tokens,
)

pub let_go-none :
    (p : Pending) (generation : ℕ)
    → left_in_loop (let_go p) (sources_of generation p.read_tokens) ≡ []
let_go-none p generation =
    left-removals p.read_tokens (optional_token p.timeout_token ++ destroy_offer p.offer ∷ [])
      (sources_of generation p.read_tokens) (all-held-sources_of generation p.read_tokens)

pub removals-none :
    (generation : ℕ) (tokens : List (ℕ × ℕ))
    → left_in_loop (removals tokens) (sources_of generation tokens) ≡ []
removals-none generation tokens =
    ap (λ (acts : List Act). left_in_loop acts (sources_of generation tokens))
      (sym (append-nil (removals tokens)))
    ∙ left-removals tokens [] (sources_of generation tokens) (all-held-sources_of generation tokens)

pub sources_of-append :
    (generation : ℕ) (tokens : List (ℕ × ℕ)) (e : ℕ × ℕ)
    → sources_of generation (tokens ++ e ∷ [])
      ≡ sources_of generation tokens ++ (e.1, generation, e.0) ∷ []
sources_of-append generation [] e = refl
sources_of-append generation (d ∷ tokens) e =
    ap (λ (l : List ReadSource). (d.1, generation, d.0) ∷ l) (sources_of-append generation tokens e)

pub remove_key-fresh : (k : ℕ) (m : List (ℕ × ℕ)) → has_key k m ≡ false → remove_key k m ≡ m
unfolding remove_key
remove_key-fresh k [] h = refl
remove_key-fresh k (e ∷ m) h = elim (Bool-cases (e.0 == k)) [
  | inl q ↦ ground arith
  | inr q ↦ rw q (ap (λ (l : List (ℕ × ℕ)). e ∷ l) (remove_key-fresh k m (ground arith)))
]

-- a source that the loop is told to remove by its callback
abbrev pub called : ℕ → ℕ → ReadSource → Bool
called generation slot s = (s.1 == generation) && (s.2 == slot)

pub called-own :
    (generation slot : ℕ) (tokens : List (ℕ × ℕ))
    → filter (λ (s : ReadSource). not (called generation slot s)) (sources_of generation tokens)
      ≡ sources_of generation (remove_key slot tokens)
unfolding remove_key
called-own generation slot [] = refl
called-own generation slot (e ∷ tokens) = elim (Bool-cases (e.0 == slot)) [
  | inl q ↦ rw (q, (==_iff generation generation).1 refl) (called-own generation slot tokens)
  | inr q ↦
      rw (q, (==_iff generation generation).1 refl)
        (ap (λ (l : List ReadSource). (e.1, generation, e.0) ∷ l)
          (called-own generation slot tokens))
]

pub called-other :
    (g generation slot : ℕ) (tokens : List (ℕ × ℕ))
    → (g == generation) ≡ false
    → filter (λ (s : ReadSource). not (called generation slot s)) (sources_of g tokens)
      ≡ sources_of g tokens
called-other g generation slot [] h = refl
called-other g generation slot (e ∷ tokens) h =
    rw h (ap (λ (l : List ReadSource). (e.1, g, e.0) ∷ l) (called-other g generation slot tokens h))

filter-swap :
    (p q : ReadSource → Bool) (sources : List ReadSource)
    → filter p (filter q sources) ≡ filter q (filter p sources)
filter-swap p q [] = refl
filter-swap p q (s ∷ sources) = ground (arith, filter-swap p q sources)

pub left-filter :
    (p : ReadSource → Bool) (acts : List Act) (sources : List ReadSource)
    → filter p (left_in_loop acts sources) ≡ left_in_loop acts (filter p sources)
left-filter p [] sources = refl
left-filter p (remove_token token ∷ acts) sources =
    left-filter p acts (filter (λ (s : ReadSource). not (s.0 == token)) sources)
    ∙ ap (left_in_loop acts) (filter-swap p (λ (s : ReadSource). not (s.0 == token)) sources)
left-filter p (act ∷ acts) sources = left-filter p acts sources
