-- ===== src/Daemon/Preview/Words.antt =====
-- preview.rs: a flattened text is its words with single spaces between them.
use clippo.Prelude.{
  ℕ, ◌≡◌, refl, sym, ap, ◌∙◌, Bool, true, false, List, [], ◌∷◌, ◌++◌, if◌then◌else◌, append-nil,
  append_assoc, Bool-cases, inl, inr,
}
use clippo.Prelude.Text.{Text, is_empty, join}
use clippo.Daemon.Preview.{is_blank, flatten_from, flatten}

abbrev pub push : Text → List Text → List Text
push [] ws = ws
push (c ∷ w) ws = (c ∷ w) ∷ ws

-- the text up to the first blank, and the words behind it
unfoldable pub words_from : Text → Text × List Text
words_from [] = ([], [])
words_from (c ∷ s) =
    let (w, ws) = words_from s in if is_blank c then ([], push w ws) else (c ∷ w, ws)

abbrev words_of : Text × List Text → List Text
words_of (w, ws) = push w ws

-- the runs of characters that are not blank
abbrev pub words : Text → List Text
words s = words_of (words_from s)

-- each word with a space before it
abbrev spaced : List Text → Text
spaced [] = []
spaced (w ∷ ws) = 0x20 ∷ w ++ spaced ws

join-spaced : (w : Text) (ws : List Text) → join 0x20 (w ∷ ws) ≡ w ++ spaced ws
unfolding join
join-spaced w [] = sym (append-nil w)
join-spaced w (v ∷ ws) = ap (λ (t : Text). w ++ 0x20 ∷ t) (join-spaced v ws)

is_empty-append : (out : Text) (c : ℕ) (r : Text) → is_empty (out ++ c ∷ r) ≡ false
is_empty-append [] c r = refl
is_empty-append (d ∷ out) c r = refl

extended :
    (pending : Bool) (out : Text) (c : ℕ)
    → is_empty (out ++ (if pending then 0x20 ∷ c ∷ [] else c ∷ [])) ≡ false
extended true out c = is_empty-append out 0x20 (c ∷ [])
extended false out c = is_empty-append out c []

abbrev At : Bool → Text → Text × List Text → Text
At true out r = out ++ spaced (words_of r)
At false out (w, ws) = out ++ (w ++ spaced ws)

abbrev blank_first : Text × List Text → Text × List Text
blank_first (w, ws) = ([], push w ws)

At-blank :
    (pending : Bool) (out : Text) (r : Text × List Text)
    → At true out r ≡ At pending out (blank_first r)
At-blank true out ([], ws) = refl
At-blank true out (c ∷ w, ws) = refl
At-blank false out r = refl

At-char :
    (pending : Bool) (out : Text) (c : ℕ) (r : Text × List Text)
    → At false (out ++ (if pending then 0x20 ∷ c ∷ [] else c ∷ [])) r
      ≡ At pending out (c ∷ r.0, r.1)
At-char true out c (w, ws) = append_assoc out (0x20 ∷ c ∷ []) (w ++ spaced ws)
At-char false out c (w, ws) = append_assoc out (c ∷ []) (w ++ spaced ws)

flatten_from_lem :
    (pending : Bool) (out s : Text)
    → is_empty out ≡ false
    → flatten_from out pending s ≡ At pending out (words_from s)
unfolding flatten_from words_from
flatten_from_lem true out [] h = sym (append-nil out)
flatten_from_lem false out [] h = sym (append-nil out)
flatten_from_lem pending out (c ∷ s) h = elim (Bool-cases (is_blank c)) [
  | inl e ↦ rw e (rw h (flatten_from_lem true out s h ∙ At-blank pending out (words_from s)))
  | inr e ↦ rw e (
      flatten_from_lem false (out ++ (if pending then 0x20 ∷ c ∷ [] else c ∷ [])) s
        (extended pending out c)
      ∙ At-char pending out c (words_from s))
]

flatten_from_start : (s : Text) → flatten_from [] false s ≡ join 0x20 (words s)
unfolding flatten_from words_from join
flatten_from_start [] = refl
flatten_from_start (c ∷ s) = elim (Bool-cases (is_blank c)) [
  | inl e ↦ rw e (flatten_from_start s)
  | inr e ↦ rw e (
      flatten_from_lem false (c ∷ []) s refl
      ∙ sym (join-spaced (c ∷ (words_from s).0) (words_from s).1))
]

-- A flattened text is the runs of its characters that are neither white space nor control characters,
-- in order, with one space between each two, and none at either end.
pub flatten-join : (text : Text) → flatten text ≡ join 0x20 (words text)
unfolding flatten
flatten-join text = flatten_from_start text
