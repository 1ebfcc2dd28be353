-- ===== src/Core/Chord/RoundTrip.antt =====
-- chord.rs: a shortcut that was read is written as text that is read as the same shortcut.
use clippo.Prelude.{
  ℕ, ◌≡◌, refl, ap, Bool, true, false, ◌&&◌, List, [], ◌∷◌, some, Result, ok, err, ◌==◌, all, find?,
  arith, Bool-cases, Option-cases, inl, inr, >>=-eq-ok,
}
use clippo.Prelude.Text.{
  Text, text_eq, eq_of_text_eq, lower, split, split_go, trim, trim_start, trim_end, is_whitespace,
  to_ascii_lowercase, to_ascii_uppercase,
}
use clippo.Core.Chord.{
  Chord, ParseChordError, keys, display, parse, parts_of, split_last, add_modifiers, add_modifier,
  modifier_of, is_modifier_word, set_key, no_chord,
}

bool_eq : Bool → Bool → Bool
bool_eq true b = b
bool_eq false true = false
bool_eq false false = true

same_chord : Chord → Chord → Bool
unfolding bool_eq
same_chord c d =
    bool_eq c.ctrl d.ctrl
    && bool_eq c.shift d.shift
    && bool_eq c.alt d.alt
    && bool_eq c.logo d.logo
    && c.key == d.key
    && text_eq c.name d.name

eq_of_same_chord : (c d : Chord) → same_chord c d ≡ true → c ≡ d
unfolding same_chord
eq_of_same_chord c d h = ground (arith, eq_of_text_eq c.name d.name)

is_ok_of : Chord → Result Chord ParseChordError → Bool
is_ok_of c (ok d) = same_chord d c
is_ok_of c (err e) = false

eq_of_is_ok_of : (c : Chord) (r : Result Chord ParseChordError) → is_ok_of c r ≡ true → r ≡ ok c
unfolding is_ok_of
eq_of_is_ok_of c (ok d) h = ap ok (eq_of_same_chord d c h)
eq_of_is_ok_of c (err e) h = cc

reads_back : Bool → Bool → Bool → Bool → Text × ℕ → Bool
reads_back ctrl shift alt logo (name, code) =
    let c : Chord = record {
      ctrl = ctrl;
      shift = shift;
      alt = alt;
      logo = logo;
      key = code;
      name = name;
    } in
    is_ok_of c (parse (display c))

-- Every combination of modifiers and keys, by evaluation.
reads_back-all : (ctrl shift alt logo : Bool) → all (reads_back ctrl shift alt logo) keys ≡ true
unfolding reads_back is_ok_of same_chord parse display parts_of split_last add_modifiers
    add_modifier modifier_of is_modifier_word set_key split split_go trim trim_start trim_end
    text_eq is_whitespace to_ascii_lowercase to_ascii_uppercase
reads_back-all false false false false = refl
reads_back-all false false false true = refl
reads_back-all false false true false = refl
reads_back-all false false true true = refl
reads_back-all false true false false = refl
reads_back-all false true false true = refl
reads_back-all false true true false = refl
reads_back-all false true true true = refl
reads_back-all true false false false = refl
reads_back-all true false false true = refl
reads_back-all true false true false = refl
reads_back-all true false true true = refl
reads_back-all true true false false = refl
reads_back-all true true false true = refl
reads_back-all true true true false = refl
reads_back-all true true true true = refl

-- what is found in a list has every property that all its elements have
all-find? {ℓ} :
    {A : Type ℓ} (p q : A → Bool) (xs : List A) (y : A)
    → all q xs ≡ true
    → find? p xs ≡ some y
    → q y ≡ true
all-find? p q [] y h e = cc
all-find? p q (x ∷ xs) y h e = elim (Bool-cases (p x)) [
  | inl here ↦ ground arith
  | inr later ↦ all-find? p q xs y (ground arith) (ground arith)
]

-- a shortcut with a key of the table
unfoldable pub IsChord : Chord → Type 0
IsChord c = (p : Text × ℕ → Bool) → all p keys ≡ true → p (c.name, c.key) ≡ true

set_key-IsChord : (key : Text) (c d : Chord) → set_key key c ≡ ok d → IsChord d
unfolding set_key IsChord
set_key-IsChord key c d e p h =
    ground (arith, all-find? (λ (e : Text × ℕ). text_eq e.0 (lower key)) p keys (d.name, d.key) h)

pub parse-IsChord : (text : Text) (c : Chord) → parse text ≡ ok c → IsChord c
unfolding parse
parse-IsChord text c e = elim (Option-cases (split_last (parts_of text))) [
  | inl none_left ↦ absurd (ground arith)
  | inr ((key, modifiers), found) ↦
      let (d, _, last) =
        >>=-eq-ok (add_modifiers no_chord modifiers) (set_key key) (rw (found, parse) at e) in
      set_key-IsChord key d c last
]

pub parse-display_of_IsChord : (c : Chord) → IsChord c → parse (display c) ≡ ok c
unfolding IsChord reads_back
parse-display_of_IsChord c h =
    eq_of_is_ok_of c (parse (display c))
      (h (reads_back c.ctrl c.shift c.alt c.logo) (reads_back-all c.ctrl c.shift c.alt c.logo))

-- A shortcut that was read from any text is written as a text that is read as the same shortcut.
pub parse-display : (text : Text) (c : Chord) → parse text ≡ ok c → parse (display c) ≡ ok c
parse-display text c e = parse-display_of_IsChord c (parse-IsChord text c e)
