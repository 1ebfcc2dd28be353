-- ===== src/Core/Chord.antt =====
-- crates/clippo-core/src/chord.rs: the paste shortcut, read from text and written back.
pub mod RoundTrip
use clippo.Prelude.{
  ℕ, suc, ◌+◌, Bool, true, false, ◌&&◌, ◌||◌, not, List, [], ◌∷◌, ◌++◌, map, Option, none, some,
  Result, ok, err, ◌>>=◌, if◌then◌else◌, filter, find?,
}
use clippo.Prelude.Text.{Text, codes, text_eq, lower, upper, split, trim, is_empty}

abbrev key_leftctrl : ℕ
key_leftctrl = 29

abbrev key_leftshift : ℕ
key_leftshift = 42

abbrev key_leftalt : ℕ
key_leftalt = 56

abbrev key_leftmeta : ℕ
key_leftmeta = 125

-- `KEYS`: the names, and the kernel's key codes
abbrev pub keys : List (Text × ℕ)
keys =
    (codes "1", 2)
    ∷ (codes "2", 3)
    ∷ (codes "3", 4)
    ∷ (codes "4", 5)
    ∷ (codes "5", 6)
    ∷ (codes "6", 7)
    ∷ (codes "7", 8)
    ∷ (codes "8", 9)
    ∷ (codes "9", 10)
    ∷ (codes "0", 11)
    ∷ (codes "q", 16)
    ∷ (codes "w", 17)
    ∷ (codes "e", 18)
    ∷ (codes "r", 19)
    ∷ (codes "t", 20)
    ∷ (codes "y", 21)
    ∷ (codes "u", 22)
    ∷ (codes "i", 23)
    ∷ (codes "o", 24)
    ∷ (codes "p", 25)
    ∷ (codes "a", 30)
    ∷ (codes "s", 31)
    ∷ (codes "d", 32)
    ∷ (codes "f", 33)
    ∷ (codes "g", 34)
    ∷ (codes "h", 35)
    ∷ (codes "j", 36)
    ∷ (codes "k", 37)
    ∷ (codes "l", 38)
    ∷ (codes "z", 44)
    ∷ (codes "x", 45)
    ∷ (codes "c", 46)
    ∷ (codes "v", 47)
    ∷ (codes "b", 48)
    ∷ (codes "n", 49)
    ∷ (codes "m", 50)
    ∷ (codes "insert", 110)
    ∷ []

pub record Chord : Type 0 where
  pub ctrl : Bool
  pub shift : Bool
  pub alt : Bool
  pub logo : Bool
  pub key : ℕ
  pub name : Text

abbrev pub no_chord : Chord
no_chord = record { ctrl = false; shift = false; alt = false; logo = false; key = 0; name = [] }

abbrev push_if : Bool → ℕ → List ℕ → List ℕ
push_if held code keys_so_far = if held then keys_so_far ++ code ∷ [] else keys_so_far

unfoldable pub modifier_keys : Chord → List ℕ
modifier_keys c =
    push_if c.shift key_leftshift
      (push_if c.logo key_leftmeta (push_if c.alt key_leftalt (push_if c.ctrl key_leftctrl [])))

abbrev weight : Bool → ℕ → ℕ
weight held bit = if held then bit else 0

-- the bits of `mask` are distinct, so `|=` adds them
unfoldable pub modifier_mask : Chord → ℕ
modifier_mask c = weight c.shift 1 + weight c.ctrl 4 + weight c.alt 8 + weight c.logo 64

abbrev label : Bool → Text → Text
label held text = if held then text ++ codes "+" else []

-- `impl Display for Chord`; the names are ASCII
unfoldable pub display : Chord → Text
display c =
    label c.ctrl (codes "Ctrl")
    ++ (label c.alt (codes "Alt")
        ++ (label c.logo (codes "Super") ++ (label c.shift (codes "Shift") ++ upper c.name)))

pub data ParseChordError : Type 0 where
  empty no_key : ParseChordError
  unknown_modifier unknown_key repeated_modifier : Text → ParseChordError

pub data Modifier : Type 0 where
  ctrl shift alt logo : Modifier

unfoldable pub modifier_of : Text → Option Modifier
modifier_of word =
    if text_eq word (codes "ctrl") || text_eq word (codes "control")
    then some ctrl
    else if text_eq word (codes "shift")
    then some shift
    else if text_eq word (codes "alt") || text_eq word (codes "option")
    then some alt
    else if text_eq word (codes "super")
        || text_eq word (codes "meta")
        || text_eq word (codes "logo")
        || text_eq word (codes "win")
    then some logo
    else none

-- `*slot`, and `*slot = true`
abbrev held : Modifier → Chord → Bool
held ctrl c = c.ctrl
held shift c = c.shift
held alt c = c.alt
held logo c = c.logo

abbrev hold : Modifier → Chord → Chord
hold ctrl c = record c { ctrl = true }
hold shift c = record c { shift = true }
hold alt c = record c { alt = true }
hold logo c = record c { logo = true }

-- one round of the loop over the modifiers
unfoldable pub add_modifier : Chord → Text → Result Chord ParseChordError
add_modifier c part = elim (modifier_of (lower part)) [
  | none ↦ err (unknown_modifier part)
  | some m ↦ if held m c then err (repeated_modifier part) else ok (hold m c)
]

unfoldable pub add_modifiers : Chord → List Text → Result Chord ParseChordError
add_modifiers c [] = ok c
add_modifiers c (part ∷ parts) = add_modifier c part >>= λ c'. add_modifiers c' parts

-- the words that name a modifier, refused as a key
unfoldable pub is_modifier_word : Text → Bool
is_modifier_word word = elim (modifier_of word) [ none ↦ false | some _ ↦ true ]

unfoldable pub set_key : Text → Chord → Result Chord ParseChordError
set_key key c =
    if is_modifier_word (lower key)
    then err no_key
    else elim (find? (λ e. text_eq e.0 (lower key)) keys) [
      | none ↦ err (unknown_key key)
      | some (name, code) ↦ ok (record c { key = code; name = name })
    ]

-- `slice::split_last`
unfoldable pub split_last : List Text → Option (Text × List Text)
split_last [] = none
split_last (p ∷ ps) = elim (split_last ps) [
  | none ↦ some (p, [])
  | some (last, front) ↦ some (last, p ∷ front)
]

unfoldable pub parts_of : Text → List Text
parts_of text = filter (λ part. not (is_empty part)) (map trim (split b'+' text))

-- `Chord::from_str`
unfoldable pub parse : Text → Result Chord ParseChordError
parse text = elim (split_last (parts_of text)) [
  | none ↦ err empty
  | some (key, modifiers) ↦ add_modifiers no_chord modifiers >>= set_key key
]
