-- ===== src/Wayland/Keys/Released.antt =====
-- keys.rs: a shortcut that is pressed is let go again.
use clippo.Prelude.{
  ℕ, ◌≡◌, refl, sym, ap, ◌∙◌, Bool, true, not, List, [], ◌∷◌, ◌++◌, map, Option, none, some, filter,
  any, all, ◌==◌, arith, Bool-cases, inl, inr, append_assoc, append-nil, any-append,
}
use clippo.Prelude.Text.{Text}
use clippo.Core.Chord.{Chord, modifier_keys, modifier_mask}
use clippo.Wayland.Keys.{
  Request, modifiers, press, release, hold, reverse, down, up, send, send_failed,
}

-- what a compositor makes of the requests: the keys that are down, and the modifiers in force
pub record Keyboard : Type 0 where
  pub keys_down : List ℕ
  pub mask : ℕ

abbrev pub at_rest : Keyboard
at_rest = record { keys_down = []; mask = 0 }

abbrev request : Request → Keyboard → Keyboard
request (modifiers mask) k = record k { mask = mask }
request (press key) k = record k { keys_down = k.keys_down ++ key ∷ [] }
request (release key) k = record k { keys_down = filter (λ d. not (d == key)) k.keys_down }
request hold k = k

abbrev pub requests : List Request → Keyboard → Keyboard
requests [] k = k
requests (r ∷ rs) k = requests rs (request r k)

requests-append :
    (xs ys : List Request) (k : Keyboard) → requests (xs ++ ys) k ≡ requests ys (requests xs k)
requests-append [] ys k = refl
requests-append (x ∷ xs) ys k = requests-append xs ys (request x k)

requests-press :
    (keys : List ℕ) (k : Keyboard)
    → requests (map press keys) k ≡ record k { keys_down = k.keys_down ++ keys }
requests-press [] k =
    ap (λ (ks : List ℕ). record { keys_down = ks; mask = k.mask }) (sym (append-nil k.keys_down))
requests-press (key ∷ keys) k =
    requests-press keys (request (press key) k)
    ∙ ap (λ (ks : List ℕ). record { keys_down = ks; mask = k.mask })
        (append_assoc k.keys_down (key ∷ []) keys)

-- what is left down, of the keys `ds`, once the keys `ks` are let go
abbrev left : List ℕ → List ℕ → List ℕ
left [] ds = ds
left (k ∷ ks) ds = left ks (filter (λ d. not (d == k)) ds)

requests-release :
    (keys : List ℕ) (k : Keyboard)
    → requests (map release keys) k ≡ record k { keys_down = left keys k.keys_down }
requests-release [] k = refl
requests-release (key ∷ keys) k = requests-release keys (request (release key) k)

is_in : List ℕ → ℕ → Bool
is_in ks d = any (λ k. d == k) ks

is_in-filter :
    (k : ℕ) (ks ds : List ℕ)
    → all (is_in (k ∷ ks)) ds ≡ true
    → all (is_in ks) (filter (λ d. not (d == k)) ds) ≡ true
unfolding is_in
is_in-filter k ks [] h = refl
is_in-filter k ks (d ∷ ds) h = elim (Bool-cases (d == k)) [
  | inl e ↦ rw e (is_in-filter k ks ds (ground arith))
  | inr e ↦ rw e (ground (arith, is_in-filter k ks ds))
]

left-nil : (ks ds : List ℕ) → all (is_in ks) ds ≡ true → left ks ds ≡ []
unfolding is_in
left-nil [] [] h = refl
left-nil [] (d ∷ ds) h = cc
left-nil (k ∷ ks) ds h = left-nil ks (filter (λ d. not (d == k)) ds) (is_in-filter k ks ds h)

all-is_in :
    (ds ks : List ℕ) → ((d : ℕ) → is_in ds d ≡ true → is_in ks d ≡ true) → all (is_in ks) ds ≡ true
unfolding is_in
all-is_in [] ks h = refl
all-is_in (d ∷ ds) ks h =
    let own = h d (ground arith) in
    let rest = all-is_in ds ks (λ x p. h x (ground arith)) in ground (arith, own, rest)

is_in-reverse : (xs : List ℕ) (d : ℕ) → is_in (reverse xs) d ≡ is_in xs d
unfolding is_in
is_in-reverse [] d = refl
is_in-reverse (x ∷ xs) d =
    ground (arith, any-append (λ k. d == k) (reverse xs) (x ∷ []), is_in-reverse xs d)

let_go-all : (key : ℕ) (ms : List ℕ) → left (key ∷ reverse ms) (ms ++ key ∷ []) ≡ []
unfolding is_in
let_go-all key ms = left-nil (key ∷ reverse ms) (ms ++ key ∷ []) (
    all-is_in (ms ++ key ∷ []) (key ∷ reverse ms)
      (λ d h. ground (arith, any-append (λ k. d == k) ms (key ∷ []), is_in-reverse ms d, h)))

down_lem :
    (c : Chord)
    → requests (down c) at_rest
      ≡ record { keys_down = modifier_keys c ++ c.key ∷ []; mask = modifier_mask c }
down_lem c =
    let start : Keyboard = record { keys_down = []; mask = modifier_mask c } in
    requests-append (map press (modifier_keys c)) (press c.key ∷ []) start
    ∙ ap (requests (press c.key ∷ [])) (requests-press (modifier_keys c) start)

up_lem :
    (c : Chord) (mask : ℕ)
    → requests (up c) (record { keys_down = modifier_keys c ++ c.key ∷ []; mask = mask }) ≡ at_rest
up_lem c mask =
    let ms = modifier_keys c in
    let start : Keyboard = record {
      keys_down = filter (λ d. not (d == c.key)) (ms ++ c.key ∷ []);
      mask = mask;
    } in
    requests-append (map release (reverse ms)) (modifiers 0 ∷ []) start
    ∙ ap (requests (modifiers 0 ∷ [])) (requests-release (reverse ms) start)
    ∙ ap (λ (ks : List ℕ). record { keys_down = ks; mask = 0 }) (let_go-all c.key ms)

-- Pressing a shortcut holds its modifiers and then its key, with the chord's modifiers in force; and
-- where what was pressed could be sent, every key is let go and no modifier is left in force, whatever
-- becomes of the last request. Where it could not be sent, that is the error.
pub send_lem :
    (c : Chord) (roundtrip : Option Text)
    → (requests (down c) at_rest
        ≡ record { keys_down = modifier_keys c ++ c.key ∷ []; mask = modifier_mask c })
      × (requests (send c none roundtrip).0 at_rest ≡ at_rest)
      × ((e : Text) → send c (some e) roundtrip ≡ (down c, some (send_failed e)))
unfolding send
send_lem c roundtrip = (
  down_lem c,
  requests-append (down c) (hold ∷ up c) at_rest
      ∙ ap (requests (hold ∷ up c)) (down_lem c)
      ∙ up_lem c (modifier_mask c),
  λ e. refl,
)
