-- ===== src/Wayland/Offer/Written.antt =====
-- offer.rs: a receiver gets the bytes once and in order.
use clippo.Prelude.{
  ℕ, zero, suc, ◌+◌, ◌≤◌, ◌≡◌, refl, sym, ap, ◌∙◌, List, [], ◌∷◌, ◌++◌, ltb, ◌==◌, length, take,
  drop, arith, Bool-cases, inl, inr, take_of_length-le,
}
use clippo.Wayland.Offer.{
  Reply, wrote, interrupted, again, error, finished, BlobWriter, advance, pump,
}

-- what was received is what was counted as written
abbrev pub IsFaithful : BlobWriter → Type 0
IsFaithful writer = writer.received ≡ take writer.written writer.content

take-nil : (n : ℕ) → take {A = ℕ} n [] ≡ []
take-nil zero = refl
take-nil (suc n) = refl

take-add : (m n : ℕ) (xs : List ℕ) → take m xs ++ take n (drop m xs) ≡ take (m + n) xs
take-add zero n xs = ground arith
take-add (suc m) n [] = take-nil n ∙ sym (take-nil (suc m + n))
take-add (suc m) n (x ∷ xs) =
    let e : suc m + n ≡ suc (m + n) = omega arith in
    rw e (ap (λ (r : List ℕ). x ∷ r) (take-add m n xs))

advance-IsFaithful :
    (n : ℕ) (writer : BlobWriter) → IsFaithful writer → IsFaithful (advance n writer)
advance-IsFaithful n writer h =
    ap (λ (r : List ℕ). r ++ take n (drop writer.written writer.content)) h
    ∙ take-add writer.written n writer.content

pump-Pumped :
    (replies : List Reply) (writer : BlobWriter)
    → IsFaithful writer
    → IsFaithful (pump replies writer).1
      × ((pump replies writer).1.content ≡ writer.content)
      × ((pump replies writer).0 ≡ finished
          → length writer.content ≤ (pump replies writer).1.written)
unfolding pump
pump-Pumped [] writer h = elim (Bool-cases (ltb writer.written (length writer.content))) [
  | inl e ↦ rw e (h, refl, λ q. cc)
  | inr e ↦ rw e (h, refl, λ q. ground arith)
]
pump-Pumped (wrote n ∷ replies) writer h =
    elim (Bool-cases (ltb writer.written (length writer.content))) [
      | inr e ↦ rw e (h, refl, λ q. ground arith)
      | inl e ↦ rw e (elim (Bool-cases (n == 0)) [
        | inl z ↦ rw z (h, refl, λ q. cc)
        | inr z ↦ rw z (pump-Pumped replies (advance n writer) (advance-IsFaithful n writer h))
      ])
    ]
pump-Pumped (interrupted ∷ replies) writer h =
    elim (Bool-cases (ltb writer.written (length writer.content))) [
      | inl e ↦ rw e (pump-Pumped replies writer h)
      | inr e ↦ rw e (h, refl, λ q. ground arith)
    ]
pump-Pumped (again ∷ replies) writer h =
    elim (Bool-cases (ltb writer.written (length writer.content))) [
      | inl e ↦ rw e (h, refl, λ q. cc)
      | inr e ↦ rw e (h, refl, λ q. ground arith)
    ]
pump-Pumped (error message ∷ replies) writer h =
    elim (Bool-cases (ltb writer.written (length writer.content))) [
      | inl e ↦ rw e (h, refl, λ q. cc)
      | inr e ↦ rw e (h, refl, λ q. ground arith)
    ]

-- However a pump's writes are answered, what the receiver has got is then the first `written` bytes of
-- the content, each once and in order, if it was so before; a pump that finishes has written them all.
pub pump_lem :
    (replies : List Reply) (writer : BlobWriter)
    → IsFaithful writer
    → IsFaithful (pump replies writer).1
      × ((pump replies writer).0 ≡ finished → (pump replies writer).1.received ≡ writer.content)
pump_lem replies writer h =
    let (faithful, same, all) = pump-Pumped replies writer h in
    (
      faithful,
      λ q.
          faithful
          ∙ ap (λ (c : List ℕ). take (pump replies writer).1.written c) same
          ∙ take_of_length-le (pump replies writer).1.written writer.content (all q),
    )
