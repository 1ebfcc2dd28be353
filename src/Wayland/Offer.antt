-- ===== src/Wayland/Offer.antt =====
-- crates/clippo-wayland/src/offer.rs: what clippo offers, and the writing of it.
pub mod Served
pub mod Written
use mathlib.Core.Option
use clippo.Prelude.{
  ℕ, zero, suc, ◌+◌, ◌-◌, Bool, true, false, ◌||◌, List, [], ◌∷◌, ◌++◌, Option, none, some, ltb,
  ◌==◌, if◌then◌else◌, any, find?, length, take, drop,
}
use clippo.Prelude.Text.{Text, is_empty, trim}
use clippo.Core.Entry.{Flavor}
use clippo.Wayland.Mime.{same}

-- `OfferedFlavor` has the fields of a flavor, its bytes shared. A flavor with no MIME type, or with
-- one that is already offered, is passed over.
unfoldable pub offered_from : List Flavor → List Flavor → List Flavor
offered_from offered [] = offered
offered_from offered (f ∷ fs) =
    offered_from
      (if is_empty (trim f.mime) || any (λ already. same already.mime f.mime) offered
        then offered
        else offered ++ f ∷ [])
      fs

unfoldable pub offered_flavors : List Flavor → List Flavor
offered_flavors flavors = offered_from [] flavors

unfoldable pub blob_for : List Flavor → Text → Option (List ℕ)
blob_for offered wanted =
    Option.map (λ (f : Flavor). f.content) (find? (λ f. same f.mime wanted) offered)

-- what one `write` answers
pub data Reply : Type 0 where
  wrote : ℕ → Reply
  interrupted again : Reply
  error : Text → Reply

pub data WriteProgress : Type 0 where
  finished blocked waiting : WriteProgress
  failed : Text → WriteProgress

-- `BlobWriter`, and what the receiver has got
pub record BlobWriter : Type 0 where
  pub content : List ℕ
  pub written : ℕ
  pub received : List ℕ

abbrev pub new_writer : List ℕ → BlobWriter
new_writer content = record { content = content; written = 0; received = [] }

abbrev remaining : BlobWriter → ℕ
remaining writer = length writer.content - writer.written

-- the receiver got the first `bytes` of what was passed to `write`
abbrev pub advance : ℕ → BlobWriter → BlobWriter
advance bytes writer = record writer {
  written = writer.written + bytes;
  received = writer.received ++ take bytes (drop writer.written writer.content);
}

-- the loop of `pump`, over the replies that the writes get; `waiting` is a `write` with no reply yet
unfoldable pub pump : List Reply → BlobWriter → WriteProgress × BlobWriter
pump [] writer =
    if ltb writer.written (length writer.content) then (waiting, writer) else (finished, writer)
pump (wrote n ∷ replies) writer =
    let rest = pump replies (advance n writer) in
    if ltb writer.written (length writer.content)
    then (if n == 0 then (failed [], writer) else rest)
    else (finished, writer)
pump (interrupted ∷ replies) writer =
    let rest = pump replies writer in
    if ltb writer.written (length writer.content) then rest else (finished, writer)
pump (again ∷ replies) writer =
    if ltb writer.written (length writer.content) then (blocked, writer) else (finished, writer)
pump (error message ∷ replies) writer =
    if ltb writer.written (length writer.content)
    then (failed message, writer)
    else (finished, writer)
