-- ===== src/Tests/IpcTests.antt =====
-- crates/clippo-ipc/src/peer.rs at concrete inputs.
use clippo.Prelude.{◌≡◌, ◌↔◌, Bool, true, false, [], ◌∷◌, Option, none, some, Result, ok}
use clippo.Prelude.Text.{Text, codes}
use clippo.Ipc.Peer.{Peer, trusted, owned_by, from_paths, owner_of}
use clippo.Ipc.Peer.Trusted.{IsOwnedBy, owner_of-trusts}

abbrev nothing_there : Text → Bool
nothing_there path = false

abbrev same_link : Text → Result Text Text
same_link path = ok (codes "/usr/bin/clippod")

abbrev no_links : Text → Option Text
no_links path = none

abbrev any_order : Text → Text → Bool
any_order a b = true

abbrev the_daemon : Peer
the_daemon = record { unique_name = codes ":1.7"; pid = 12; exe = codes "/usr/bin/clippod" }

owner_of-trusts_example :
    (owner_of nothing_there same_link none
        (owned_by (codes ":1.7"))
        none
        (ok (some 12))
        (from_paths no_links any_order (codes "/usr/bin/clippod" ∷ []))
      ≡ ok (trusted the_daemon))
    ↔ IsOwnedBy nothing_there same_link the_daemon no_links
        (codes "/usr/bin/clippod" ∷ [])
        none
        (owned_by (codes ":1.7"))
        none
        (ok (some 12))
owner_of-trusts_example =
    owner_of-trusts nothing_there same_link no_links any_order (codes "/usr/bin/clippod" ∷ []) none
      (owned_by (codes ":1.7")) none (ok (some 12)) the_daemon
