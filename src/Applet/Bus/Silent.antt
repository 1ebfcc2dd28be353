-- ===== src/Applet/Bus/Silent.antt =====
-- bus.rs: an untrusted owner of the daemon's name is asked nothing.
use clippo.Prelude.{
  ℕ, ◌≡◌, ◌≢◌, refl, ◌∙◌, Bool, true, false, not, List, [], ◌∷◌, Option, none, some, Result, ok,
  err, any, if◌then◌else◌, arith,
}
use clippo.Prelude.Text.{Text}
use clippo.Ipc.Peer.{
  Peer, PeerError, Owner, absent, trusted, untrusted, NameOwner, from_paths, owner_of,
}
use clippo.Ipc.Peer.Trusted.{IsOwnedBy, owner_of-trusts}
use clippo.Applet.App.{BusEvent, daemon_up, toggled}
use clippo.Applet.Bus.{
  Woken, requested, history_changed, toggle_asked, owner_changed, Worker, is_up, tell, judged,
  owner_event, served, wake, loop, serve_request, start, daemon_owner,
}

module _ (text : PeerError → Text) where
  -- the name passes to an owner that is trusted
  abbrev trusts : Bool × Woken → Bool
  trusts (taken, owner_changed (some (ok peer))) = true
  trusts (taken, e) = false

  tell-calls :
      (taken : Bool) (event : BusEvent) (w : Worker)
      → ((tell taken event w).calls ≡ w.calls) × ((tell taken event w).is_trusted ≡ w.is_trusted)
  tell-calls true event w = (refl, refl)
  tell-calls false event w = (refl, refl)

  -- nothing is asked, and the owner stays untrusted
  abbrev IsSilent : Worker → Worker → Type 0
  IsSilent w w' = (w'.calls ≡ w.calls) × (w'.is_trusted ≡ false)

  unless_trusted :
      (b : Bool) (w other : Worker)
      → b ≡ false
      → w.is_trusted ≡ false
      → IsSilent w (if b then other else w)
  unless_trusted true w other e h = cc
  unless_trusted false w other e h = (refl, h)

  if_untrusted :
      (b : Bool) (w other : Worker)
      → b ≡ false
      → w.is_trusted ≡ false
      → IsSilent w (if not b then w else other)
  if_untrusted true w other e h = cc
  if_untrusted false w other e h = (refl, h)

  wake-IsSilent :
      (taken : Bool) (e : Woken) (w : Worker)
      → w.is_trusted ≡ false
      → trusts (taken, e) ≡ false
      → IsSilent w (wake text taken e w)
  wake-IsSilent taken (requested request answers) w h k =
      if_untrusted w.is_trusted w (served text taken (serve_request request answers) w) h h
  wake-IsSilent taken history_changed w h k =
      unless_trusted w.is_trusted w (tell taken daemon_up w) h h
  wake-IsSilent taken toggle_asked w h k = let (c, t) = tell-calls taken toggled w in (c, t ∙ h)
  wake-IsSilent taken (owner_changed none) w h k =
      tell-calls taken (owner_event text none) (record w { is_trusted = false })
  wake-IsSilent taken (owner_changed (some (ok peer))) w h k = cc
  wake-IsSilent taken (owner_changed (some (err why))) w h k =
      tell-calls taken (judged text (err why)) (record w { is_trusted = false })

  loop-silent :
      (es : List (Bool × Woken)) (w : Worker)
      → w.is_trusted ≡ false
      → any trusts es ≡ false
      → (loop text es w).calls ≡ w.calls
  unfolding loop
  loop-silent [] w h k = refl
  loop-silent (e ∷ es) w h k =
      let (c, t) = wake-IsSilent e.0 e.1 w h (ground arith) in
      go w.is_running (loop-silent es (wake text e.0 e.1 w) t (ground arith) ∙ c)
    where
      go :
          (b : Bool)
          → (loop text es (wake text e.0 e.1 w)).calls ≡ w.calls
          → (if b then loop text es (wake text e.0 e.1 w) else w).calls ≡ w.calls
      go true q = q
      go false q = refl

  not_up :
      (r : Result Owner Text)
      → ((peer : Peer) → r ≢ ok (trusted peer))
      → is_up (daemon_owner text r) ≡ false
  not_up (err e) h = refl
  not_up (ok absent) h = refl
  not_up (ok (untrusted why)) h = refl
  not_up (ok (trusted peer)) h = absurd (h peer refl)

  -- Where the owner of the daemon's name is not a process that runs one of the files that are allowed,
  -- outside a sandbox, and the name never passes to one that is, the applet's task makes no call to it
  -- at all, whatever it is asked for.
  pub loop-start :
      (exists : Text → Bool) (read_link : Text → Result Text Text)
      (canonicalize : Text → Option Text) (le : Text → Text → Bool) (paths : List Text)
      (bus : Option Text) (owner : NameOwner) (proxy : Option Text)
      (answer : Result (Option ℕ) Text) (es : List (Bool × Woken))
      → ((peer : Peer)
          → ¬ IsOwnedBy exists read_link peer canonicalize paths bus owner proxy answer)
      → any trusts es ≡ false
      → (loop text es (
          start text (
            owner_of exists read_link bus owner proxy answer
              (from_paths canonicalize le paths)))).calls
        ≡ []
  unfolding start
  loop-start exists read_link canonicalize le paths bus owner proxy answer es h k =
      let r = owner_of exists read_link bus owner proxy answer (from_paths canonicalize le paths) in
      loop-silent es (start text r)
        (not_up r (λ peer e. h peer (
          (owner_of-trusts exists read_link canonicalize le paths bus owner proxy answer peer).0
            e)))
        k
