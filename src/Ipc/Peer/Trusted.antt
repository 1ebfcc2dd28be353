-- ===== src/Ipc/Peer/Trusted.antt =====
-- peer.rs: who is trusted.
use clippo.Prelude.{
  ℕ, ◌≡◌, refl, sym, ap, ◌∙◌, Bool, true, false, ◌||◌, List, [], ◌∷◌, map, Option, none, some,
  Result, ok, err, any, arith, Bool-cases, inl, inr, ◌↔◌, if◌then◌else◌, subst,
}
use clippo.Prelude.Text.{Text, eq_of_text_eq}
use clippo.Ipc.Peer.{
  Peer, PeerError, sandboxed, not_allowlisted, allows, insert, sort, dedup, same_path, same_parts,
  components, or_itself, from_paths, is_sandboxed, exe_of, judge_exe, judge, check, trusted, judged,
  NameOwner, owned_by, no_owner, failed, owner_of,
}

same_parts_eq : (a b : List Text) → same_parts a b ≡ true → a ≡ b
unfolding same_parts
same_parts_eq [] [] h = refl
same_parts_eq [] (q ∷ qs) h = cc
same_parts_eq (p ∷ ps) [] h = cc
same_parts_eq (p ∷ ps) (q ∷ qs) h =
    let first = eq_of_text_eq p q (ground arith) in
    let rest = same_parts_eq ps qs (ground arith) in
    ap (λ (t : Text). t ∷ ps) first ∙ ap (λ (ts : List Text). q ∷ ts) rest

allows-insert :
    (le : Text → Text → Bool) (path : Text) (ps : List Text) (exe : Text)
    → allows (insert le path ps) exe ≡ (same_path path exe || allows ps exe)
unfolding allows
allows-insert le path [] exe = refl
allows-insert le path (p ∷ ps) exe = elim (Bool-cases (le path p)) [
  | inl e ↦ rw e refl
  | inr e ↦ rw e (ground (arith, allows-insert le path ps exe))
]

allows-sort :
    (le : Text → Text → Bool) (ps : List Text) (exe : Text)
    → allows (sort le ps) exe ≡ allows ps exe
unfolding allows
allows-sort le [] exe = refl
allows-sort le (p ∷ ps) exe =
    ground (arith, allows-insert le p (sort le ps) exe, allows-sort le ps exe)

absorb : (a b : Bool) → (a || b) ≡ (a || (a || b))
absorb a b = ground arith

-- the program behind a process is one of these files, as the file system resolves them
abbrev is_one_of : (Text → Option Text) → List Text → Text → Bool
is_one_of canonicalize paths exe =
    any (λ path. same_path (or_itself path (canonicalize path)) exe) paths

allows-map :
    (canonicalize : Text → Option Text) (paths : List Text) (exe : Text)
    → allows (map (λ path. or_itself path (canonicalize path)) paths) exe
      ≡ is_one_of canonicalize paths exe
unfolding allows
allows-map canonicalize [] exe = refl
allows-map canonicalize (p ∷ ps) exe =
    ap (λ (b : Bool). same_path (or_itself p (canonicalize p)) exe || b)
      (allows-map canonicalize ps exe)

allows-dedup : (ps : List Text) (exe : Text) → allows (dedup ps) exe ≡ allows ps exe
unfolding allows
allows-dedup [] exe = refl
allows-dedup (p ∷ []) exe = refl
allows-dedup (p ∷ q ∷ ps) exe = elim (Bool-cases (same_path p q)) [
  | inl e ↦ rw e (
      allows-dedup (q ∷ ps) exe
      ∙ absorb (same_path q exe) (any (λ r. same_path r exe) ps)
      ∙ ap (λ (t : List Text). same_parts t (components exe) || allows (q ∷ ps) exe)
          (sym (same_parts_eq (components p) (components q) e)))
  | inr e ↦ rw e (ground (arith, allows-dedup (q ∷ ps) exe))
]

allows-from_paths :
    (canonicalize : Text → Option Text) (le : Text → Text → Bool) (paths : List Text) (exe : Text)
    → allows (from_paths canonicalize le paths) exe ≡ is_one_of canonicalize paths exe
unfolding from_paths
allows-from_paths canonicalize le paths exe =
    let resolved = map (λ (path : Text). or_itself path (canonicalize path)) paths in
    allows-dedup (sort le resolved) exe
    ∙ allows-sort le resolved exe
    ∙ allows-map canonicalize paths exe

module _ (exists : Text → Bool) (read_link : Text → Result Text Text) where
  -- what makes a process trusted
  abbrev IsTrusted : Text → Option ℕ → List Text → Peer → Type 0
  IsTrusted name pid policy peer =
      (pid ≡ some peer.pid)
      × (peer.unique_name ≡ name)
      × (is_sandboxed exists read_link peer.pid ≡ false)
      × (exe_of exists read_link peer.pid ≡ ok peer.exe)
      × (allows policy peer.exe ≡ true)

  by_exe :
      (name : Text) (pid : ℕ) (policy : List Text) (peer : Peer) (r : Result Text Text)
      → is_sandboxed exists read_link pid ≡ false
      → exe_of exists read_link pid ≡ r
      → judge_exe exists read_link name pid policy r ≡ ok peer
      → IsTrusted name (some pid) policy peer
  by_exe name pid policy peer (err source) free at h = cc
  by_exe name pid policy peer (ok exe) free at h = by_policy (allows policy exe) refl h
    where
      found : Peer
      found = record { unique_name = name; pid = pid; exe = exe }

      by_policy :
          (b : Bool)
          → allows policy exe ≡ b
          → (if b then ok found else err (not_allowlisted name pid exe)) ≡ ok peer
          → IsTrusted name (some pid) policy peer
      by_policy true a q =
          let same : found ≡ peer = cc in
          subst (λ (p : Peer). IsTrusted name (some pid) policy p) same (refl, refl, free, at, a)
      by_policy false a q = cc

  judge-IsTrusted :
      (name : Text) (pid : Option ℕ) (policy : List Text) (peer : Peer)
      → judge exists read_link name pid policy ≡ ok peer
      → IsTrusted name pid policy peer
  unfolding judge
  judge-IsTrusted name none policy peer h = cc
  judge-IsTrusted name (some pid) policy peer h =
      by_sandbox (is_sandboxed exists read_link pid) refl h
    where
      by_sandbox :
          (b : Bool)
          → is_sandboxed exists read_link pid ≡ b
          → (if b
              then err (sandboxed name pid)
              else judge_exe exists read_link name pid policy (exe_of exists read_link pid))
            ≡ ok peer
          → IsTrusted name (some pid) policy peer
      by_sandbox true boxed q = cc
      by_sandbox false free q =
          by_exe name pid policy peer (exe_of exists read_link pid) free refl q

  trusted-judge :
      (name : Text) (pid : Option ℕ) (policy : List Text) (peer : Peer)
      → IsTrusted name pid policy peer
      → judge exists read_link name pid policy ≡ ok peer
  unfolding judge
  trusted-judge name pid policy peer (p, n, s, x, a) =
      subst (λ (o : Option ℕ). judge exists read_link name o policy ≡ ok peer) (sym p)
        (rw (s, x, a)
          (ap (λ (u : Text). ok (record { unique_name = u; pid = peer.pid; exe = peer.exe }))
            (sym n)))

  -- the bus says who owns the name and which process that is, which is in no sandbox and runs one of
  -- the files that are allowed
  abbrev pub IsOwnedBy :
      Peer
      → (Text → Option Text)
      → List Text
      → Option Text
      → NameOwner
      → Option Text
      → Result (Option ℕ) Text
      → Type 0
  IsOwnedBy peer canonicalize paths bus owner proxy answer =
      (bus ≡ none)
      × (owner ≡ owned_by peer.unique_name)
      × (proxy ≡ none)
      × (answer ≡ ok (some peer.pid))
      × (is_sandboxed exists read_link peer.pid ≡ false)
      × (exe_of exists read_link peer.pid ≡ ok peer.exe)
      × (is_one_of canonicalize paths peer.exe ≡ true)

  judged-trusted : (r : Result Peer PeerError) (peer : Peer) → judged r ≡ trusted peer → r ≡ ok peer
  judged-trusted (ok p) peer h = cc
  judged-trusted (err e) peer h = cc

  owner_of-IsOwnedBy :
      (canonicalize : Text → Option Text) (le : Text → Text → Bool) (paths : List Text)
      (bus : Option Text) (owner : NameOwner) (proxy : Option Text)
      (answer : Result (Option ℕ) Text) (peer : Peer)
      → owner_of exists read_link bus owner proxy answer (from_paths canonicalize le paths)
        ≡ ok (trusted peer)
      → IsOwnedBy peer canonicalize paths bus owner proxy answer
  unfolding owner_of check
  owner_of-IsOwnedBy canonicalize le paths (some e) owner proxy answer peer h = cc
  owner_of-IsOwnedBy canonicalize le paths none no_owner proxy answer peer h = cc
  owner_of-IsOwnedBy canonicalize le paths none (failed e) proxy answer peer h = cc
  owner_of-IsOwnedBy canonicalize le paths none (owned_by name) (some e) answer peer h = cc
  owner_of-IsOwnedBy canonicalize le paths none (owned_by name) none (err e) peer h = cc
  owner_of-IsOwnedBy canonicalize le paths none (owned_by name) none (ok pid) peer h =
      let policy = from_paths canonicalize le paths in
      let r : judged (judge exists read_link name pid policy) ≡ trusted peer = cc in
      let (p, n, s, x, a) =
        judge-IsTrusted name pid policy peer
          (judged-trusted (judge exists read_link name pid policy) peer r) in
      (
        refl,
        ap owned_by (sym n),
        refl,
        ap (λ (o : Option ℕ). ok o) p,
        s,
        x,
        sym (allows-from_paths canonicalize le paths peer.exe) ∙ a,
      )

  IsOwnedBy-owner_of :
      (canonicalize : Text → Option Text) (le : Text → Text → Bool) (paths : List Text)
      (bus : Option Text) (owner : NameOwner) (proxy : Option Text)
      (answer : Result (Option ℕ) Text) (peer : Peer)
      → IsOwnedBy peer canonicalize paths bus owner proxy answer
      → owner_of exists read_link bus owner proxy answer (from_paths canonicalize le paths)
        ≡ ok (trusted peer)
  unfolding owner_of check
  IsOwnedBy-owner_of canonicalize le paths bus owner proxy answer peer (b, o, p, w, s, x, a) =
      let policy = from_paths canonicalize le paths in
      rw (b, o, p, w)
        (ap (λ (r : Result Peer PeerError). ok (judged r))
          (trusted-judge peer.unique_name (some peer.pid) policy peer
            (refl, refl, s, x, allows-from_paths canonicalize le paths peer.exe ∙ a)))

  -- The owner of a name of the bus is trusted exactly if the bus says who owns it and which process that
  -- is, that process is in no sandbox, and the program it runs is one of the files that are allowed, as
  -- the file system resolves them; where any of this cannot be found out, it is not trusted.
  pub owner_of-trusts :
      (canonicalize : Text → Option Text) (le : Text → Text → Bool) (paths : List Text)
      (bus : Option Text) (owner : NameOwner) (proxy : Option Text)
      (answer : Result (Option ℕ) Text) (peer : Peer)
      → (owner_of exists read_link bus owner proxy answer (from_paths canonicalize le paths)
          ≡ ok (trusted peer))
        ↔ IsOwnedBy peer canonicalize paths bus owner proxy answer
  owner_of-trusts canonicalize le paths bus owner proxy answer peer = (
    owner_of-IsOwnedBy canonicalize le paths bus owner proxy answer peer,
    IsOwnedBy-owner_of canonicalize le paths bus owner proxy answer peer,
  )
