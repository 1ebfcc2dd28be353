-- ===== src/Ipc/Peer.antt =====
-- crates/clippo-ipc/src/peer.rs: whether the process behind a name of the bus is one of clippo's.
pub mod Trusted
use mathlib.Core.Option
use clippo.Prelude.{
  ℕ, Bool, true, false, List, [], ◌∷◌, ◌++◌, map, Option, none, some, Result, ok, err, ◌>>=◌,
  if◌then◌else◌, any, find?, filter, not, ◌==◌, ◌&&◌, ◌||◌,
}
use clippo.Prelude.Text.{Text, codes, text_eq, is_empty, decimal}
use clippo.Core.Display.{one_line}
use clippo.Core.Host.{Host}

abbrev clippo_binaries : List Text
clippo_binaries = codes "clippod" ∷ codes "clippo" ∷ codes "clippo-applet" ∷ []

abbrev system_bin_dirs : List Text
system_bin_dirs = codes "/usr/bin" ∷ codes "/usr/local/bin" ∷ []

pub record Peer : Type 0 where
  pub unique_name : Text
  pub pid : ℕ
  pub exe : Text

-- the errors of the bus and of the file system are their messages
pub data PeerError : Type 0 where
  no_sender : PeerError
  credentials : Text → Text → PeerError
  no_pid : Text → PeerError
  no_exe : Text → ℕ → Text → PeerError
  sandboxed : Text → ℕ → PeerError
  not_allowlisted : Text → ℕ → Text → PeerError

abbrev pid_of : PeerError → Option ℕ
pid_of no_sender = none
pid_of (credentials name source) = none
pid_of (no_pid name) = none
pid_of (no_exe name pid source) = some pid
pid_of (sandboxed name pid) = some pid
pid_of (not_allowlisted name pid exe) = some pid

unfoldable exe_for_display : PeerError → Option Text
exe_for_display (not_allowlisted name pid exe) = some (one_line exe 200)
exe_for_display _ = none

-- `==` of the standard library on paths, which compares their components
abbrev push_char : ℕ → List Text → List Text
push_char c [] = (c ∷ []) ∷ []
push_char c (part ∷ parts) = (c ∷ part) ∷ parts

abbrev split_slashes : Text → List Text
split_slashes [] = [] ∷ []
split_slashes (c ∷ path) =
    let parts = split_slashes path in if c == b'/' then [] ∷ parts else push_char c parts

-- repeated slashes, a last one and inner dots are no components
abbrev is_component : Text → Bool
is_component part = not (is_empty part || text_eq part (codes "."))

-- a slash that the path begins with is one, and so is a dot
abbrev components_of : List Text → List Text
components_of [] = []
components_of ([] ∷ []) = []
components_of ([] ∷ part ∷ parts) = codes "/" ∷ filter is_component (part ∷ parts)
components_of ((c ∷ part) ∷ parts) = (c ∷ part) ∷ filter is_component parts

abbrev pub components : Text → List Text
components path = components_of (split_slashes path)

unfoldable pub same_parts : List Text → List Text → Bool
same_parts [] [] = true
same_parts (p ∷ ps) (q ∷ qs) = text_eq p q && same_parts ps qs
same_parts _ _ = false

abbrev pub same_path : Text → Text → Bool
same_path a b = same_parts (components a) (components b)

-- `PeerPolicy`: the paths that are allowed
unfoldable pub allows : List Text → Text → Bool
allows policy exe = any (λ allowed. same_path allowed exe) policy

-- `Vec::sort` and `Vec::dedup`; `le` is the order of paths
module _ (le : Text → Text → Bool) where
  abbrev pub insert : Text → List Text → List Text
  insert path [] = path ∷ []
  insert path (p ∷ ps) = if le path p then path ∷ p ∷ ps else p ∷ insert path ps

  abbrev pub sort : List Text → List Text
  sort [] = []
  sort (p ∷ ps) = insert p (sort ps)

abbrev pub dedup : List Text → List Text
dedup [] = []
dedup (p ∷ []) = p ∷ []
dedup (p ∷ q ∷ ps) = if same_path p q then dedup (q ∷ ps) else p ∷ dedup (q ∷ ps)

abbrev pub or_itself : Text → Option Text → Text
or_itself path none = path
or_itself path (some canonical) = canonical

-- `canonicalize`, as the file system answers it
module _ (canonicalize : Text → Option Text) (le : Text → Text → Bool) where
  unfoldable pub from_paths : List Text → List Text
  from_paths paths = dedup (sort le (map (λ path. or_itself path (canonicalize path)) paths))

  abbrev join : Text → Text → Text
  join dir name = dir ++ (codes "/" ++ name)

  abbrev in_dir : Text → List Text
  in_dir dir = map (join dir) clippo_binaries

  abbrev in_dirs : List Text → List Text
  in_dirs [] = []
  in_dirs (dir ∷ dirs) = in_dir dir ++ in_dirs dirs

  abbrev listed : Option Text → List Text
  listed none = []
  listed (some dir) = dir ∷ []

  -- by the directory of the running binary and by `HOME`, where there are such
  unfoldable installed : Option Text → Option Text → List Text
  installed own_dir home = from_paths (
      in_dirs (
        listed own_dir
        ++ (listed (Option.map (λ (h : Text). join h (codes ".local/bin")) home)
            ++ system_bin_dirs)))

pub data Owner : Type 0 where
  absent : Owner
  trusted : Peer → Owner
  untrusted : PeerError → Owner

abbrev pub judged : Result Peer PeerError → Owner
judged (ok peer) = trusted peer
judged (err error) = untrusted error

-- what `get_name_owner` answers
pub data NameOwner : Type 0 where
  owned_by : Text → NameOwner
  no_owner : NameOwner
  failed : Text → NameOwner

-- what `/proc` answers: whether a path is there, and what a link points to
module _ (exists : Text → Bool) (read_link : Text → Result Text Text) where
  unfoldable pub is_sandboxed : ℕ → Bool
  is_sandboxed pid = exists (codes "/proc/" ++ (decimal pid ++ codes "/root/.flatpak-info"))

  abbrev pub exe_of : ℕ → Result Text Text
  exe_of pid = read_link (codes "/proc/" ++ (decimal pid ++ codes "/exe"))

  abbrev pub judge_exe : Text → ℕ → List Text → Result Text Text → Result Peer PeerError
  judge_exe name pid policy (err source) = err (no_exe name pid source)
  judge_exe name pid policy (ok exe) =
      if allows policy exe
      then ok (record { unique_name = name; pid = pid; exe = exe })
      else err (not_allowlisted name pid exe)

  abbrev judge_with : (ℕ → Bool) → Text → Option ℕ → List Text → Result Peer PeerError
  judge_with is_boxed name none policy = err (no_pid name)
  judge_with is_boxed name (some pid) policy =
      if is_boxed pid then err (sandboxed name pid) else judge_exe name pid policy (exe_of pid)

  unfoldable pub judge : Text → Option ℕ → List Text → Result Peer PeerError
  judge name pid policy = judge_with is_sandboxed name pid policy

  -- by what the bus answers: the error of the proxy, and the credentials or their error
  abbrev check_with :
      Text → Option Text → Result (Option ℕ) Text → List Text → Result Peer PeerError
  check_with name (some source) answer policy = err (credentials name source)
  check_with name none (err source) policy = err (credentials name source)
  check_with name none (ok pid) policy = judge name pid policy

  unfoldable pub check :
      Text → Option Text → Result (Option ℕ) Text → List Text → Result Peer PeerError
  check name proxy answer policy = check_with name proxy answer policy

  abbrev owner_with :
      Option Text → NameOwner → Option Text → Result (Option ℕ) Text → List Text → Result Owner Text
  owner_with (some e) owner proxy answer policy = err e
  owner_with none no_owner proxy answer policy = ok absent
  owner_with none (failed e) proxy answer policy = err e
  owner_with none (owned_by name) proxy answer policy = ok (judged (check name proxy answer policy))

  -- by the error of its proxy, the owner of the name, and what `check` asks of the bus
  unfoldable pub owner_of :
      Option Text → NameOwner → Option Text → Result (Option ℕ) Text → List Text → Result Owner Text
  owner_of bus owner proxy answer policy = owner_with bus owner proxy answer policy
