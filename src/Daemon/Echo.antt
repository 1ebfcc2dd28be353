-- ===== src/Daemon/Echo.antt =====
-- crates/clippod/src/echo.rs: the guard against recording clippo's own copy-back.
use clippo.Prelude.{Bool, false, Option, none, some, is_some}
use clippo.Prelude.Text.{Text, text_eq}

-- `EchoGuard`: the hash it is armed for
abbrev pub EchoGuard : Type 0
EchoGuard = Option Text

abbrev arm : Text → EchoGuard → EchoGuard
arm hash guard = some hash

-- `is_echo`: the answer, and the guard after it, which is disarmed either way
unfoldable pub is_echo : Text → EchoGuard → Bool × EchoGuard
is_echo hash none = (false, none)
is_echo hash (some armed) = (text_eq armed hash, none)

-- `clear`: whether it was armed, and the guard after it
abbrev pub clear : EchoGuard → Bool × EchoGuard
clear guard = (is_some guard, none)
