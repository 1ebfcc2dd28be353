-- ===== src/Lib.antt =====
-- Verification of clippo, a clipboard history for the COSMIC desktop.
--
-- A Wayland client (crates/clippo-wayland) reads each copy and hands it to the daemon (crates/clippod),
-- which decides whether it is a secret (crates/clippo-core), stores it (crates/clippo-store) and keeps a
-- cache of previews that a command line client (crates/clippo-cli) and an applet (crates/clippo-applet)
-- list, search and paste from.
--
-- The files and the code they follow:
--   Prelude      Boolean tests and lists on the native numbers, i64 arithmetic, text as code points
--   Core         crates/clippo-core/src: Display (display.rs), Paths (paths.rs), Entry (entry.rs),
--                Chord (chord.rs), Config (config.rs), Secrets (secrets.rs and secrets/);
--                Host holds what other crates and the Unicode tables provide
--   Store        crates/clippo-store/src: Images (images.rs), Dedup (dedup.rs), Tables and Sql (schema.rs
--                and the SQL of store.rs), Retention (retention.rs), Capture and History (store.rs),
--                Key (key.rs), Opening (store.rs and schema.rs)
--   Wayland      crates/clippo-wayland/src: Mime (mime.rs), Selection (lib.rs), Pending (flavor.rs), Offer
--                (offer.rs), Advertised and Watch (watch.rs), Keys (keys.rs)
--   Ipc          crates/clippo-ipc/src: Peer (peer.rs)
--   Daemon       crates/clippod/src: Echo (echo.rs), Cache (cache.rs), Preview (preview.rs), State
--                (daemon.rs)
--   Cli          crates/clippo-cli/src: Ids (ids.rs), Render (render.rs), Run (run.rs)
--   Applet       crates/clippo-applet/src: Model (model.rs), Thumbnails (thumbs.rs), App (app.rs and
--                surface.rs), Bus (bus.rs)
--   Tests        the theorems at concrete inputs
--
-- A definition has the name of the function or type it follows. The store is a record of two lists of
-- rows; an operation is an action `Db → Db × Result A StoreError`, and a statement fails where the
-- `fault` of a back end says so, so a theorem that has no hypothesis on `fault` holds whatever fails. A
-- transaction whose body fails gives the tables before it. The daemon is a record of the tables, the
-- cache, the echo guard, the pause and the number of announcements; each of its operations holds one
-- lock, so it is one step. The watcher is a record of its offers, the selection it reads and the pastes
-- it answers, with a log of what it asks of the compositor and of its event loop, and the sources of
-- reads that the loop has, on which calls of the loop and answers of callbacks act as the calloop crate
-- says; a step is one event of the compositor, one callback or one command, and takes as arguments what
-- the system answers to the calls that it makes. The applet is a record of its model, its picker and the requests it sent, and a
-- step is one message; its link to the daemon is a loop over what wakes it, with a log of the calls made.
-- Numbers are native; `i64` values are integers with their range stated, sums of `usize` that saturate
-- are cut at 2 ^ 64 - 1.
--
-- Loops are recursion on a list. Four run on fuel: the digits of a code point in hexadecimal (eight
-- rounds, and a u32 has at most eight digits), the digits of a 64-bit number (twenty rounds), the loop
-- of `one_line` that shortens its text (as many rounds as there are characters), and the loop that makes
-- room for a paste (as many rounds as the queue is long). The loops of `pump` and `read_flavor` run over the replies that its writes and reads get.
--
-- Parameters stand for other crates: SQLite's row ids and failures, the answers of the file system,
-- of the bus and of the Secret Service, image decoding, BLAKE3, grapheme
-- clusters, regular expressions, floating point, the TOML syntax and the fuzzy matcher. Not modelled:
-- giving freed pages back, the Wayland protocols, the calls of D-Bus, logging, argument
-- parsing, scrolling and drawing.
pub mod Prelude
pub mod Core
pub mod Store
pub mod Wayland
pub mod Ipc
pub mod Daemon
pub mod Cli
pub mod Applet
pub mod Tests
