-- ===== src/Lib.antt =====
-- Verification library of the LVGL platform for Youdao dictionary pens.
--
-- The platform runs small LVGL applications on the pens. A privileged session daemon
-- (platform/src/session) starts them and owns the installed releases; an installer
-- (platform/src/package) checks a package, asks the install policy (platform/src/package/
-- rollback_policy.cpp) and moves the release state of the application forward
-- (platform/src/storage/release_state.cpp), which is written to one of two slots with a checksum.
-- When a new release fails, the daemon rolls the release state back and the release is quarantined.
-- The launcher forwards touches to the running application in frames of 56 bytes
-- (platform/src/ipc/touch_protocol.cpp), which guards check for replay, age and contact order.
-- The applications (apps/) keep their own state; apps/game-2048 saves its game and loads it again.
--
-- Files and the code they model, paths from the root of the repository:
--   Prelude, Prelude/: lists, bit operations and C++ integers over the native numbers.
--   Wire, Wire/Laws: the little-endian reads and writes that the formats share (append_u16 to
--     append_u64 and read_u16 to read_u64 of release_state.cpp, put_le and get_le of
--     touch_protocol.cpp).
--   Package, Package/: platform/src/package/package_verifier.cpp, whose result the two parts below
--     read. `verify_package` goes through the stages of Package/Verifier/: the header, the file
--     table, the signature; Package/Json has the document of the parser and the canonical text,
--     Package/Manifest the manifest, Package/Text the tests of paths and names.
--   Policy, Policy/: platform/src/package/rollback_policy.cpp. `evaluate_install_policy` decides
--     on a package; `advance_high_water_mark` is the mark after an installation. Policy/Version
--     has the version numbers, Policy/Admission the specification that the decision refines,
--     Policy/Mark what a sequence of marks guarantees.
--   Release, Release/: platform/src/storage/release_state.cpp. `activation_state_for`,
--     `rollback_release` and `rollback_failed_release` are the transitions, `valid_state` the
--     well-formedness test, Release/Codec the format and the choice between the slots
--     (`select_release_state`), Release/History the sequences of transitions.
--   Store, Store/: platform/src/storage/state_store.cpp, `persist_release_state` and
--     `load_release_state` on the directory of an application, and what a failing call leaves.
--   Installer, Installer/: platform/src/package/package_installer.cpp and
--     platform/src/trust/trust_store.cpp (Installer/Trust), which compose the parts above;
--     the requests of platform/src/ipc/installer_protocol.cpp (Installer/Protocol).
--   Broker, Broker/: platform/src/session/session_daemon.cpp, `scan_storage` to
--     `handle_storage_request`: the daemon reads and writes the records of an application for it.
--     The offset of the directory's descriptor is a part of the state (`OpenDirectory`), since
--     `scan_storage` lists duplicates of one descriptor, which share it. Broker/Kept and
--     Broker/Later have what follows for the requests behind the first listing.
--   Session, Session/: the rest of platform/src/session. Session/Control, Session/Status and
--     Session/Router are session_control.cpp, session_status.cpp and touch_router.cpp, and
--     session_daemon.cpp is in three parts: Session/Foreground has `run_foreground`, one pass of
--     its loop (`run_pass`) and its course (Session/Foreground/Loop); Session/Supervisor the loop
--     of `main` around it (`take_turn`, `run_turns`), with the abstract machine that it
--     implements in Session/Supervisor/Moves; Session/Lifecycle the verification of an
--     installed release (`verify_application_release`) and the two rollbacks.
--   Storage, Storage/: platform/src/ipc/storage_protocol.cpp, the packets for the records of an
--     application and their quota (Storage/Records); Storage/Layout has the places of the fields.
--   Touch, Touch/: platform/src/ipc/touch_protocol.cpp. The codec, `touch_timestamp_fresh`, and
--     the guards `TouchSequenceGuard::accept` (`accept_sequence`) and `TouchContactGuard::accept`
--     (`accept_contact`).
--   Game, Game/: apps/game-2048/game_2048_model.cpp. The class is the record `Game`, and each
--     method a function that returns the object anew; Game/Save has the saved state.
--     Game/Invariant and Game/History have the games that the screen of the application can
--     reach, Game/Slide the specification of a move on a line, Game/Spawn the new tile,
--     Game/Random the generator. Game/Persistence is apps/game-2048/game_2048_persistence.cpp, the
--     record that a game is saved to, with its check sum.
--   Timer, Timer/: apps/focus_timer/focus_timer_model.cpp. The class is the record
--     `FocusTimerModel`, a time point the count of nanoseconds of the steady clock.
--   Tests, Tests/: runs at concrete inputs and instances of the theorems.
--
-- Conventions. Numbers are the native ones; a C++ integer keeps its wrap-around as `% 2 ^ w`, and
-- a theorem that relies on the width of a field has it as a hypothesis. A signed field is of the
-- type of Prelude/Int. Digests, buffers and texts are lists of byte values; a C++ array is a list
-- whose length is a hypothesis where it matters. A result by status code is a record with the
-- status, or a sum type; `std::optional` and a Boolean with an output are `Option`. Every loop is
-- structural recursion over the list that it reads or a fixed count, so that every definition is
-- total; only the digits of a number (Package/Json) are made on fuel, 20 digits for numbers below
-- 2^53.
--
-- Parameters. SHA-256, SHA-512 and the check of an Ed25519 signature are code of OpenSSL, which the
-- platform loads at run time: functions from bytes to an optional digest, and a test. A theorem
-- assumes no more of them than that a SHA-256 digest has 32 bytes; nothing is assumed about
-- collisions or forgeries. The JSON parser is rapidjson: a function from bytes to an optional
-- document, of which nothing is assumed. The text of the official key is written by the build. How
-- the system calls of the state store and of the session daemon end, what a poll reports, what the
-- clock shows, and what staging the files of a release gives, are inputs: a loop of the daemon is
-- a function of the list of its rounds, and gives no result if the list ends before the loop does.
-- A listing of an application's storage is taken to come in one call of the system, and nothing to
-- be listed behind the end of the directory.
--
-- Not modelled. Sockets, processes, files and the display (safe paths, back ends, and of the
-- session daemon the start of `main`, the set-up of a program, the list of the installed
-- applications and their removal); the JSON parser, LVGL and OpenSSL, which are other
-- projects; widget code; and the remaining protocols and stores (responses of the installer,
-- registries, profiles).
pub mod Prelude
pub mod Wire
pub mod Package
pub mod Policy
pub mod Release
pub mod Touch
pub mod Game
pub mod Storage
pub mod Store
pub mod Broker
pub mod Session
pub mod Installer
pub mod Timer
pub mod Tests
