-- ===== src/Lib.antt =====
-- certhold: an SSH certificate authority for a small fleet. One manager signs certificates for peers,
-- keeps the fleet in a SQLite database, serves enrollments over HTTP, and pushes files over SSH.
--
-- The parts, and the files that model them (paths of the program from the repository's root):
--
-- - internal/db, the database: Db.antt has the tables as lists of rows. Db/Peers.antt (peers.go),
--   Db/Groups.antt (groups.go), Db/Tokens.antt (tokens.go and the token operations of tx.go),
--   Db/Meta.antt (meta.go), Db/Ca.antt (ca.go) and Db/Hosts.antt (peers_hosts.go) have one function for
--   each operation. `X` of the program is `x` in snake case here: `ConsumeToken` is `consume_token`.
-- - internal/peerfiles, the text put on a peer: Peerfiles/Lines.antt and Peerfiles/AuthorizedKeys.antt
--   (authorized.go, clear.go), Peerfiles/Principals.antt (`dedupPrincipals`, and `CertPrincipals` of
--   internal/ops/selfguard.go), Peerfiles/Address.antt (address.go), Peerfiles/Layout.antt (layout.go,
--   homeof.go, usertar.go, refreshbundle.go).
-- - internal/ops, the operations that the CLI and the TUI call: Ops.antt has their state, which is the
--   database, the state of what is outside, and the events. Ops/Outside.antt lists the calls outside: the
--   CA, the host name, random keys and the connection to a peer. Ops/SelfName.antt (selfguard.go,
--   instancekey.go), Ops/Push.antt (helpers.go, reachability.go), Ops/Edit.antt (peeredit.go, remove.go),
--   Ops/Update.antt (update.go), Ops/Revoke.antt (revoke.go), Ops/Groups.antt (group.go),
--   Ops/Enroll.antt (enroll.go), Ops/Unlocker.antt (sessionunlocker.go), Ops/Rekey.antt (rekey.go:
--   the trust line; the rotation is in its modules Rotate and Run).
-- - internal/sshpush: Sshpush.antt has `Dial` with the decision on the key of a host, and known_hosts
--   (client.go, knownhosts.go).
-- - internal/httpserver: Http.antt has requests and responses, Http/Enroll.antt the enrollment handlers
--   of server.go, Http/Pull.antt pull.go and health.go, Http/Quote.antt `shellQuote`.
-- - internal/tui, the terminal interface: Tui.antt has the rows that it shows (data.go), Tui/State.antt its
--   state (model.go), Tui/Modal.antt and Tui/Form.antt the overlays and their keys (modal.go,
--   rekey_flow.go, enroll_form.go, progress.go), Tui/Start.antt the keys that open one (action.go,
--   groups_actions.go, select.go), Tui/Submit.antt what a submitted one starts, Tui/Browse.antt and
--   Tui/Update.antt the keys, Tui/Messages.antt the other messages, Tui/Loop.antt `Update`. Tui/Rows.antt
--   has the functions on rows (groups_actions.go, manager_group.go), Tui/Filter.antt the filter,
--   Tui/Batch.antt the worker of a batch (select.go), Tui/Session.antt the goroutines that ask for a host
--   key (`passSession` of action.go) as steps in any order. A key is the name that `msg.String()` gives, a
--   reply channel a number.
--
-- How they interact: an operation of ops mints a token into the database; the HTTP handler redeems it,
-- which commits what the token staged; the pull handlers serve the peer's certificate and the hosts that
-- it may reach; the other operations of ops change the database and push the change to the peers.
--
-- The shared modules: Errors.antt (one constructor for each error that a caller tells apart), Exec.antt
-- (code that reads and writes a state and may fail; a failed step keeps what it wrote, and `in_tx` rolls
-- back), Exec/Steps.antt and Exec/Keeps.antt (how sequences go on, and invariants of code), Base.antt
-- (texts as lists of code points, tests, lists, trimming, splitting, sorting).
--
-- Conventions. A text is a valid UTF-8 string. An error that is wrapped is the error itself. A statement
-- of SQL takes effect whole or is refused by a constraint of the schema; failures of the disk and of the
-- driver are not modelled, nor are cancelled contexts. Loops are by structural recursion, but for the
-- search for the name of an archived CA, whose fuel is the number of rounds: it ends when there is more
-- fuel than there are names in use. The fleet revision is a number, exact below 2^63. The messages of
-- events are not modelled. The text inputs of the interface, and `strings.ToLower`, are parameters,
-- and so is the package knownhosts, of which Sshpush/Learn.antt supposes that it reads line by line.
-- `ssh.ParseAuthorizedKey` is a parameter of the modules on authorized_keys, and `Rekey` one of those on
-- revocation; the packing of archives by tar and gzip is a parameter of the minting.
--
-- Not modelled: the migrations of the schema, the commands that internal/sshpush runs on a live
-- connection, the key files of internal/ca, the text of the install script, the drawing of the TUI and
-- its other goroutines, and the CLI, which asks, prints and calls the operations.
pub mod Base
pub mod Errors
pub mod Exec
pub mod Db
pub mod Peerfiles
pub mod Ops
pub mod Sshpush
pub mod Http
pub mod Tui
pub mod Tests
