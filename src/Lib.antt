-- ===== src/Lib.antt =====
-- gowui, a Go board in the browser: the game model, its text formats, the sessions, the client of a GTP
-- engine, and the doors and accounts of the server.
--
-- The parts and their files:
-- - Base: shared names and helpers; Python's `str` as lists of code points, dictionaries as association
--   lists, exceptions as the error case of a result.
-- - Rules (gowui/rules.py): the rule sets; `get_rules`. Komi is counted in half points.
-- - Coords (gowui/coords.py): GTP vertices, SGF points, handicap points. A `Point` has signed
--   coordinates, since the readers subtract before they check the bounds.
-- - Board (gowui/board.py): `Board.play` and the walk of `_chain`. The stones are a list, row by row from
--   the top left. The walk runs on fuel, one round for each point of the board and one more, which
--   Board/Chain shows to be enough.
-- - Game (gowui/game.py): `Game` with its line of play, cursor, snapshots and the indexes `_first_seen`
--   and `_first_seen_to_play`. `play_move` is `Game.play`, `attempt` is `_attempt`, `truncate` is
--   `_truncate`. Every method returns the new game. Game/Reach has the methods as steps.
-- - View (gowui/game.py): `legal_moves`, `move_numbers` and `to_dict`.
-- - Sgf (gowui/sgf.py): `parse` and `dump`. The reader's position is the rest of the text. Its loops run
--   on fuel, the length of the rest of the text and one or two more, which Sgf/Fuel and Sgf/Bounds show
--   to be enough.
-- - Archive (gowui/game.py): `to_sgf` (`write_sgf`), `from_sgf` (`read_sgf`) and their helpers, on Game and
--   Sgf. What `float` and `repr` make of a number is a parameter. A `Float` has no negative zero.
-- - Spaces (gowui/spaces.py): `TabQueue.put`, the acknowledgement window of `Tab` with the steps of
--   `_drain`, and `Hub`. A frame is its type and its JSON text. A tab stands under a number in place of the
--   object's identity; the time is an argument.
-- - Saves (gowui/spaces.py): `_save_now` of a space and its release when idle, with what the storage holds.
--   Whether a write succeeds is an argument; a write that fails leaves the storage as it is.
-- - Store (gowui/store.py): the database as a value, a statement as a function on it. Random ids, tokens,
--   hashes and the time are arguments; `check_password` takes the database at its query and at its update,
--   which may differ. The hasher is an argument of the store, as in the source, and `scrypt_hasher` is the one
--   of Hashes. The hash of a token and the JSON reader are parameters. The token of `open_login` is taken to
--   have a hash of its own.
-- - Hashes (gowui/store.py): `Scrypt` and its stored form; scrypt, base64 and `int` are parameters, and what
--   is documented of them is the record `Documented` of Hashes/RoundTrip. Hashing fails where scrypt does.
-- - Throttle (gowui/server_mode.py): `LoginThrottle`, with the time as an argument.
-- - Guard (gowui/guard.py, gowui/policies.py): `normalise_host`, the rules of `Guard._check` and what they
--   read. The parsers of IP addresses and the identity policy are parameters. Guard/Rules and Guard/Reached
--   say what each rule admits, in terms of the headers.
-- - Answers (gowui/guard.py): the answers to refused requests, and `client_address`.
-- - Types (gowui/engine/types.py): the sanitising of engine numbers and vertices, `Position`, and the records
--   of an analysis with `sort_by_order`. `float` and the subtraction of `flip_rate` are parameters.
-- - Engines (gowui/engine/base.py, gowui/engine/transport.py): `clip`, the failure of a client with who
--   records it, and `check_line`.
-- - Reports (gowui/engine/gtp.py): `parse_analysis_line`. `float` of a text is a parameter.
-- - Gtp (gowui/engine/gtp.py): the GTP client on a small monad over the client's state and the world, which is
--   the lines that are still to come and what each write does. Gtp/Exchange has `_exchange` with `_head` and
--   `_body`; Gtp/Sync has `sync`, `_reset` and the moves; Gtp/Streams has `start_analysis` and
--   `genmove_analyze`. A read that times out is an input, and `boardsize` clears the board, as it does in
--   tools/fake_engine.py. Reading runs over the lines that are there.
-- - Values (gowui/session.py): decoded JSON and the tests of numbers.
-- - Human (gowui/engine/human.py): `tuple_problem`, `check_policies`, `wire_tuple`.
-- - Preferences (gowui/session.py): names and presets, `clean_preferences`, and what `_msg_preferences` stores.
-- - Session (gowui/session.py): `GameSession` with its boards. Session/Read has the fields of a message,
--   Session/Commands the messages about the game, Session/Settings those about the settings, Session/Boards
--   those about the boards, Session/Messages `handle`. `_fresh_id` runs on fuel, one round for each board and
--   one more; which is enough, as the numbers of the rounds all differ. Session/Moves has
--   `_engine_move`, cut at the wait for the engine, and `_analysis_sink`. A task that is spawned is a flag of the
--   session.
--
-- How they interact: Game plays on Board and asks Rules; Archive reads Sgf texts with Coords into Game.
-- A session holds a Game for each of its boards, checks settings with Human, and reads and keeps Preferences.
-- A GTP client gets a `Position` and sends its moves; its reports go through Types.
-- A request passes Guard, whose identity policy asks Store for the account of a token; signing in passes
-- Throttle first and then Store. A session's frames reach its tabs through the hub of Spaces.
--
-- Not modelled: the messages of a session that wait for an engine, beside genmove (connect,
-- disconnect, raw, final_score), the loop of automatic play, and a session's snapshots; the analysis
-- and handol protocols and the transports (gowui/engine); the registry of spaces, the command line,
-- the routes and the page; the locks, since a method's critical section is one step here.
pub mod Base
pub mod Rules
pub mod Coords
pub mod Board
pub mod Game
pub mod View
pub mod Sgf
pub mod Archive
pub mod Spaces
pub mod Saves
pub mod Store
pub mod Hashes
pub mod Throttle
pub mod Guard
pub mod Answers
pub mod Types
pub mod Engines
pub mod Reports
pub mod Gtp
pub mod Values
pub mod Human
pub mod Preferences
pub mod Session
pub mod Tests
