-- ===== src/Lib.antt =====
-- A model of Grindstone's backend, the Python code under code/backend that collects market history
-- and guards the keys that it is collected with, and the theorems about it.
--
-- The parts and how they work together:
--
-- - Prelude: Boolean tests on the native numbers, equality tests as instances, lists, and texts as
--   lists of characters. Calendar: days as proleptic ordinals (Python's date.toordinal), and the
--   weekday loops that coverage and onclick share.
-- - Coverage (code/backend/coverage.py): the table data_cover as a list of rows with at most one
--   row for a slot. Types has the states and the policy constants, Mark has mark,
--   may_claim_absent, has_older, state_of and the reconcilers, and Gaps has gaps and summary. The
--   theorems stand in Wanted (what gaps returns), Claims (what a mark changes), Earned (which
--   `absent` can stand) and Retry (the retries and their limits).
-- - Onclick (code/backend/onclick.py): Window has the sliding window and clamp, Fetch has
--   check_body and the retry loop of fetch_day. The server is a function from the attempt to its
--   response.
-- - Backfill (code/backend/backfill.py): Plan cuts the gaps of coverage into chunks, Work executes
--   a chunk and writes what it learned by coverage.mark, after clamping the range by
--   onclick.clamp. The provider is a function from a range to rows or an exception.
-- - Sessions (code/backend/sessions.py): the store of sessions, with the byte arrays of the keys
--   on a heap, so that the wiping of a buffer and the sharing of one are visible. Each method
--   holds the lock for its whole body and is one step.
-- - Recorder (code/backend/recorder.py, with the table record_jobs of code/backend/marketdb.py):
--   which jobs are allowed, which are due, how each run is written down, and which recorded rows
--   are pruned. The collectors are a parameter. Chains has the backfill of chain history, which
--   works on the table of Coverage by Onclick's window and fetch. Passed says what a pass over the
--   due jobs makes of the table, Had and Settled which chain days end as had.
-- - Autorecord (code/backend/autorecord.py): starring and un-starring a symbol, on the same table,
--   by recorder.validate_job.
-- - Datajobs (code/backend/datajobs.py): the chain puller, on onclick's window, weekdays and
--   answers.
-- - Favorites (code/backend/favorites.py): Store has the table of favorites with validate_new,
--   add, remove and list_; Icon has the capture of a site's icon, where an address is of any type,
--   and the test of its scheme, the guard on its host and the answer to a request are functions.
-- - Unicode: the tests of texts that favorites and wheels share, with Python's Unicode tables
--   (isidentifier, isalnum, upper, lower) as a parameter.
-- - Json: the values that json.loads returns, with what dict.get, bool and == say of them.
--   UserSettings: the table user_settings, one row for a user and a key.
-- - Wheels (code/backend/wheels.py): the document of a user's gesture wheels. Vocabulary has the
--   constants, Document the cleaned document as a value, as the JSON that is stored, and the
--   default one; Segments and Validate have validate, loop by loop, with a refusal for each
--   message of _fail; Stored has get and put. Whole states what a whole document is, apart from
--   the code. The JSON library is a parameter.
-- - Chart (code/backend/chartobjects.py): the objects drawn on a chart. Objects has the vocabulary
--   and the objects as values, Read the readers of numbers, times and ids (_num, _time, _id,
--   _point, _anchor, _place), Collect and Document the five loops of validate, Stored get, put and
--   list_keys. A float is a decimal fraction with a sign, infinite or not a number; float of an
--   int, date.fromisoformat and the JSON library are parameters.
-- - Settings (code/backend/settings.py): Spec has SPEC with its bounds and defaults, Store has
--   _coerce, defaults, get_all, put and schema on the table user_settings. Floats are decimals,
--   infinities or nan; float and the length of json.dumps are parameters. A float that overflows
--   ends the loop in which it stands.
-- - History (code/backend/marketdb.py): the tables bar_hist, bar_hist_src and bar_hist_meta.
--   Tables has bar_hist_store and bar_hist_read with the segments of its sources, Spans has
--   bar_hist_span and bar_hist_mark. The id of a source is its place in the list of sources.
-- - Notepad (code/backend/notepad.py): Secret has the patterns of credentials as searches, Payload
--   has validate_payload, Store the table with list_entries, add, get, edit and remove, and Label
--   has summaries. Pad says what a notepad is apart from the table: a function from a user and an
--   id to a payload and a label, with the change that each call may make; Granted says which calls
--   return, Refines has the calls on the table, Accepted what is known of a call that was not
--   refused. Codec is an encoding of JSON for the tests.
-- - Depth (code/backend/depth.py): Plan has what a visit to a chart still needs, Queue the queue
--   of symbols with its one worker, whose steps are events that fall between the submits in any
--   order, and Fill the fill of one symbol on the tables of History, with the number of bars
--   written unless the broker's exception ended it.
-- - Imports (code/backend/btdata.py): the store that the backtests read. Contracts has the table
--   opt by its key, Chain import_chain: its two refusals, and its loop of one transaction a day.
--   Written has what the loop leaves, Sessions which contracts can get in, and Whole when an
--   import is all or nothing.
--
-- A function that can raise returns an Option or a data type of its ends. Dates and times are
-- natural numbers, counted from the year 1, so earlier days and times are left out, and
-- subtraction stops at 0. The two delays of the puller, which are floats, are tenths of a second.
-- The ASCII letters are the only ones that upper changes.
--
-- Loops over lists are structural. The weekday loops run on a number of rounds, which is last + 1
-- - start: one for each day of the range, and the theorems on them need no more. The loop of
-- fetch_day runs retries + 1 rounds, as the source's range does, and fetch_icon makes
-- max_redirects + 1 hops for the same reason.
--
-- The network, the clock, the database engine and the random tokens are parameters: functions or
-- arguments that the theorems quantify over. The assumptions are that a token that is created is
-- not in the store, that json.loads reads back what json.dumps wrote, that the default state of
-- the multi-chart is within its limit, that OnclickMedia sends for a day rows of that day, that a
-- stored bar refers to a source, and that the ids of the built-in wheels are identifiers of
-- Python. Not modelled are the log lines, the pacing sleeps of the backfill, failures of the
-- database itself, the import thread, the recorder's collectors and its cycle over the jobs, and
-- the rest of the backend: the web routes, the backtest engine with its floating-point arithmetic,
-- and the brokers.
pub mod Prelude
pub mod Json
pub mod Calendar
pub mod Coverage
pub mod Onclick
pub mod Backfill
pub mod Sessions
pub mod Recorder
pub mod Autorecord
pub mod Datajobs
pub mod Depth
pub mod Favorites
pub mod UserSettings
pub mod Unicode
pub mod Wheels
pub mod Chart
pub mod Settings
pub mod History
pub mod Notepad
pub mod Imports
