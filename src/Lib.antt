-- ===== src/Lib.antt =====
-- A model of add-ons of this repository: Secrets Sync (secrets-sync/app), which collects secrets from
-- its providers, merges them, and writes them to Home Assistant's secrets.yaml, and ntfy (ntfy/app),
-- which administers the users, rules and tokens of an ntfy server; and of parts of four others: the
-- upload worker and the print history of CUPS (cups), the hosts and the incidents of haos-monitor
-- (haos-monitor/app), the ARP scan of the network tools (network-tools), and the router of the library
-- that the add-ons' own pages share (admin-ui/app/web/skeleton).
--
-- Secrets Sync, its parts and how they interact. The supervisor (engine/supervisor.py) runs cycles: it fetches a
-- snapshot of every provider, merges the snapshots (engine/merge.py), renders synthetic keys, asks the
-- shrink guard (engine/guard.py) and writes files and secrets (engine/writer.py). It keeps the state
-- that the web UI shows (engine/state.py), scrubs secret values from texts (engine/redact.py), and
-- between cycles it waits, probes the providers for changes, and takes triggers of other threads.
--
-- ntfy, its parts and how they interact. The services (accounts.py, rights.py, tokens.py,
-- maintenance.py) read the server's sqlite database (authdb.py), change it only by running the ntfy
-- program (ntfycli.py), and record in origins.json who owns each user, rule and token (origins.py). At
-- start, bootstrap.py adds the admin and the users and rules of the options (baseline.py).
--
-- Files:
-- - Common: lists, options, results, dictionaries, sorting, texts and the monad of stateful code that
--   may raise (Common/Action), with rules for what an action keeps and for actions that always return.
-- - SecretsSync/Guard: check_shrink. The float comparison is a parameter (Floats).
-- - SecretsSync/Paths: safe_relpath of engine/writer.py.
-- - SecretsSync/Contract: Problem, Snapshot and the errors with a code (providers/base.py).
-- - SecretsSync/Merge: merge; the two inner loops are take_all.
-- - SecretsSync/Sops: _flatten of providers/sops.py over a YAML document; Sops/Leaves has the leaves of
--   a document by recursion.
-- - SecretsSync/Redact: register and scrub.
-- - SecretsSync/State: the fields of StateStore, add_event, and the stale flag of render.
-- - SecretsSync/Usage: summarize of engine/usage.py.
-- - SecretsSync/World: what the supervisor calls, as a parameter: clock, providers, the writer's two
--   writes, the reload of Home Assistant, Jinja, the scan, the wake flag. World/Lawful says what is
--   relied on: only write_secrets changes secrets.yaml, and it writes all of a set or nothing, where an
--   error may come before the replacement or after it.
-- - SecretsSync/Supervisor: the object, _diff, _emit and _clean. Its children follow a cycle: Fetch
--   (_fetch_provider), Collect (_cycle up to the merge), Write (synthetic keys, guard, writes), Cycle
--   (_cycle from its parts), Finish (_finish and _refresh_usage), Control (trigger_sync, run_once,
--   _probe and _sleep). Env, EnvCycle, Safety and Life are about what every method keeps of the
--   environment, Fatal and Atomic about the content of secrets.yaml, Loop about triggers and the end
--   of a cycle, Finish/Backoff about delays.
--
-- - Ntfy/Host: what the services stand on, as a parameter: the rows and errors of sqlite, the ntfy
--   program, the backups, origins.json, a digest and a date. Ctx is the environment with the document.
-- - Ntfy/Contract: the validators, mappings and rows of contract.py; Contract/Topics has patterns.
-- - Ntfy/Options: parse_options and load_options of contract.py over a JSON type.
-- - Ntfy/AuthDb, Ntfy/Cli, Ntfy/Origins: authdb.py, ntfycli.py and origins.py, an operation each;
--   Cli/Commands and Origins/Quiet are about what they keep of the environment, Origins/Laws and
--   Origins/Kept about the document.
-- - Ntfy/Accounts (with Accounts/Rules), Ntfy/Rights, Ntfy/Tokens: the services, of one name each.
--   Accounts/Refused is about a database that is refused, Accounts/LastAdmin about the users that are
--   protected, Accounts/Restored about the rules that a demotion restores, Rights/Best about the rule
--   that decides.
-- - Ntfy/Baseline, Ntfy/Bootstrap, Ntfy/Maintenance: baseline.py, bootstrap.py (ensure_admin,
--   apply_options) and the two resets of maintenance.py. Baseline/Additive is about the commands that
--   the baseline runs, Maintenance/Confirmed about resets that are refused.
--
-- - Cups/Upload: upload-worker.py, the folders and files of a document as a Box; Upload/Names has the
--   suffixes of names, Upload/Kept the files that attempts leave alone, Upload/Retained where a document
--   is after an attempt, Upload/Quiet and Upload/Retries the attempts that fail.
-- - Cups/History: print-history-poller.py; History/Polls is about a round
--   whose writes may fail, History/Once about rounds whose writes succeed.
-- - HaosMonitor/Incidents: incidents.py over the bytes of a file; Incidents/Lines and Incidents/Scan are
--   about lines and blocks. HaosMonitor/Hosts: hosts.py, with Hosts/Listed.
-- - NetworkTools/Arping: the scan of arping_scan.py; Arping/Flaps is about a host over many scans,
--   Arping/Scans about the hosts of one scan.
-- - AdminUi/Router: router.py; Router/Matches is about the route of a request, Router/Public about the
--   requests that need no ingress, Router/Literal about their paths, Router/Served about both together.
--
-- In CUPS the disk and the server are lists of outcomes: which of the next file operations raise an
-- OSError, and what the next uploads are answered. An operation that raises has changed nothing; a
-- temporary file and its renaming count as one operation. The suffix of a collision stands for the
-- moment of one step, and so does the clock. The backward scan of a log runs on fuel, the length of the
-- file, which is enough since every block has at least a byte.
--
-- Loops are structural recursion over the providers, entries or texts they walk; run_forever and
-- _sleep are steps of a relation (Supervisor/Life), since they do not end. Points in time and counts
-- are natural numbers of seconds; a difference of times is 0 where the clock ran backwards. Methods run
-- to their end between the steps of the relation; a trigger of another thread comes between them.
--
-- In ntfy a service runs under one lock, so no other service comes between its steps; another process
-- may replace origins.json before each access, which Host.refresh stands for. The ntfy program runs at
-- most four times per command. A validator's `$` also matches before a final newline, as in Python.
-- Texts that are given to str.strip or lower are read as ASCII. A regular expression is its meaning, by
-- recursion on the text: topic_match too, which the program builds as an expression.
--
-- Not modelled: the providers' own code except _flatten, the writer's file access, the parser of the
-- configuration, the renderer of templates, the web server, preview, the logs; of ntfy the backups,
-- the export, the rendering of server.yml, the web routes, clear_cache, publish_test and the reading of
-- origins.json; of CUPS the title of a document, the text of lpstat and the generated configuration; of
-- haos-monitor the status and the web routes; the run of arping and the mDNS scan; of the shared library
-- all but the router; and the repository's other add-ons, which are mostly shell scripts, generators of
-- configuration files and programs in Go.
pub mod Common
pub mod SecretsSync
pub mod Ntfy
pub mod HaosMonitor
pub mod Cups
pub mod NetworkTools
pub mod AdminUi
