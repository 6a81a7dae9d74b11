-- ===== src/Lib.antt =====
-- Archer reads Zeek logs, scores what it finds, and serves the findings to analysts. This library
-- models the parts of its Go code that decide what an analyst sees and what an outsider may do.
--
-- Prelude: texts as lists of bytes, Boolean tests, and the lemmas on them that the parts share.
-- Net: what the code uses of the packages net, net/url, strconv, time, unicode/norm and bcrypt, as
--   parameters with laws.
-- Glob: globMatch of internal/match/match.go, and its copy globFold of internal/query/match.go.
--   Glob/Spec says what a pattern stands for, Glob/Correct compares the two, Glob/StarSubject is
--   about subjects that hold a star.
-- Matcher: Compile and Matches of internal/match/match.go, the allowlist and indicator lists.
-- Finding, Attack: model.Finding of internal/model/finding.go as far as it is read, and the ATT&CK
--   mapping of internal/model/attack.go. Finding/Identity is Fingerprint, BeaconHistoryKey and the
--   families of types of finding.go.
-- Query: the query language of internal/query. Query/Token and Query/Lex are lex of query.go;
--   Query/Term is parseTerm of term.go; Query/Parse is the parser of query.go, with the grammar it
--   is compared with in Query/Parse/Grammar; Query/Match holds the predicates of match.go and
--   Query/Eval the evaluation of a tree on a finding, which calls them.
-- Filter: internal/server/findings_filter.go, which composes the query, the list matchers and the store's
--   exclusions. Filter/Apply is its loop, Filter/Listing compares it with the bell, and
--   Filter/Partition is about a query and its negation.
-- Users: internal/store/userstore.go and internal/model/user.go, the table of accounts and the map of
--   sessions. Users/Rows and Users/Sessions are about what their operations keep.
-- Auth: who a request is served for. Auth is requireAuth, requireRole and the cross-origin check of
--   internal/server/middleware.go and validEmail of auth.go; Auth/Handlers and
--   Auth/Handlers/Accounts are the handlers of internal/server/auth.go with their rate limit, audit
--   rows and routes, composed into any sequence of requests. Auth/Moves is an abstract view, by moves
--   with a guard each, to which Auth/Refine relates the handlers; Auth/Admission, Auth/Admin,
--   Auth/Sound, Auth/Revoke and Auth/SignIn are about who has access.
-- Correlate: correlateFindings of internal/analysis/correlate.go. Correlate is the table of pairs,
--   Correlate/Rows the rows, the annotations and add of analyzer.go; Correlate/Pairs and
--   Correlate/Links are about what they hold, Correlate/Order about the order of strings.
-- Staging: computeStaging and detectStaging of internal/analysis/stage.go. Staging gathers the beacons
--   of each destination, Staging/Rows makes the findings; Staging/Seed is about the order of the
--   hosts, Staging/Hosts about the clusters, Staging/Onsets about the earliest beacon of each host,
--   and Staging/Convergence about the findings.
-- RateLimit: internal/server/rate_limit.go. allow, evictIdle and the log of a sequence of requests.
-- Broker: internal/server/sse_broker.go. The life of a client is a step relation: publications,
--   reads of its channel by ServeHTTP, and clearOverflow, in any order.
-- Sensor: internal/server/sensor_heartbeat.go. A tick is what one scan reads; the loop is a list of
--   ticks. Its alarms go to the store and to the broker.
-- Cef: internal/siem/cef.go. The lines that go to a SIEM, with readers to compare them with.
-- Store: internal/store/store.go. Store/Merge is setFindingsImpl up to the new set: Dedupe, Keep, Entries,
--   Ids, Clash and References are about it. Store/Pairs is the pair allowlist with its index. Store/Entries is
--   sanitizeListEntries and sanitizeFingerprintEntries. Store/Snapshot is FilterSnapshot.
--   Store/Bell is the rest of setFindingsImpl with
--   the operations that decide what the bell shows; Store/Bell/Ops puts them in sequences.
--   Store/Retention is PruneFindingsBefore and its preview. Store/Updates is UpdateFinding,
--   BulkUpdateStatus, AddNote and AddNoteIfAbsent with the map findingsIdx.
-- Examples: the theorems at concrete inputs.
--
-- Texts are ASCII: a byte is a rune, and the case mappings act byte by byte. Integer fields are
-- natural numbers, since the program makes none negative. A Go map is a function or an association
-- list. float64 is an abstract type with the laws of its comparisons; the token bucket counts in
-- units of a nanosecond of refill, six thousand million to a token, which is exact where the code
-- rounds. time.Time and net.IP are abstract.
--
-- The wildcard loop runs on (s + 1)(p + 1) steps of fuel for a subject of s and a pattern of p
-- bytes, the lexer on one more than its input, the parser on five for each token and five more. Each
-- bound is proved to be enough, so no result is ever for want of fuel.
--
-- The steps of the broker do not overlap, since each holds its mutex; a read of the channel may
-- fall between any two, but not inside one. Each operation of the
-- store holds its mutex too, so they are functions from store to store; a database that fails is
-- an argument where the code waits for its answer, and its writes are left out otherwise, as is the
-- configuration field that ClearFindings resets. Requests to the handlers of accounts are handled one
-- after the other; a handler reads the clock once, reads of the accounts do not fail, and whether its
-- write to them succeeds is an argument, as are the random token and salt. The values that an audit row
-- quotes, the pages and the timing pad are left out. Not modelled are the other HTTP handlers, the store's
-- tables, the other detectors, the feeds, the LLM providers, and the web interface.
pub mod Attack
pub mod Auth
pub mod Broker
pub mod Cef
pub mod Correlate
pub mod Examples
pub mod Filter
pub mod Finding
pub mod Glob
pub mod Matcher
pub mod Net
pub mod Prelude
pub mod Query
pub mod RateLimit
pub mod Sensor
pub mod Staging
pub mod Store
pub mod Users
