-- ===== src/Lib.antt =====
-- The server panel: a Go program that manages sites behind a Caddy web server, with plugins.
--
-- The parts that are modelled, and their files:
-- * internal/caddy/validate.go decides what a user may write into a Caddyfile. `Caddy.Domain` holds
--   site addresses (ValidateDomain, splitDomainPort, normalizeDomainAddress, DomainHost),
--   `Caddy.FileName` the file names made of them (SafeDomainFileName), `Caddy.Directives` the
--   directives put into a generated block (SanitizeCustomDirectives, ValidateCaddyValue), and
--   `Caddy.SiteBlock` a whole block written by hand (ValidateFullCaddyBlockForDomains), and
--   `Caddy.Upstream` upstreams, ranges and the addresses of a Caddyfile (ValidateUpstream,
--   ValidateIPRange, ExtractSiteAddresses).
-- * internal/caddy/renderer.go makes the Caddyfile of the hosts: `Caddy.Render`, with the functions
--   that need neither order nor settings in `Caddy.Render.Parts`. What is written is a list of
--   lines. `IsRenderable` holds of a host whose texts have passed the validators.
-- * internal/caddy/manager.go keeps the Caddyfile: `Caddy.ConfigFile` writes it and its backups
--   (WriteCaddyfile, cleanupBackups), and `Caddy.Reload` shares one reload among calls
--   (RequestReload), with the steps of the timer and of its callbacks as a relation.
-- * internal/service/host.go changes the hosts. `Model` holds the rows (internal/model/model.go),
--   `Host.Request` the request and its domains, `Host.Claim` how domains change hands
--   (claimRequestedDomains, checkDomainConflicts), `Host.Checks`, `Host.Rows` and `Host.Update`
--   Update, `Host.Create` Create with its transaction, `Host.Clone` CloneHost, `Host.Import`
--   ImportAll, `Host.Apply` ApplyConfig, and `Host.Run` Delete, Toggle, UpdateCertPaths and any
--   sequence of these calls (`after_calls`). A host that is `IsSound` is renderable and has valid
--   domains.
-- * internal/plugin/manager.go keeps the registry of plugins. `Plugin.Topo` is topoSort, the order
--   in which plugins are loaded, and `Plugin.Manager` the manager: Register, InitAll, StartAll,
--   StopAll, Enable, Disable, SetSidebarVisible and the seeding of the states. `Plugin.Guard` is the
--   middleware that turns away requests to a disabled plugin. `Plugin.EventBus` is
--   internal/plugin/eventbus.go, over which plugins tell each other what happened.
-- * internal/auth/ratelimit.go counts failures per client: `Auth.RateLimit`.
-- * internal/notify/ssrf.go decides which addresses a webhook may have: `Notify.Ssrf`.
-- * internal/queue/queue.go runs tasks with bounded concurrency: `Queue`. Its goroutines are an
--   explicit sequence of actions (`step`), and `Reach` holds of the queues that any sequence gives.
-- `Text` and `Regex` are Go's strings and anchored regular expressions, `Common` what all share.
--
-- Correspondence: a function of the source is a function of the same name in snake case, a loop is
-- a function over the list it ranges over, named for what it does, and an error is a constructor of
-- the file's error type. A string of Caddyfile text is the list of its code points, with its length
-- in bytes written out; it is taken to be valid UTF-8. A plugin's id is a string. A Go map is an
-- association list, the order of whose entries is the order of a range over the map.
--
-- Parameters: `sort`, what sort.Slice does, of which only is used that it permutes its argument,
-- and `wide`, what strings.ToLower does beyond ASCII, of which nothing is assumed. The parsers and
-- the resolver of net and net/url are parameters too, of which nothing is assumed. `Env` says which
-- calls of plugin code, of the file system and of the database succeed. For the hosts, `Library`
-- holds bcrypt, whose hashes are taken to have no brace and no newline, filepath.Join, which is
-- taken to bring neither into a path, and the order and the ids that the database gives to rows;
-- the statements of the database succeed, foreign keys are taken to be enforced, so that the rows of
-- a deleted host go with it, and `sort` is taken to put nothing into a list. `Disk`
-- and `Server` say what the disk, caddy and the settings answer.
--
-- Fuel: `drain`, the main loop of topoSort, has as many steps as there are plugins, which is how
-- often it can take one from the queue. `digits`, which writes a number n in decimals, has n + 1
-- steps, and n has no more digits; `Caddy.Render.Digits` reads the number back. Every other function
-- is structurally recursive.
--
-- Clock: times are nanoseconds of one monotonic clock and an argument of the calls that read it.
-- The backoff is computed in 64 bits and wraps around.
--
-- Not modelled: locks (an operation is one step, but for `Queue` and `Caddy.Reload`, where what
-- happens outside a lock is a step of its own), log lines, routers and contexts handed to
-- plugins, and the parts of these files that write to HTTP. Of the other packages nothing is
-- modelled: internal/handler, internal/database and internal/execx are glue around HTTP, SQLite
-- and processes, and the web directory is a front end in another language. Of the hosts, tags,
-- groups, the export of hosts, list filters and timestamps are left out.
pub mod Common
pub mod Text
pub mod Regex
pub mod Auth
pub mod Caddy
pub mod Host
pub mod Model
pub mod Notify
pub mod Plugin
pub mod Queue
pub mod Tests
