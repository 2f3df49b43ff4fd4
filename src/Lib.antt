-- ===== src/Lib.antt =====
-- CasPaste: a service that stores pastes. This library models the parts of it that decide: which
-- paste a request finds, which client may send one more, which token or session is accepted, which
-- address is locked out, when a task runs next, which backups are kept, and which request gets to
-- its handler.
--
-- Parts, and the files of the repository they come from:
--   Lineend: src/lineend/lineend.go. The style of line ends of a text (`GetLineEnd`) and the nine
--     conversions, which `PasteAddFromForm` applies to what it stores.
--   RateLimit: src/netshare/ratelimit.go. One limiter per client address with its background worker,
--     and the cascade of three limiters (`RateLimitSystem`) that every request passes.
--   Storage: src/storage/paste.go and src/storage/share.go. The table of pastes, in the primary
--     database and an optional backup. Writes run on both, except the deletion of an expired paste that
--     is looked up.
--   Token: src/token/token.go. The tokens of users, organisations and admins, in three tables.
--   Session: src/session/session.go. The sessions of users who are logged in.
--   BruteForce: src/caspasswd/bruteforce.go. Failed logins per address, lockout and clean-up.
--   Cron: src/scheduler/cron.go. Cron expressions (`ParseCron`) and the times they name (`Next`).
--   Retention: src/backup/retention.go. Which backups the policy deletes, by counts for each kind of
--     backup and then by a cap on the total size.
--   Validation: src/validation/bool.go, driver.go and fqdn.go. Boolean words, the names of database
--     drivers and their connection strings, domain names and e-mail addresses.
--   Host: src/netshare/host.go. Which host and protocol a request was sent to, which client sent it,
--     and the URL of a paste, with the headers of proxies (`GetHost`, `GetClientAddrTrusted`).
--   Form: src/netshare/paste.go. `PasteAddFromForm`, which puts the above together: the method, the
--     limits of RateLimit, the decoded request, the checks, the line ends of Lineend, and Storage.
--   Scheduler: src/scheduler/scheduler.go. The tasks and when they run, by the times of Cron.
--   Password: src/caspasswd/caspasswd.go. The file of users and hashes, logins and rehashing.
--   Totp: src/totp/totp.go. One-time passwords (`Verify`) and recovery keys.
--   Reading: src/apiv1/get.go, src/raw/handler.go, src/web/dl.go, get.go, embedded.go, url.go and
--     edit.go, and hastebinGet of src/apiv1/compat.go. The handlers that show or change one paste, as
--     the calls of Storage that they make, which may interleave (Reading/Races), and what they send.
--   Api: src/apiv1/new.go, list.go and error.go. The creation of pastes, which asks BruteForce and
--     Password on a private instance and then Form, and the listing. Api/Compat: src/apiv1/compat.go,
--     the interfaces of other services, which give their pastes to Storage past the checks of Form.
--   Web: src/web/auth.go, csrf.go and middleware.go. Logins with the lockout of BruteForce, the token
--     of the cookie, who must log in (with the beginning of `Handler` in src/web/web.go), forged
--     submissions, CORS, and paths.
--   Admin: src/admin/db.go. Accounts of administrators and invitations.
--   Secrets: src/backup/encryption.go and src/storage/secrets.go. Encrypted backups, and secrets that
--     outlive a restart.
--   Settings: src/portutil/portutil.go, src/cli/duration.go and src/mode/mode.go.
--   Prelude: shared texts, lists, maps, tables of rows, base64, numbers in texts, signed numbers and
--     tests.
--   Storage/Spec is the contract of Storage: a map of pastes by their ids.
--
-- Names: a Go function `FooBar` is `foo_bar` here, and a struct keeps its name and its fields. A
-- method takes its receiver as an argument and returns the new one beside its results.
--
-- State and environment:
--   A Go mutex makes each call atomic, so concurrent use is a sequence of calls. A mutated struct is
--   passed on explicitly. A map is a function to `Option`, or a list of its entries in the order in
--   which Go ranges over it, where the code ranges over it.
--   A database table is a list of rows. Each statement has an outcome, an argument: it runs, or the
--   driver reports an error and the statement has had no effect.
--   Clock readings, random draws and bytes, what handlers return and what a file holds are
--   arguments; SHA-256, HMAC, AES-GCM, base32, `argon2.IDKey`, bcrypt, the calendar, the format of
--   times, `filepath.Base`, `filepath.Join`, what the highlighter knows of a syntax,
--   `time.ParseDuration`, `Duration.Seconds`, `net.ParseIP` and `net.SplitHostPort` are parameters.
--   Nothing is assumed of them but what a theorem names. A form or a JSON body comes decoded.
--   Instants and counts are natural numbers; int64 does not overflow before the year 2262 and is not
--   modelled for instants, except for the time of deletion of a paste, whose sum wraps around.
--   `strconv.Atoi` has its 64-bit bounds. Texts are lists of bytes; white space and the case of
--   letters are those of ASCII.
--
-- Fuel: the loop over step values of `parseField` runs on fuel, since the source has a step for
-- which it does not end; as much fuel as the field has values is enough for positive steps. The
-- digits of a printed `int64` have fuel for 20 of them, and there are at most 19. The search of
-- `Next` has the bound of the source, 366 * 4 * 24 * 60 rounds.
--
-- Not modelled: templates, answers as JSON, logs and metrics, the configuration files, the package
-- src/compat, and set-up and migration of databases, which are I/O over libraries; the panel
-- of administrators but its accounts; the search for TLS certificates; the archives of backups, whose
-- sizes and times are data here. `parseMaxTotalSize`, which reads floating-point text and the size of
-- the disk, and `GetGlobalIP` are arguments too.
pub mod Prelude
pub mod Lineend
pub mod RateLimit
pub mod Storage
pub mod Token
pub mod Session
pub mod BruteForce
pub mod Cron
pub mod Retention
pub mod Validation
pub mod Form
pub mod Scheduler
pub mod Password
pub mod Host
pub mod Totp
pub mod Reading
pub mod Web
pub mod Api
pub mod Secrets
pub mod Settings
pub mod Admin
