-- ===== src/Lib.antt =====
-- The core of Silicon Briefcase, a file store with drives, shares and apps.
--
-- The program is a server in Rust. Its handlers (src/api) decode requests, its services
-- (src/application) order the steps, its repositories (src/infrastructure) keep the state, and all of
-- them ask the types of src/domain what is allowed and what is well formed. This library models that
-- domain, the content service over its two ports, and the retry policy of the workers:
--
-- * Permission, for src/domain/permission.rs. Rights and capabilities are bit sets (Permission/Rights,
--   Permission/Capability), a grant applies to an entry directly or from a folder above it
--   (Permission/Grant), and `evaluate_authorization` (Permission/Policy) decides one entry. Its local
--   variable `capabilities` is passed from step to step. Permission/Policy/Sources describes the
--   decision without steps.
-- * Identity, for src/domain/actor.rs (Identity/Identifier, Identity/Reference, Identity/Context) and
--   src/domain/account.rs (Identity/Account): who calls, in whose drive, and whose entries count as
--   its own. Policy takes its context from here.
-- * Entry, for src/domain/entry.rs: kinds, names and paths.
-- * Multipart, for src/domain/multipart.rs: the plan of an upload (Multipart/Plan), the check of the
--   uploaded parts (Multipart/Completion) and the states of a session (Multipart/Lifecycle).
-- * Filter, for src/domain/filter.rs: tokens (Filter/Lexer), values of terms (Filter/Terms), the
--   state of the parser with the modifiers (Filter/State), the condition of a term
--   (Filter/Conditions), the SQL patterns of terms (Filter/Glob), the recursive descent
--   (Filter/Parser), and expressions with their evaluation (Filter/Expression).
-- * Quota, Version and Media, for src/domain/quota.rs, src/domain/version.rs with
--   src/domain/lifetime.rs, and src/domain/media.rs: the tables of extensions and media types
--   (Media/Tables) and the classification of a file (Media/Classify).
-- * Content, for src/application/content.rs: the service that keeps file bytes in object storage and
--   their metadata in the database. Its two ports, the traits `ContentRepository` and `ObjectStore`,
--   are parameters (Content/Calls): a run keeps the list of the calls that it made, with all their
--   arguments, and what a port answers is any function of that list, so that every behaviour of the
--   database and of the provider is covered. Content/Guard is the guard of an object that is not
--   published yet, with the match on the result of a commit that four operations share (`publish`).
--   `upload_small` is in Content/Upload; `initiate_multipart` and `upload_part` (`upload_one_part`)
--   in Content/Sessions; `complete_multipart` (`complete_session`) and `abort_multipart`
--   (`abort_session`) in Content/Completion; `open_content` in Content/Reading; `upload`,
--   `upload_multipart` and `sha256_file_range` in Content/Transfer; the checks and copies of a restore
--   in Content/Restore, and `restore_version` around them in Content/Versions. There the copy runs while
--   a timer renews the lease (Content/Versions/Renewal): the copy keeps its own list of calls, how often
--   the timer fires behind each of them is any function of that list, and each call is answered at its
--   place in the whole history. A renewal that fails drops the copy at its last call, with the guard of a
--   multipart session that it has open. `configure_storage` is in Content/Configure. Content/Range has byte ranges, from the header (src/api/delivery.rs) to their
--   resolution against a size. Content itself has the commands and preparations.
-- * Storage, for src/application/ports.rs (keys, checksums, requests and answers of object storage)
--   and src/domain/storage.rs (Storage/Validation). Error, for src/error.rs.
-- * Archive, for src/application/archive_listing.rs: the formats, and the listing of a zip archive from
--   its end record (Archive/Zip) and its directory (Archive/Zip/Entries).
-- * Worker, for src/worker/policy.rs: topics, dead letters and retry delays.
--
-- Prelude has the shared notation, the Boolean tests, lists, results and the checked and saturating
-- operations of `u64` and `u32`. Text has the operations of `str` and `char` that the domain calls; a
-- text is the list of its code points, and its length in bytes is that of UTF-8. `is_whitespace` and
-- `is_control` follow the Unicode properties White_Space and Cc. A `BTreeSet` is a list in increasing
-- order, a UUID is a number.
--
-- Methods that two types share a name for have the type's name in front: `plan_for_file_size` is
-- `MultipartPlan::for_file_size`, `entry_name` is `EntryName::new`, `boundary_root_type` is
-- `EntryBoundary::root_type`. A newtype over a text is that text, and its constructor is the function
-- that validates.
--
-- Loops are recursion on their list, or on the number of rounds left: the parts of an upload and the
-- doublings of a delay. The loop that reads a range of a staged file recurses on as many rounds as it
-- has bytes to read, which is enough since a round reads one byte at least. The loops over the entries of a zip
-- directory and over the extra fields of one recurse on as many rounds as there are bytes, of which an
-- entry takes 46 and a field four. The parser of filters recurses on fuel, `enough_fuel`: three times
-- the number of tokens, plus three. Its three functions call each other at most three times before a
-- token is taken. Bounds are those of the source: 255 bytes for names, 2048 for paths, 1024 for
-- filters, 32 conditions, 100 MiB and 5 TiB for uploads, 10000 parts.
--
-- Code that is not in the repository is a parameter: the crate `time` (a type `Date` with the parser
-- `parse_date` and the order `date_lt`; a type `Time` that grants only carry) and the crate `uuid`
-- (`uuid_is_canonical`). A `ContentService` carries the answers of its ports, of the clock and of the
-- file system, and the functions `sha256`, `encode_base64` and `decode_base64` of the crates sha2 and
-- base64. A time of the content service is a number of seconds, a `Duration` of the workers a number
-- of nanoseconds. The listing of archives takes `datetime`, `from_unix` (crate time) and `utf8_lossy`.
--
-- Not modelled: the HTTP interface but for ranges, the other services, the repositories and the S3
-- and identity clients, which are I/O; the cancellation of a request from outside;
-- the digest of a whole temporary file reads it in one step; tar and 7z archives, which other crates
-- read; logging; serde, Display and accessors; of
-- src/domain/filter.rs the mutable list of selectors; of src/domain/account.rs `storage_key`, a hash
-- of the crate `uuid`; of src/domain/media.rs `is_extractable_text`;
-- src/domain/delegation.rs, src/domain/notification.rs and src/domain/ids.rs, which are mostly types;
-- the clients and the web interface.
pub mod Prelude
pub mod Text
pub mod Identity
pub mod Entry
pub mod Multipart
pub mod Permission
pub mod Media
pub mod Filter
pub mod Quota
pub mod Version
pub mod Error
pub mod Storage
pub mod Content
pub mod Archive
pub mod Worker
