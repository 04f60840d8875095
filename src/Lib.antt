-- ===== src/Lib.antt =====
-- Federate Network: a verification library for the Rust crates under crates/.
--
-- The program is a name system with signed documents. A root key signs the root zone, which lists
-- the TLDs and, for root-managed TLDs, the domain records; the operator of a TLD signs domain records
-- and the registry of a delegated TLD; the owner of a domain signs the manifest of its site, and a
-- manifest names content blocks by their hash. A resolver starts from a pinned root key and walks this
-- chain with documents from peers that it does not trust. A node keeps the registry in memory and in a
-- database, changes it by signed mutations only, and reads it back and verifies it at every start. The
-- name server answers questions about the names of the zone with the addresses of gateways.
--
-- Files and the code that they model:
--   Base            Rust's str, String, BTreeMap and i64, as the code uses them; Base.Utf8: from_utf8_lossy
--   Core            crates/federate-core/src/lib.rs: errors; Core.Json: the module canonical
--   Naming          crates/federate-naming/src/lib.rs: validators and parser of domains; Naming.Expiry:
--                   expired_at; Naming.Record: DomainRecord
--   Uri             crates/federate-uri/src/lib.rs: FederateUri
--   Root            crates/federate-root/src/lib.rs: TldRecord, RootZone; Root.Blocklists: Blocklists
--   Manifest        crates/federate-manifest/src/lib.rs: Manifest::validate, resolve_path
--   Registry        crates/federate-registry/src/lib.rs: TldRegistry; Locate: RegistryView
--   Mutation        crates/federate-mutation/src/request.rs and audit.rs: the data of mutations
--   Package         crates/federate-mutation/src/request.rs: SitePackage::decode
--   Host            what other crates provide: hex, ed25519-dalek, blake3, chrono, serde_json
--   Identity        crates/federate-identity/src/lib.rs: NodeIdentity, verify_signature
--   Signing         the signable_bytes, verify and signing code of every kind of document
--   Storage         crates/federate-storage/src/lib.rs: content addresses, BlockStore
--   Store           crates/federate-mutation/src/store.rs and backend.rs: Store.Prepare is apply up to
--                   its first write and the choice of the action, Store.Actions the arms of
--                   apply_action, Store.Apply the writes, Store.Open the first boot and the later
--                   ones, Store.Verify verify_all; Store.Database the tables of redb_backend.rs
--   Protocol        crates/federate-protocol/src/lib.rs; Transport: crates/federate-transport/src/lib.rs
--   Directory       crates/federate-directory/src/lib.rs: node entries; Directory.Registrations the
--                   signed documents, Directory.Table the node table and its operations
--   Cdn             crates/federate-cdn/src/lib.rs: the ranking of providers; Cdn.Cache: CdnCache
--   Dns             crates/federate-dns/src: Dns.Wire is wire.rs, Dns.Server the packets and the TCP
--                   connections of DnsServer in lib.rs
--   Client          crates/federate-client/src/lib.rs: capped downloads
--   Resolution      crates/federate-resolution/src/lib.rs: Roots is the root zone (with RootCache of
--                   federate-root), Documents the manifests, Registries the delegated registries,
--                   Content the blocks, Resolve the steps of resolve_traced_inner, Lookup
--                   resolve_domain and site_files
--   Tests           concrete runs, and the results below at inputs
--
-- State and results. RegistryStore is the record of memory, database and files. apply returns the
-- result and the state after the call, also where the result is an error. Errors are values of
-- Core.FederateError: the variant of the source, the names that identify it, and the fixed words of
-- the message; other text that the source interpolates into a message is left out. BTreeMap is an
-- association list that insertion keeps in key order. A u64 is a number; the addition to a version
-- is written with its saturation (Store.Prepare.next_version), and the running size of the CDN
-- cache with its wrap-around (Cdn.Cache.sum_sizes, evict).
--
-- What the code takes from other crates is the record Host, an argument of every definition that
-- uses it. The laws that a theorem relies on are hypotheses with a name: Host.SignsCorrectly, and
-- for what JSON reads back those whose name begins with Reads. What the file system and the
-- database engine answer during a call is the record Store.Apply.Io; for the resolver, peers are
-- the record Resolution.Net and the file system is Resolution.Io. One answer is fixed for each
-- request of a call, and calls run one after another: the locks of the source are not modelled. For
-- the name server, what its socket receives from the upstream is a list of packets. For the
-- transport, a socket is what it does with each frame written and the bytes that arrive on it
-- (Transport.Peer), and the JSON of a message is a parameter (Transport.Codec). What removing a
-- block file answers is a parameter of Storage.remove_block and of the eviction of Cdn.Cache. The
-- loops run over a list, the loop over the requests of a session also on its limit of 10000. Two
-- kinds of loop run on fuel, the loops over the names in a DNS packet and the loop over the
-- messages of a TCP stream: they get the length of their input, each pass consumes a byte of it or
-- ends the loop, and so the fuel does not run out.
--
-- Not modelled: sockets with their deadlines and slots, HTTP, file names and directories, the reading
-- of configuration, the command line, randomness, and the text of error messages beyond the above.
pub mod Base
pub mod Core
pub mod Naming
pub mod Uri
pub mod Root
pub mod Manifest
pub mod Registry
pub mod Mutation
pub mod Host
pub mod Protocol
pub mod Identity
pub mod Signing
pub mod Storage
pub mod Transport
pub mod Directory
pub mod Cdn
pub mod Client
pub mod Store
pub mod Locate
pub mod Package
pub mod Resolution
pub mod Dns
mod Tests
