-- ===== src/Lib.antt =====
-- Verification of the confidential-containers guest components.
--
-- The guest components run inside a confidential virtual machine. The attestation agent records runtime
-- events in a log that a hardware register measures; the REST server lets containers reach the agent and
-- the confidential data hub over HTTP; resources are named by URIs; and the image puller decides by a
-- policy whether an image's signatures allow it to run, and decrypts its layers.
--
-- EventLog models attestation-agent/attestation-agent/src/eventlog. Event is the text of an event, Tcg2
-- its binary entry, Journal the write-ahead record, `EventLog::new` and `extend_entry`. Machine holds the
-- state they work on: the log file, its writer's position, the write-ahead file and the registers. Each
-- action on that state takes one unit of a budget; when the budget ends the process is killed, or given
-- an error, in the middle of the action, with as much of it done as a number says. So a run of a handler
-- at every budget is the handler interrupted everywhere. The attester is a record of its operations, with
-- the laws that are assumed of it in Files and States. Outcomes, Files, States and WalLaws carry the
-- invariants; Recovery, Start, Extend and Torn are about the single operations; Reach puts kills and
-- starts in sequence; Takes and Cost count actions: recording an event takes nine at most and a start eight.
-- Not modelled: creating the parent directory is an action that changes nothing, and the files are in
-- memory, as the source has them, so that what was written is never lost. `extend_entry` takes the register
-- to extend apart from the log's own, as the source does; the results are about events that are recorded
-- with the log's own register, the one that recovery reads, except those of Another.
--
-- ResourceUri models attestation-agent/deps/resource_uri/src/lib.rs. Uri has the operations, on the parts
-- of a URL that the url crate finds, and RoundTrip how reading and printing undo each other. Whether the
-- url crate finds a resource's parts in the text that is printed for it is not modelled. The fuel of
-- `trim_from` is the length of the text, which each step shortens.
--
-- ApiServer models api-server-rest/src. Path is utils.rs, Clients is client/aa.rs and client/cdh.rs over
-- the connections of client/ttrpc_client.rs, and Router is `Router::route`. The agent and the data hub
-- answer in any way, which may depend on all the calls before. A handler takes a session, the calls made
-- and the clients that are cached, to the session after it with its response. Retry is about a request
-- that is sent again when its connection was closed, and Access about which requests cause which calls.
-- The readers of queries, JSON and base64 are parameters, and requests are handled one after the other.
--
-- Signature models image-rs/src/signature. Digest is image/digest.rs; Reference and Namespaces are
-- image/mod.rs, over oci_client's reference as a parameter; Policy is policy/mod.rs, ref_match.rs and
-- policy_requirement.rs; Sigstore is policy/simple/sigstore.rs; Validator is mod.rs with the checks of
-- policy/simple/mod.rs, policy/cosign/mod.rs and payload/simple_signing.rs. The two loops of
-- `get_image_namespaces` run on fuel, one step more than their text has bytes, and each step shortens
-- the text (Parents, Wildcards). Lookup, Requirements, Matching, Merge, Update, Allowed and Checked hold the
-- theorems. The verification of OpenPGP signatures (policy/simple/verify.rs), the sigstore client, the
-- resource provider, file reading and YAML parsing are parameters; the registry extension
-- (policy/simple/xrss.rs) is a feature that is off. Of a cosign signature's layers sigstore says which there
-- are and whether a key verifies one of them. Error messages are reduced to their kinds.
--
-- Ocicrypt models ocicrypt-rs/src. Its blockcipher is the cipher through which an encrypted layer is read.
-- Options and the handler are mod.rs, Cipher is aes_ctr.rs. A reader is the list of what its calls give,
-- bytes or an error, and a state keeps what the authentication code has been fed. The key stream and the
-- code are parameters, with the two laws of IsLawful. Streams reads a cipher to its end, on fuel: one read
-- for each piece and one that finds the end. Sealed puts encrypting, finishing and decrypting together.
-- Keys and Layers are encryption.rs with the wrappers of lib.rs and keywrap/mod.rs: the keys of a layer,
-- wrapped into its annotations. The methods of a wrapper, base64 and JSON are parameters, and the
-- wrappers stand in a list in the order of their map's iteration. Wrapping, Rounds and Opened hold the
-- theorems, and Toy texts of options for the tests.
--
-- Registries models image-rs/src/registry/mod.rs. Config is the configuration and its checks, Handler the
-- `RegistryHandler`. A reference is ASCII text, so that its characters are its bytes; oci_client's
-- references are a parameter. Prefixes, Longest, Steps, Origins, Blocked and Tidy hold the theorems.
--
-- Pull models how an image is pulled. Media is image-rs/src/decoder/mod.rs, decrypt.rs and stream/mod.rs;
-- Store is layer_store.rs, with a `usize` of 64 bits; Layers is pull.rs; Metas is meta_store.rs with the
-- records of image.rs; Client is image.rs. It calls the models of the registry rules and of the signature
-- policy. The surroundings of a try, the registry and the file system among them, are a record of
-- functions, one for each try, so that they may answer differently each time. The handlers of the layers
-- take turns in any order: when each takes its path, and when each is done. The client also notes what it
-- has mounted. Types has the media types and digests as the formats have them; Paths, Unique, Ordered,
-- Verified, Validated and Failures hold the theorems. Unpacking an archive (stream/unpack.rs), which says
-- what bytes it has read, decompression, hashes and the set-up of decryption are parameters.
--
-- Kbs models attestation-agent/kbs_protocol/src. Token is token_provider/mod.rs; Client is client/mod.rs
-- with error.rs and what both clients share; Rcar is client/rcar_client.rs and Bearer is
-- client/token_client.rs. All that is asked of the key broker service and of the providers is a call that
-- the client notes, and an answer may depend on all the calls before. The loops run on the number of tries
-- that the source has. Resources, Evidence, Attested, Requests and Bounds hold the theorems. JSON,
-- base64, hashes, keys and the clock are parameters; the waiting between two tries, and the contents of
-- the authentication request, are left out.
--
-- Prelude has what the parts share: results and their bind, texts as lists of bytes with the searches the
-- source uses, words of bytes, association lists, decimal numbers, lists
-- that are related member by member, and lemmas on them.
--
-- Not modelled: unpacking of archives, the single key wrappers of ocicrypt-rs, the data hub
-- and its KMS plugins, attesters, and rpc services.
pub mod ApiServer
pub mod EventLog
pub mod Kbs
pub mod Ocicrypt
pub mod Prelude
pub mod Pull
pub mod Registries
pub mod ResourceUri
pub mod Signature
