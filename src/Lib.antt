-- ===== src/Lib.antt =====
-- ldap3: an LDAP client library for Rust, with lber, its BER encoder and parser.
--
-- Parts of the program and the files that model them. Paths are from the repository's root.
--
-- lber/src/structure.rs, common.rs, universal.rs: Ber/Structure and Ber/Universal. A `StructureTag` is
-- a class, a number and a payload, `P` octets or `C` tags.
-- lber/src/write.rs: Ber/Write (`encode_into`, `encode_inner`, `write_type`, `write_length`).
-- lber/src/parse.rs: Ber/Parse (`parse`, `parse_tag`, `parse_type_header`, `parse_length`,
-- `parse_uint`).
-- lber/src/structures: Ber/Asn. `Tag` has the constructors of the source, with the fields of each
-- struct; `into_structure` is the trait's method. Ber/Generic has `SequenceOf` and `SetOf`.
-- src/filter.rs: Filter/Unescaper, Filter/Lexical, Filter/Items and Filter/Grammar, a parser for
-- string filters. A parser of the source is a function on octets of the same name.
-- src/util.rs: Util/Escape (`ldap_escape`, `dn_escape`), Util/Unescape (`ldap_unescape`) and Util/Url
-- (`get_url_params`), where the list of extensions, in their order in the URL, stands for the `HashSet`.
-- What the crates url and percent_encoding give for a text is a parameter.
-- src/controls_impl.rs: Controls/Types and Controls/Codec (`build_tag`, `parse_controls`).
-- src/controls_impl/paged_results.rs: Controls/Paged (`raw_control`, `parse_paged`).
-- src/controls_impl/content_sync.rs: Controls/Sync (`sync_request_control`, `parse_sync_state`,
-- `parse_sync_done`, `parse_syncinfo`). A `HashSet` of identifiers is the list of them without
-- repetitions.
-- src/controls_impl/read_entry.rs, assertion.rs, matched_values.rs, proxy_auth.rs, txn.rs,
-- manage_dsa_it.rs and relax_rules.rs: Controls/Simple, a function for each `From` of the source, and
-- `parse_read_entry`. Controls/Value is the call of `parse_tag` that all parsers of values make.
-- src/exop_impl: Requests/Exops (`password_modify`, `end_txn`, `parse_gen_pass`, `parse_end_txn`).
-- src/protocol.rs: Protocol/Codec (`encode`, `decode_inner`). A message is built from a tag and
-- controls, goes through `into_structure` and the encoder, and comes back through the parser.
-- Protocol/Sasl is the codec of a build with the gssapi feature (`encode`, `maybe_wrap`, `decode`), whose
-- state has the parameters of the layer and the security context that it shares with the handles.
-- src/result.rs: Result/Types and Result/Convert (`from_tag` is `LdapResultExt::from`), with `parse_refs`
-- of src/search.rs, and Result/Wrappers (`search_success`, `exop_success` and the like).
-- src/ldap.rs: Conn/MsgId (`next_msgid`) and Requests/Build, which has the request of every operation but
-- Search, with `construct_exop` of src/exop_impl.rs. Requests/Call has `op_call`, where an `Answer` says
-- what comes of the wait, and `perform`, which makes the request of an operation and calls it;
-- Requests/Call/Completes joins it to the connection. Requests/Binds has the binds of several requests:
-- an `Exchange` is the requests that a method sends and what it does with each result, and `run` gives
-- it results. Requests/Binds/Gssapi is `gssapi_bind`, which installs the layer in the codec of
-- Protocol/Sasl, and Requests/Binds/Ntlm is `sasl_ntlm_bind`.
-- src/conn.rs: Conn/Turn. `arm` handles one event and says what the connection sends; `turn` is the
-- loop over a list of events. Conn/World has the states that a connection and the handles that share
-- its map of ids reach together: a handle takes an id by `next_msgid`, the connection handles an event.
-- Requests and scrub requests come over two channels, so that a scrub may be handled before the request
-- of its id, after a timeout in `op_call`: the field `overtaken` has the ids to which that happened, and a
-- theorem on the state of an id says whether it may be one of them. Conn/Overtaken is about such an id.
--
-- src/search.rs: Search/Stream, a `SearchStream` without adapters (`next`, `finish`), where what the wait
-- for an item comes to is an argument. Search/Request has the options and the request of a search.
-- Search/State joins a stream to its handle and to the world around it: a list of what the next calls of
-- `op_call` come to, each with the list of what the waits on its channel come to, and the requests and
-- scrub requests that were sent. Search/Chain has `start`, `next` and `finish` with a chain of adapters,
-- and `search` and `streaming_search_with` of src/ldap.rs; `search_with` is `search` with any
-- chain. Search/Construct has `SearchEntry::construct`, with association lists for the hash maps.
-- src/adapters.rs: Search/Adapters (`entries_next`, `paged_next`). A stream calls its adapters, and an
-- adapter calls the stream with the next index: the chain is a list, and an adapter gets the call of
-- the rest of it as a function.
--
-- Opening a connection (src/conn.rs): Conn/Establish (`from_url_with_settings`, `new_tcp`, `new_unix`,
-- `conn_pair`), in a build with TLS on a Unix platform. What sockets, the TLS handshake and the timer do
-- is the record `Outside`, which also has the events of the connection during StartTLS. The handshake
-- itself is `create_tls_stream` of Conn/Establish/Rustls or of Conn/Establish/Native, one for each TLS
-- feature, over the crates as parameters; `with_rustls` puts the first into an `Outside`. The token of
-- the end point of a channel and the certificate of the peer are in Conn/Establish/Endpoint and
-- Conn/Establish/Native.
--
-- src/sync.rs: Sync (`LdapConn`, `EntryStream`), whose methods come to what the asynchronous ones come to.
--
-- The crate nom is not part of the repository. The combinators that the code uses are the fields of
-- the records `NomStreaming` and `NomComplete` in Nom/Laws, and what the crate documents of them is
-- `IsNomStreaming` and `IsNomComplete`; every definition that calls them takes them as a parameter.
-- Nom/Concrete gives a function for each and proves that they satisfy the laws.
--
-- The crates cross_krb5 and sspi are parameters too: the record `Gssapi` of Protocol/Gssapi, with what the
-- crate documents of wrapping and unwrapping in `IsGssapi`, and the record `Sspi` of Requests/Binds/Ntlm.
--
-- An octet is a natural number, and a theorem that needs it below 256 says so. A `u64`, a `usize` and
-- an `i64` have 64 bits, with the wrap-around written out. A string is its UTF-8 octets, and
-- Common/Utf8 decides which octets are a string. A panic (`expect`, `unwrap`, an index out of bounds)
-- is the outcome `panic`, an error value is `err`.
--
-- Recursion: the parser of tags runs on fuel, three times the number of octets of its input and one,
-- and the filter parser on four times the number of octets and four; fuel that runs out gives a failure,
-- which the parser of tags is proved not to return. The loops that count octets run on as much fuel as a 64-bit number needs, and the search for
-- a free message id on the number of ids. The loops of the adapters and of `search` run on fuel and
-- are left waiting when it is out; the theorems on them say how much is enough, by the number of
-- messages and of pages.
--
-- Not modelled: sockets, the inside of the TLS crates and the tokio runtime, adapters that a user
-- writes, the time that passes before a timeout, and the parsing of a URL as such, which the url crate
-- does.
pub mod Ber
pub mod Common
pub mod Conn
pub mod Controls
pub mod Filter
pub mod Nom
pub mod Protocol
pub mod Requests
pub mod Result
pub mod Search
pub mod Sync
pub mod Tests
pub mod Util
