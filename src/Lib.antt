-- ===== src/Lib.antt =====
-- loft terminates CoAP for devices: it takes datagrams over DTLS and frames over TLS, resolves the
-- device's identity to a credential, and turns CoAP requests into HTTP calls to the backend. This library
-- models the core of that program; paths are from the repository's root.
--
-- Parts, and the files that model them:
--   loft/src/coap/message.rs   Coap.Code, Coap.Message (options and uints), Coap.Wire (the encoder
--                              `encode_options_and_payload` and the decoder), Coap.Utf8
--   loft/src/coap/udp.rs       Coap.Udp (`Datagram::encode` and `decode`)
--   loft/src/coap/tcp.rs       Coap.Tcp (`encode_frame`, `try_decode_frame`, `FrameDecoder`)
--   loft/src/coap/block.rs     Coap.Block (`Block` and its methods)
--   loft/src/quota.rs          Quota (`ConnQuota::try_acquire`, the drop of `ConnPermit`)
--   loft/src/handler.rs        Handler.Block1 (`sweep_block1`, `assemble_body`), Handler.Response
--                              (`json_response`, `error_response`), Handler.Firmware (`firmware`),
--                              Handler.Route (`Handler::handle`)
--   loft/src/upstream.rs       Handler: Types (the interface `Upstream`), Upstream (`Dovecote`)
--   loft/src/psk.rs            Psk (`PskResolver::resolve`, the answers of `DovecotePskSource::fetch`)
--   loft/src/tls_common.rs     TlsCommon (`resolve_psk_identity`, `psk_callback`, and the closure of
--                              `build_config` in loft/src/dtls_mbed.rs)
--   loft/src/dtls_common.rs    Datagrams (`process_datagram`, `DedupCache`)
--   loft/src/dtls_mbed.rs      Demux (routes 1 and 2 of `listen_loop`, the map entries) and Listener:
--                              Transport (`ConnState`), Cookie (`transport_id`), Library (a call of
--                              mbedTLS as callbacks), Pending (route 3, `mint_cid`, `promote`), Thread
--                              (`session_thread`), World (all threads together)
--   loft/src/dtls.rs           Dtls: Cookie, Io (`DgramIo`), Listen (`listen_loop`,
--                              `promote_connection`), Connection (`connection_thread` and its loops),
--                              World (all threads together)
--   mbedtls-ffi-shim/src       Shim: Codes, Timer, Session, Config (the callbacks)
--   dtls-ffi-shim/src          Dtls.Shim (return codes)
--   loft/src/config.rs         Config (the parsers, `resolve_service_secret`), Env (`from_env`)
--   loft/src/tls_tcp.rs        TcpSession (`serve_frames` and the settings message before it), Guard
--                              (`GuardedTcp`), Handshake (`connection_thread`), Accept (`run_inner`)
-- Prelude has the shared notation, tests on numbers, list lemmas, bit lemmas, association lists and text
-- functions. A Defs module, or the component's own file, has the definitions; its siblings are named for
-- what they prove; a Tests module has runs and examples.
--
-- How they interact: a listener finds the session of a datagram in its maps, or puts the source through the
-- cookie exchange; a source that shows its cookie is charged to the quota and gets a thread. The handshake
-- of that thread asks the PSK callback, which resolves the identity. The datagram layer decodes with
-- Coap.Udp, replays duplicates from its cache and else calls the handler; the session loop of TLS decodes
-- with Coap.Tcp and calls the same handler; the handler keeps the Block1 table of all connections and calls
-- the backend.
--
-- State is passed explicitly. A hash map is an association list; its order matters only for the choice
-- among equally old duplicates, which the source leaves to the map. Times are natural numbers in
-- nanoseconds, and `duration_since` is subtraction that stops at 0, as in the source's library. A
-- clock that the code reads is an argument. A mutex makes the code under it one step; between the two
-- sections of the resolver others may settle. Bytes are natural numbers; integers of fixed width keep
-- their wrap-around where it can occur. Text is UTF-8 bytes. `usize` and `u64` have 64 bits; the
-- counters of connections and channels do not reach their end.
--
-- The two DTLS listeners are step relations: a datagram for the listener, a round of a session's loop, and
-- each action of a session's end are steps, and threads take them in any order. One round of a loop is one
-- step. What the TLS libraries do in a call is an argument of the step: which callbacks they run with which
-- arguments, and the code that they return. The only thing asked of OpenSSL is that its listening call
-- accepts a source after its cookie was verified. The quota is shared with the other DTLS listener, whose
-- permits stand beside those of the threads. Channels are not queues here: what a session receives is
-- an argument too, and whether its channel is disconnected follows from the phase of its thread.
--
-- The TLS listener is a step relation over arrivals and ends of threads; one of its connections is a
-- function of the attempts of its handshake and of its reads, and each attempt has the calls that OpenSSL
-- makes of the socket. Two theorems ask that the socket's timeouts of a tick are kept.
--
-- Fuel: the option decoder takes the length of its input as fuel and never runs out; the session loop
-- takes the buffer's length and one more, and more changes nothing, since a frame has two bytes or more.
-- The loops that draw random ids and random bytes run over the list of what is drawn.
--
-- The backend and the PSK source are parameters: functions from a call to its answer.
--
-- Not modelled: the C libraries of TLS and the set-up of their contexts, sockets, the HTTP client, logging,
-- and the client side of the shims, which serves tests.
pub mod Prelude
pub mod Coap
pub mod Config
pub mod Datagrams
pub mod Demux
pub mod Dtls
pub mod Handler
pub mod Listener
pub mod Psk
pub mod Quota
pub mod Shim
pub mod TcpSession
pub mod TlsCommon
