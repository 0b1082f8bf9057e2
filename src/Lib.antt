-- ===== src/Lib.antt =====
-- Verification of the native components of Mjolnir, the Rust crates under native/.
--
-- The parts and the files that model them:
-- - Protocol: native/mjolnir_protocol/src/lib.rs, the frames of the shell protocol. A `String` is
--   its UTF-8 bytes, an `i32` the integer it holds, a reader its bytes and how the stream ends.
-- - Gateway.Config, its Names, Settings, Load and Dropins, and Gateway.San:
--   native/mjolnir_gateway/src/config.rs.
--   `validate_and_normalize` is one function for each of its loops, composed in its order; each
--   loop passes on the list that the source pushes to. Gateway.Route is route.rs, Gateway.Classify,
--   Gateway.Pool and Gateway.Subdomain are the enums, `classify`, `ConnectionPool` and
--   `parse_z32_subdomain` of main.rs. The loaded configuration makes the route table, `classify`
--   asks the table, and a tunnel's text is read by `parse_z32_subdomain`.
-- - Gateway.Headers, Gateway.Tunnel and Gateway.Handler: the rest of the way of a request in
--   native/mjolnir_gateway/src/main.rs, the header functions, `setup_iroh_proxy` with
--   `handle_iroh_connection`, and `handle_connection`. Gateway.Parked is parked.rs, Gateway.Sites is
--   sites.rs and, in its Serve, sites_serve.rs. `handle_connection` calls the other parts and ends in
--   an `Outcome`, the place where the connection is handed on, with the state that is shared.
--   Gateway.Certs is the choice of certificates in tls.rs, their reuse in acme.rs and the `TlsState` of
--   main.rs, in its ACME mode where a renewal is concerned; a renewal is a tick of `renewal_loop`.
-- - BlobDoor: native/mjolnir_blob_door/src. Store is store.rs and memory.rs, Put is put.rs, Cache
--   is cache.rs, Http and Router are http.rs with pump.rs. A handler takes the state of the door,
--   the canonical store's and the cache's, and gives its response and the state after it.
-- - Biscuit: native/mjolnir_biscuit/src/direct_challenge.rs. Bind is the signed bytes, Issue the
--   checks before a credential is issued.
-- - Guest: native/mjolnir_guest_agent/src. Channels and Hex are from vsock.rs, Mail is consume.rs,
--   Secrets and Env are from secrets.rs, Names from tmux.rs and vmgenid.rs.
-- - Login: native/mjolnir_api/src/auth.rs. Token is the stored token and `load_token_at`, Device the
--   loop of `device_login`, Loopback `accept_loopback`, Base64 the encoder. A call takes the token
--   file and gives it back, since the source holds a lock from its reading to its writing.
-- - Client: native/mjolnir_client/src. Keys is the `KeyNormalizer` of connect.rs, Encode the quoting
--   and encoding of connect.rs with `frame_chunk` of sites.rs, Cipher the XChaCha20 of sites.rs.
-- - Base holds the shared definitions: Boolean tests, lists, texts, bytes, results, decimals,
--   UTF-8, words and classes of characters.
-- - Tests holds the theorems at concrete inputs.
--
-- Texts are lists of Unicode scalar values, and their length counts UTF-8 bytes where the source
-- calls `len`. Machine integers keep their wrap-around and their saturation written out. The
-- loops over lists are structural; `allocate_channel` runs its 255 rounds, which are shown to be
-- enough; `decimal` has fuel for 39 digits, which is enough for any `u128`. The two rounds of
-- `handle_iroh_connection` are those of the source. The key normaliser and the cipher run for as many
-- rounds as they have bytes, and each round takes one at least. The waits of `read_until_headers` and
-- `device_login` are lists of what the outside answers, in its order.
--
-- Functions of libraries are parameters: the parsers of TOML and of socket addresses, the z32 and
-- base 58 decoders, BLAKE3, the identity library, the overlay network, the HTTP client, tower-http's
-- `ServeDir` and `ServeFile`, the decoder of a JWT's claims,
-- the parsers of certificates. What the system does in a call (a write
-- that fails, a file that is not removed, the time) is an input of the call. Handlers run one at a
-- time; the admission lock makes a promotion one step, and the token's lock a renewal.
--
-- Not modelled: logging, sockets and the accept loops, the copying between two streams, the TLS
-- library and the ACME orders,
-- the text of the parked page, what the commands of cryptsetup do, terminals, the S3 store, the
-- client's HTTP calls and printing, the quoting for a shell of Windows, the Elixir control plane.
-- The sum of the time and a grant's life in `device_login` has no bound of 64 bits, and the clock there
-- does not go back.
pub mod Base
pub mod Protocol
pub mod Gateway
pub mod BlobDoor
pub mod Biscuit
pub mod Guest
pub mod Login
pub mod Client
pub mod Tests
