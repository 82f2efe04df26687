-- ===== src/Lib.antt =====
-- Sendan: an end-to-end encrypted file sharing server, and its command line client.
--
-- The server keeps two stores that must stay consistent. The metadata store (internal/store) is a table
-- of uploads, with their lifetimes, download limits, token hashes and at-rest keys; the blob store
-- (internal/blob) is a tree of files, encrypted under the at-rest key of their row. The upload service
-- (internal/upload) is the one part that writes both: it creates a row, appends chunks, finishes the blob,
-- completes the row, serves it to whoever holds the token, and deletes row and blob. The limiter
-- (internal/ratelimit) bounds the guesses at a token. The HTTP handlers call the service. A second
-- protocol (internal/compat) writes both stores too, and keeps a table of its own beside the uploads.
--
-- The files, by the code they model:
--   Prelude/ holds the tests, lists, errors, octets and integers that all share.
--   Crypto/Aead is AES-GCM as a record of laws, a parameter; Crypto/Padding is the padding in
--   internal/crypto/metadata.go. Crypto/Content is the encoder of internal/crypto/content.go and
--   Crypto/Content/Decryptor its decoder; Reference is the encoding as a function of the plaintext, and
--   Writing, Encrypting, Delimiters, Decrypting, Draining, Headers, RoundTrip, Nonces and Lengths prove.
--   Store/Upload is internal/store/store.go with the checks of sqlite.go; Store/Table is sqlite.go over
--   the statements of sql.go, a table being the list of its rows; Store/MasterKey is masterkey.go and
--   rekey.go. Store/Lookup, Dead, Reading, Writing, Soundness, Invariant and MasterKey/ prove; the
--   histories of Invariant range over every operation that writes, the ones of Compat/Rows included.
--   Blob/Names is the naming of files in internal/blob/fs.go and spool.go, Blob/Files their operations on
--   a map of paths to bytes, Blob/Counter the counter block of shred.go, Blob/Shredder its cipher stream
--   and the operations over it. Blob/Uploading, Octets and Shredding prove. Blob/Objects is what the code
--   calls of an S3 object store, with its laws, Blob/Memory one that keeps them, and Blob/Multipart is
--   s3.go and s3multipart.go over it; Listing, Filling, Assembly and Publishing prove.
--   Ratelimit/Limiter is internal/ratelimit/ratelimit.go over Ratelimit/Float, the floating point numbers
--   as a record of laws; Ratelimit/Buckets proves. password.go is the same limiter under other limits.
--   Upload/Attempts is what the service needs of password.go, filled by the limiter; Upload/Policy,
--   Service, Request and Tus are upload.go with auth.go and metadata.go, and tusstore.go, under
--   internal/upload. Upload/Sweep is the loop of RunReaper; Upload/Deletion, Access, Creation and
--   Lifecycle prove.
--   Config is the rules of internal/config/config.go and the policy that cmd/sendan/main.go makes;
--   Config/Abandoning proves of it and the reaper together.
--   Prune is tools/registry-prune/main.go, which deletes old builds from the container registry;
--   Prune/Protecting, Growing, Planning, Newest and Running prove.
--   Http/ClientAddr is internal/httpapi/clientaddr.go; Http/Forwarding proves.
--   Compat is the third-party protocol of internal/compat: Compat/Rows is internal/store/compat.go,
--   Compat/Auth is auth.go, Receiving is upload.go, and Serving is the handlers of compat.go, download.go
--   and password.go. Lookup, Granting, Replay, Sound, Running, Keeping, Invariant, Transfer, Fetching,
--   Delivery, Cleanup, Counting and Protecting prove.
--   The modules called Tests apply the theorems at concrete values.
--
-- State is passed explicitly. A call that the operating system, the database driver or the random source
-- can fail has a Boolean argument that says whether it does, and an operation returns the state it
-- leaves also when it fails, so that partial effects are visible. Errors that Go wraps are the error
-- itself, since `errors.Is` sees through the wrapping; log lines are dropped. A mutex or a transaction
-- makes an operation one step. A time is a number of nanoseconds since the zero time, and a column of
-- the table holds whole seconds. Fields that are tested for a negative value are integers.
-- All recursion is structural, in three components on fuel. In internal/crypto/content.go the loop of
-- `Write` has a round for each byte, and takes at least one in each; that of `Read` has two rounds,
-- since only a final record is empty. The sweep of `RunReaper` has passes as fuel: one more than the
-- table has rows is enough, since a full batch removes a row. In internal/blob/s3multipart.go the loop
-- of `writeChunk` has a round for each byte and one more, and a round takes at least one byte; a listing
-- is followed for as many pages as the object store says it can have.
--
-- Parameters: the block cipher and the key derivation (Blob/Shredder), AES-GCM, HKDF (ContentKeys in
-- Crypto/Content), SHA-256 (an argument `digest`), the floating point numbers of the limiter, tusd,
-- whose requests are arguments, the object store (Blob/Objects), the container registry, the functions of
-- `net` and `strings` (NetLib in Http/ClientAddr), HMAC, base64 and the string functions of the
-- third-party protocol (Library in Compat/Auth), and the JSON decoder of its header. Each record of laws
-- has a value, so the laws can hold.
--
-- Not modelled: the PostgreSQL backend, the parsing of the storage URL, the HTTP handlers of
-- internal/httpapi, the websocket and the JSON of internal/compat, the client and its key schedule, the
-- reading of the environment, the verification of manifests, the web application and the other tools.
-- The write-ahead log of SQLite has no counterpart: a table holds what its rows are.
pub mod Prelude
pub mod Crypto
pub mod Blob
pub mod Ratelimit
pub mod Store
pub mod Upload
pub mod Config
pub mod Prune
pub mod Http
pub mod Compat
