-- ===== src/Lib.antt =====
-- The TLS stack of goktls, a fork of Go's crypto/tls that hands the record protection over to the
-- Linux kernel. Modelled are the record layer, sending and receiving records, the hand-over to the
-- kernel, the handshake messages, session tickets and their cache, and the choice of versions,
-- protocols, cipher suites and signature schemes. Paths are from the repository's
-- root.
--
-- The parts and how they meet. A Conn (conn.go) has two half connections, in and out, each with a
-- cipher, a MAC and a sequence number. Writing cuts data into records, which encrypt protects and
-- which go to the network, or hands them to the kernel where the cipher is kTLSCipher; reading is
-- the reverse, and delivers each record by its type. At the end of a handshake enableKernelTLS
-- gives the keys to the kernel, by socket options, and replaces the ciphers. What the kernel can do
-- is found out by init() from its release. Handshake messages are marshalled before they are sent
-- and unmarshalled by readHandshake, with the bytes kept for the transcript.
--
-- The files:
--   Base             shared names, Boolean tests, lists measured by native numbers
--   Protocol         constants of common.go and alert.go
--   Cipher           the values of halfConn.cipher, the AEADs' nonces of cipher_suites.go; Ops stands
--                    for the keyed objects of the standard library
--   Record/HalfConn  halfConn: setErrorLocked, prepareCipherSpec, changeCipherSpec,
--                    setTrafficSecret, explicitNonceLen
--   Record/Seq       incSeq, and the number that eight bytes stand for
--   Record/Padding   extractPadding and roundUp; Bytes has the tables for its bit operations
--   Record/Protect   encrypt and decrypt with their cases, and tls10MAC; Tls12, Tls13 and
--                    ContentType are about round trips, Alerts, Pending and Block about what
--                    encrypt and decrypt leave alone
--   Conn             the state of a Conn; Network stands for c.conn, the kernel's control messages
--                    and the source of randomness
--   Conn/Send        maxPayloadSizeForWrite, write, flush, sendAlertLocked, writeRecordLocked;
--                    Fragments, Plain and Room are about its loop
--   Conn/Receive     readFromUntil (Fetch), readRecordOrCCS (Fetch, Deliver, Loop), retryReadRecord
--                    (Loop); Contract and Termination have its properties
--   Conn/Interlock   c.activeCall, with which Write and Close keep apart
--   Conn/Closing     Close, CloseWrite and closeNotify; c.conn.Close is a parameter
--   Ktls/Release     the release string of init() in ktls_linux.go
--   Ktls/Features    the features that init() sets by the kernel's version
--   Ktls/Socket      the system calls, answered by a kernel that is a parameter, and their history
--   Ktls/CryptoInfo  the option values and the three functions that set them, in
--                    ktls_cipher_linux.go
--   Ktls/Enable      ktlsEnableAES, ktlsEnableCHACHA20, enableKernelTLS and the calls of it at the
--                    end of the four handshakes
--   Ktls/Read        ktlsReadRecord, ktlsReadDataFromRecord, and LimitedWriter of ktls_io.go
--   Negotiation      supportedVersions and what stands on it in common.go; negotiateALPN,
--                    supportsECDHE, pickCipherSuite and cipherSuiteOk of handshake_server.go
--   Wire             the interface of golang.org/x/crypto/cryptobyte, which is a parameter with its
--                    documented laws; Build has its Builder, Lists the loops over a String, and
--                    Extensions the loop over extensions with the switch on their type
--   Messages         handshake_messages.go: a module for each larger message, with its marshal and
--                    unmarshal; Plain and Short have the small ones, Framing what marshal methods
--                    share, Bytes the numbers of the messages that are written without a Builder;
--                    ClientHello/Binders has marshalWithoutBinders and updateBinders
--   Session          State and Ticket have ticket.go, with AES and HMAC as parameters; Cache has
--                    lruSessionCache of common.go, which Cache/Refines compares with a list of pairs
--                    in the order of last use
--   Signatures       the signature schemes of auth.go
--   Tests            concrete data, tests and examples
--
-- How code is rendered. Bytes are numbers, slices of bytes lists of them. A method on a Conn takes
-- the state and gives an Outcome, the results with the next state or a panic; methods on a halfConn
-- give a Result. marshal gives the bytes and the message that keeps them, unmarshal the message
-- or none for false. Slices that share memory are copied: no modelled function reads a slice after
-- another one has written through its alias. Locks are left out, since each modelled call holds its
-- half connection's lock throughout. Error messages are numbered.
--
-- Fuel and bounds. The loop of writeRecordLocked has the length of the data as fuel, enough where
-- each round sends a byte; a loop that does not end counts as a panic, for it does not return either.
-- readRecordOrCCS has the number of records that it may read as fuel; 17 are
-- enough from a fresh count of retries. The list of what the network will give is finite; behind
-- its end the peer has closed the connection. The loops of unmarshal have the length of what they
-- read as fuel, and each round takes a byte at least. int is 64 bits wide.
-- c.activeCall is a number of 32 bits that wraps around. The structs for the kernel are laid out by the
-- alignment of their fields, with the machine's order of bytes as a parameter.
--
-- Not modelled: the handshakes beside the calls named above, the key schedule, key agreement,
-- certificates, the making and checking of signatures, the rotation of ticket keys, the cache of
-- certificates, renegotiation and key updates; splice, sendfile and mmap; dialing; the FIPS build, of which the negotiation takes the
-- bounds as a parameter; logging.
pub mod Base
pub mod Protocol
pub mod Cipher
pub mod Record
pub mod Wire
pub mod Messages
pub mod Session
pub mod Signatures
pub mod Conn
pub mod Ktls
pub mod Tests
pub mod Negotiation
