-- ===== src/Lib.antt =====
-- gcp copies files to and from a host: a client (client.go) and a server (serve.go) exchange
-- messages in frames (message/) over several TCP connections. A frame is a header of eleven
-- bytes, a CBOR message and a payload. The server authenticates a connection by an SSH key or a
-- session token (serve.go, auth.go) and then creates, writes, reads, lists and hashes files, with
-- the open files in a cache. The payloads are chunks of files, compressed and encrypted
-- (transfer.go).
--
-- Which file models what:
-- - Base: lists, text, results, dictionaries over the native numbers; Base/FilePath and Base/Crc32
--   what the program uses of path/filepath and hash/crc32.
-- - Message/Types: the messages, Type and GetID of message/message.go and message/implement.go.
-- - Message/Header: EncodeMsg (encode_msg), DecodePre (decode_pre), WriteMessage (write_message).
-- - Message/Reader: ReadMessage (read_message) over a PacketReader, and the loop of OnTraffic of
--   serve.go (on_traffic).
-- - Client/Response: readResp. Client/Receive: handleReceive, as a machine whose rounds are those of
--   the loop. Client/Rpc: genMsgID, the requests of the client's methods, what a download does with
--   a response, and processMsg (route). Client/Remote: the methods themselves, from the request to
--   the response (call_write, call_read and so on); `served` joins them to the server's process.
--   Client/Auth: clientSigner and the signers of auth.go, newClient, dialAndAuth and tokenAuth;
--   Client/Auth/Login joins these to the server, frame by frame, and Client/Auth/Uploads an upload
--   to that. Client/Pool: runConn.
--   Client/Send: handleSend.
-- - Transfer/Chunk: compressChunk, decompressChunk, encryptChunk and decryptChunk.
--   Transfer/Schedule: the loop of processChunks (process_chunks), and the writes of an upload
--   (upload, of cp_to_host.go); Transfer/Goroutines: the loop and its goroutines, as steps in any
--   order, and with its context cancelled from outside; Transfer/Schedule/Signed: the loop on int64.
--   Transfer/Resume: resumeState with its file. Transfer/Upload:
--   uploadFile, uploadFileChunk and verifyFileHash; Transfer/Download: downloadFile. Their child
--   modules are about these against the server.
-- - Server/Users and Server/Auth: verifySSHSignature, findUserByPubKey, lookupHome and the session
--   store of auth.go, and handleAuth of serve.go. Server/Cache: fdCache. Server/Files: sandboxPath
--   and the handlers. Server/Cache/Content, Server/Files/Content and Server/Files/Reading: the same
--   over files with bytes. Server/Cache/Descriptors and Server/Files/Balance: the same and the
--   descriptors that are open. Server/Dispatch: the loop body of process; Server/Dispatch/Lifetime:
--   messages and ticks one after another, up to close. Server/Workers: write, read and hash in
--   steps, of any number of workers in any order, with the ticks of sweepLoop.
-- - Cp/Address: isRemoteAddr and parseRemoteAddr of cp.go; Cp/SshConfig: sshConfigLookup of auth.go;
--   Cp/Route: copySingle; Cp/Run: the Action of cpCmd; Cp/Glob: glob.go; Cp/Walk: cp_dir.go and
--   cp_from_host_dir.go.
-- - Ls: ls.go. Progress: progressbar/progressbar.go.
-- - The modules named Fixtures, and those whose names end in Tests (but Base/Tests, which has the
--   Boolean tests on numbers): data, and the theorems at it.
--
-- Integers: a byte is a number, int64 is ℤ without overflow, lengths in a header are taken modulo
-- 2 ^ 32 as the code does, and the sizes read from one are below 2 ^ 32.
-- Fuel: on_traffic takes a round for each call of ReadMessage and needs one more than the bytes
-- that are buffered; receive takes a round for each pass of the loop and needs more than four for
-- each byte that arrives; process_chunks takes a round for each chunk and needs more than the
-- bytes of the file; walk_remote_dir takes one for each level and needs more than the directories
-- of the tree. The retries are no fuel: their number is
-- an option of cp.
-- Chunk sizes are natural numbers but in Transfer/Schedule/Signed, where the loop is on int64.
-- The files of accounts are read anew at each request: Server/Auth has them in each AuthEvent. In
-- Server/Dispatch and what builds on it they are one parameter, so there they stay as they are.
--
-- Libraries are parameters: CBOR (Codec), the network library's connections (PacketReader, Conn),
-- SSH (Ssh) and where its keys are (Keys), the files of accounts (Accounts), the operating system
-- (Os), the file that an upload or a download writes (Target, Local), gzip (Gzip), secretbox
-- (SecretBox), SHA-256 and rand, what cp asks of the machine and of the hosts (Env, Dirs, Files,
-- Home and the two records Machine), sort.Slice, and the formats of ls and of the progress bar
-- (Format, Report), and for what sizes make has room (has_room of Host). What carries the
-- client's requests is one too (Remote), where the theorems are not about the server. What is
-- assumed of one is a hypothesis of the theorem: IsBuffered, RoundTrips, Inverts, Opens, IsFile,
-- IsLocal, IsFileSystem, Reads, Full, Descriptors, HasOffset, RefusesNegative, Sorts,
-- KeepsMembers.
--
-- Not modelled: logging, deadlines, cancelling a context (but in Transfer/Goroutines), waiting,
-- the wording of error texts where a library words them or a value is printed into them. The
-- steps of workers at work together are those of write, read and hash: io.Copy is one of them,
-- and create, stat, readDir and the sessions, which do not use the cache, are left to
-- Server/Dispatch, where a message is one step. In Transfer/Upload and Transfer/Download the
-- goroutines of the chunks run one after another, in an order that is a parameter; the progress
-- channel and the removal of the state file at the end are not modelled. Close of the client, the
-- declaration of the flags, main and the logger are not modelled: they are glue.
pub mod Base
pub mod Message
pub mod Transfer
pub mod Server
pub mod Client
pub mod Cp
pub mod Ls
pub mod Progress
