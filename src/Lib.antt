-- ===== src/Lib.antt =====
-- AsyncSSH: a client and server of the SSH protocol, written in Python (package asyncssh).
--
-- The program's parts. A connection (asyncssh/connection.py) cuts the bytes of a transport into packets
-- and hands each to the handler of its type; handlers read the fields of a packet with the decoder of
-- asyncssh/packet.py. The packets of a channel go to its SSHChannel (asyncssh/channel.py), which keeps the
-- windows and buffers of both directions and calls the session that owns it.
--
-- Base has what the parts share: tests, lists and byte strings over the native numbers, Python's exceptions as
-- the type Error, and Python's int methods (Base.Bytes, Base.Int). A byte string is a list of numbers. The error
-- out_of_fuel is no exception of the program: a model's loop answers it when its bound on rounds is used up.
--
-- Packet is asyncssh/packet.py: Byte, Boolean, UInt16, UInt32, UInt64, String (of bytes), MPInt and NameList are
-- byte, boolean, uint16, uint32, uint64, string, mpint and name_list, and the class SSHPacket is the record
-- SshPacket with init and the get_ methods. A method returns its result beside the new state, since what a
-- failing method has consumed stays consumed. Encoding text as UTF-8 is left to the caller. The logger and the
-- dispatch table of SSHPacketHandler are not modelled.
--
-- Channel is the data path of the class SSHChannel of asyncssh/channel.py with no encoding set. The record
-- Channel (Channel.Types) has the fields of the object; _send_chan, the session and the connection that may be
-- None are an Option and two flags. Packets that the channel hands to the connection are appended to out, and
-- calls of session methods to events; a scheduled call of _cleanup is a flag. Channel.Send has _close_send,
-- _pause_resume_writing and _flush_send_buf, Channel.Receive has write_eof, _deliver_data, _flush_recv_buf,
-- _accept_data and _discard_recv, and Channel.Handlers the packet handlers and the public methods, under the
-- source's names less the leading underscore. The sending loop of _flush_send_buf takes fuel, as much as bytes
-- and entries of the buffer. A session is what a session object answers: whether data_received calls
-- pause_reading, and what eof_received returns; it makes no other call of the channel from a callback.
-- Channel.Owner puts the calls of owner and peer in sequence, from the opening until the cleanup. Not modelled:
-- logging, channel requests and their queue, text encodings and the subclasses of SSHChannel.
--
-- Socks is the class SSHSOCKSForwarder of asyncssh/socks.py, the handshake of a SOCKS 4 or 5 client. Socks.Machine
-- has the record Forwarder, whose fields are those of the object, and the handlers under the source's names less the
-- leading underscore; _recv_handler is a Handler and _bytes_needed a Needed. Calls of forward are appended to
-- forwarded and bytes for the client to written. Socks.Receive has data_received for a forwarder that has no peer
-- yet, its loop on fuel: nine rounds more than the input has bytes. Which bytes are UTF-8 is a parameter, and the
-- texts that ip_address and decode make of bytes are left as those bytes.
--
-- Encryption is asyncssh/encryption.py with asyncssh/mac.py. Encryption.Shims has the data type Encryption, a
-- constructor for each subclass, and encrypt_packet, decrypt_header and decrypt_packet, by cases on the class as the
-- methods are (basic_, etm_, gcm_, chacha_); Mac, sign and verify are the MAC classes. Encryption.Ciphers has the
-- classes that these objects hold, BasicCipher and GCMCipher of asyncssh/crypto/cipher.py and ChachaCipher of
-- asyncssh/crypto/chacha.py, with the way to their next nonce and their tags; the ciphers below them are those of the
-- package cryptography, the record Package, and PackageLaws (Encryption.Inverting) is what the package documents of
-- them. The shims take the classes as a record Primitives, filled by ciphers, with CipherLaws, filled by cipher_laws;
-- the digests of hmac and libnettle are parameters. The fallback of chacha.py to libnacl is not modelled. The MAC of the
-- source compares tags for equality, and so does verify.
--
-- Connection is the transport of the class SSHConnection of asyncssh/connection.py. The record Connection
-- (Connection.Types) has its fields, those of one direction in records of their own: Sending, Receiving and Keys.
-- Connection.Send has send_packet and the methods that send, Connection.Keys _choose_alg, send_newkeys and
-- _process_newkeys, Connection.Receive _recv_version, _recv_pkthdr and the part of _recv_packet that makes a payload,
-- Connection.Handlers the handlers of transport messages, Connection.Dispatch the rest of _recv_packet, the loop of
-- _recv_data and its handling of errors, and Connection.Calls the calls from outside. A World has the objects that the
-- transport uses, encryption, compression and random bytes; Connection.Objects fills it with the classes of Encryption
-- and a System. send_packet calls itself through _send_kexinit and for MSG_IGNORE, and takes fuel 4: for a packet, an
-- ignore packet ahead of it, the start of a key exchange if the keys have become too old just then, and an ignore packet
-- ahead of that. The clock is a function of the moments at which it is read, one for each call. The loop of _recv_data
-- takes one round more than twice the bytes in the buffer. Parts are what a connection calls and what stands elsewhere:
-- process_packet of key exchange, authentication and channels, the handlers of other messages, try_next_auth, and the
-- text of an exception. A packet that is handed to a coroutine blocks the connection until finish_task. What the
-- connection was given and what it sent is logged in delivered and sent, which the program only logs. The algorithms
-- that _send_kexinit offers are given as they come out of expand_kex_algs. Not modelled: timers, logging, sockets, the
-- callbacks of the application, and a waiter that was cancelled, which counts as none.
--
-- Requests is the queue of the peer's global requests in asyncssh/connection.py: _process_global_request,
-- _service_next_global_request and _report_global_response. The handlers are a Service; a handler reports at once, leaves the
-- report to a task, or raises. The packets of replies are appended to calls, as calls of send_packet that return.
--
-- Asn1 is the framing of objects in asyncssh/asn1.py: _encode_identifier, the length that der_encode writes, and
-- der_decode_partial up to the content. The loop over a long tag takes as much fuel as the tag. The classes of values are not
-- modelled.
--
-- Pattern is asyncssh/pattern.py, for texts as lists of characters: PatternList is _PatternList with what build_pattern
-- made, and host_list_matches and wildcard_list_matches are its two subclasses. fnmatch and the package ipaddress are a
-- Matching.
--
-- Sftp is asyncssh/sftp.py. Sftp.Parallel has the classes _SFTPParallelIO and _SFTPFileReader: ParallelIo is the state of
-- the object, and an Iteration a run of iter with what it has yielded. The tasks and asyncio.wait stand for the peer's
-- answers in any order: a schedule says, for each round, which of the waiting tasks end and with which Outcome. The loop of
-- _start_tasks takes as much fuel as the requests that it may make. Sftp.Multiplex has the table of requests of
-- SFTPClientHandler: _send_request, _make_request up to its wait, recv_packets, _process_packet and _cleanup, with send_packet
-- of SFTPHandler. Futures are numbered as they are created; a future that ends does so in settled. The stream that packets are
-- written to may raise a ConnectionError, which a request is told by a flag. Sftp.Attrs is SFTPAttrs.encode, and
-- Sftp.Attrs.Decode its decode, for the versions 3 to 6; a text is given as its UTF-8 bytes and no int is negative. The
-- digits of a decimal number take as much fuel as the number. Sftp.Status has the encoding of SFTPError and of
-- SFTPUnknownPrincipal, SFTPError.construct and _process_status; an SftpError is an error with its code, and with names if it
-- is of that subclass. The loop over names takes one round more than the packet has bytes.
--
-- Not modelled: _process_kexinit and the methods of authentication, the rest of SFTP, SCP, the agent,
-- configuration and the operating system's interfaces. Ciphers, hashes and asyncio are code of other packages.
mod Base
pub mod Packet
pub mod Channel
pub mod Socks
pub mod Encryption
pub mod Connection
pub mod Requests
pub mod Asn1
pub mod Pattern
pub mod Sftp
