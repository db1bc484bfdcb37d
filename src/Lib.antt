-- ===== src/Lib.antt =====
-- PhoneKey unlocks a Windows PC from a phone: the agent on the PC sends a challenge over TCP, the phone
-- signs it, and the agent verifies the signature and grants the unlock once.
--
-- The agent's parts and their models:
-- * windows/common/Protocol.h, Protocol.cpp (the payload that the phone signs): Protocol.
-- * windows/common/TransportInterface.h, FrameProtocol.cpp (frames with a CRC-32): Frame.
-- * windows/common/TcpTransport.cpp (the receiving thread; SendFrame; the life of the sockets and of
--   the worker thread): Receiver, Sender and Tcp.
-- * windows/agent/ChallengeGenerator.cpp, ChallengeStore.cpp (challenges and their states): Challenge.
-- * windows/common/CryptoEngine.cpp, PublicKeyImporter.cpp (signatures, keys): Signature; the
--   algorithm providers, random bytes and hash objects of the engine: Engine.
-- * windows/agent/DeviceRegistry.cpp (known phones and their key handles): Registry.
-- * windows/agent/AgentService.cpp (the protocol of an unlock): Agent; its constructor, Start, Stop and
--   destructor, and the program of PhoneKeyAgent.cpp: Service.
-- * windows/common/BluetoothTransport.cpp (a stub of the same interface, which sends nothing): Bluetooth.
-- * AgentService as the listener of TcpTransport (a connection, from bytes to bytes): Session.
-- * windows/agent/MultiDeviceManager.cpp (the list of paired phones): Paired.
-- * windows/common/HkdfEngine.cpp, SasEngine.cpp (key derivation, the PIN): Kdf.
-- * windows/common/EcdhKeyExchange.cpp (the shared secret of a pairing): Ecdh.
-- * windows/agent/DpapiStorage.cpp (encrypted files): Dpapi.
-- * windows/common/Ctap2Bridge.cpp (requests and responses of a security key): Ctap.
-- * windows/common/NamedPipeIpc.cpp (requests of the logon screen to the agent): Pipe.
-- * windows/credential-provider (the COM objects of the logon screen): Logon.
-- Prelude holds what they share: tests, lists, results, words, reads and writes of buffers, maps.
-- Examples holds concrete data, to which the theorems are applied.
--
-- How the code corresponds: a function of the model has the name of the C++ function in lower case,
-- DeserializeFrame is deserialize_frame. An object's members are a record, and a method takes them
-- and returns them. Bytes and words are numbers, and every conversion to a narrower type is written
-- as a remainder. A buffer is a list, and a read outside it is the result `fault`, so that memory
-- safety is the claim that a function never returns it. A boolean result with an output parameter
-- is `ok` or `err`.
--
-- Interaction: the receiver cuts the stream into frames and hands each to on_frame_received, which
-- reads the registry, checks the challenge store, and passes its answer to send_frame; Session.serve
-- composes them as the receiving thread does. The store is shared by threads; each of its methods
-- holds the mutex throughout, so that a history of the store is a list of calls.
-- process_unlock_response takes the store twice, and the calls that other threads make in between are
-- one of its arguments. The logon screen asks over a named pipe: get_serialization takes what
-- send_ipc_request returns, and reply_to is the server at the other end of the pipe.
--
-- Bounds and fuel: size_t has 64 bits. The receiver's inner loop runs on fuel of one more than the
-- length of its buffer, since each pass drops at least one byte. The loop of Expand has the requested
-- length as fuel, since each pass adds a byte. All other loops are structural.
--
-- Arguments of the model that stand for code outside the repository: the clock, the random bytes, the
-- results of the calls on sockets and pipes, of allocations and of QISearch; Windows CNG: the interface
-- `Cng` of Signature, an HMAC for Kdf, a digest for Ctap, and the interface `Provider` of Ecdh; and
-- DPAPI: the interface `Protection` of Dpapi, and for Paired whether it encrypts a buffer.
--
-- Close of the transport may meet the worker thread at accept: what the two do to each other is an
-- argument (Race of Tcp), and the theorems on sockets say which are lost by it. Stop of the pipe server
-- may meet the wait for a client (Stopping of Pipe).
--
-- Not modelled: Stop of the pipe server between the wait of its thread and the closing of the pipe,
-- calls of Close and Connect from two threads at once, frames that other threads send between the
-- answers of a connection (SendFrame keeps each frame whole), the lines on the console, and the Android
-- application, which is the other end of the protocol.
pub mod Agent
pub mod Bluetooth
pub mod Challenge
pub mod Ctap
pub mod Dpapi
pub mod Ecdh
pub mod Engine
pub mod Examples
pub mod Frame
pub mod Kdf
pub mod Logon
pub mod Paired
pub mod Pipe
pub mod Prelude
pub mod Protocol
pub mod Receiver
pub mod Registry
pub mod Sender
pub mod Service
pub mod Session
pub mod Signature
pub mod Tcp
