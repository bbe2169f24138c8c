-- ===== src/Lib.antt =====
-- Veil VPN: the WireGuard protocol of the tunnel and the accounting of bandwidth that is paid for.
--
-- The program is a user-space WireGuard implementation (protocol/boringtun) whose server lets a
-- peer send only as many bytes as it has paid for. One `Tunn` per peer holds a handshake, a ring of
-- eight sessions, a queue of packets that wait for a session, timers, and a rate limiter that
-- tunnels of a device may share. The device feeds it packets from the interface (`encapsulate`),
-- datagrams from the network (`decapsulate`) and ticks of the clock (`update_timers`), and sends on
-- what comes back. The device finds the peer of a packet by key, index or address, and charges what
-- it forwards to the quota of the peer. A peer whose quota is exhausted is asked to pay; its device
-- signs a payment with the wallet that is derived from its key, and the server checks it, settles
-- it at a gateway and credits the quota.
--
-- The files, and the code that each models (paths below protocol/boringtun/src):
--   Prelude              shared names, lists, bits of a word, bytes
--   Noise/Errors         noise/errors.rs
--   Noise/Crypto         the cryptographic crates as a record `Crypto` of functions with their
--                        documented laws `CryptoLaws`, and the wrappers of noise/handshake.rs
--   Noise/Window         noise/session.rs, `ReceivingKeyCounterValidator`
--   Noise/Session        noise/session.rs, `Session`
--   Noise/Packet         noise/mod.rs, the message formats and their parser
--   Noise/Handshake      noise/handshake.rs: State (parameters, states, indices, MACs), Chain (the
--                        key chain), Initiation and Response (the two messages and cookies)
--   Noise/RateLimiter    noise/rate_limiter.rs, and `TunnResult` of noise/mod.rs
--   Noise/Timers         noise/timers.rs, the timers
--   Noise/Tunn           noise/mod.rs and noise/timers.rs, the tunnel: Send, Receive, and Clock for
--                        `update_timers`
--   Payment/Quota        payment/quota.rs
--   Payment/Protocol     payment/protocol.rs: Required, Submit and Accepted for the messages, Signal for
--                        the packets around them
--   Payment/Config       payment/mod.rs, the configuration and its signing domains
--   Payment/Wallet       payment/wallet.rs; the crates for keys and hashes as a record `Ethereum` with
--                        their documented laws `EthereumLaws`
--   Payment/Authorization payment/eip3009.rs
--   Payment/Settlement   payment/settlement.rs; the HTTP client and the JSON reader as a record `Http`
--   Payment/Transaction  payment/tx.rs
--   Payment/Rpc          payment/rpc.rs; the HTTP client, JSON and the chain's node as a record `Node`
--   Payment/Deposit      payment/deposit.rs
--   Device/IndexLfsr     device/mod.rs, the register that gives peers their indices
--   Device/AllowedIps    device/allowed_ips.rs; the crate for tables of networks as `NetworkTable` with
--                        its documented laws `NetworkTableLaws`
--   Device/Peer          device/peer.rs
--   Device/State, Table  device/mod.rs, the state of a device and the tables of its peers
--   Device/Payments      device/mod.rs, `send_payment_required`, `handle_payment_submit` and
--                        `handle_payment_signal_client`
--   Device/Gate, Inbound, Outbound  device/mod.rs, the enforcement of the quota and the handlers of
--                        datagrams and of packets from the interface, one round of their loops
--   Device/Setup         device/mod.rs, `set_key`, `open_listen_socket` and `set_fwmark`
--   Device/Keys          serialization.rs; the base64 crate is a parameter
--   Device/Lines, Api    device/api.rs, the command `set=1`
--   Device/Ticks         device/mod.rs, the handlers of `register_timers`
--   Device/Traffic       rounds of the handlers in any order
--   Examples             each theorem at a concrete input, under a toy cryptography that meets the
--                        laws, and tests of the definitions
--
-- How the code is read. A record stands for a struct; a method is a function from the state and its
-- arguments to the state and its result, so an atomic counter or a field behind a lock is a plain
-- field, and a call is one step. `Result` is the code's, with `WireGuardError`; `none` is a panic.
-- A destination buffer is its length, and the bytes written are returned. Words are natural numbers
-- with their wrap-around written out; a duration is a number of nanoseconds, its subtraction panics
-- below zero, and the difference of two instants stops at zero. Random keys, the stamp of the
-- system clock and the monotonic time are inputs of a call, and a call reads the monotonic clock at
-- one instant. An array that is indexed by an enum is a function on it. The encryption buffer of a
-- datagram is not modelled, only its contents.
--
-- Bounds and fuel. The three loops of `mark_did_receive` run on fuel; Noise/Window/Loops proves
-- that the fuel given is enough. The loop that flushes a queue runs on fuel for a full queue and an
-- initiation, which Device/Inbound/Flushed proves enough. `fold_carries` of the checksum folds
-- three times, which is enough for a header of up to 60 bytes. The window's theorems ask that a
-- counter plus 1024 stay below 2^64.
--
-- Peers are shared by handles: an `Arc<Mutex<Peer>>` is a position in the list of all peers that
-- were made. A socket is a number, to shut one down succeeds, and the gateway answers a request
-- always in the same way. The parsers of IP and socket addresses are a parameter. The loops of the
-- handlers over what is ready on a socket, up to 100 datagrams, are sequences of rounds.
--
-- Not modelled: the event loop with its threads and file descriptors, the start of a device, the
-- command `get=1` and the HTTP interface, bindings, the loss estimate of `stats` (floating point),
-- the desktop client, and the parts of the repository that are not Rust.
pub mod Prelude
pub mod Noise
pub mod Payment
pub mod Device
mod Examples
