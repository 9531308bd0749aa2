-- ===== src/Lib.antt =====
-- Kymux carries video, audio, input, data and metrics between two peers over QUIC. This library
-- models its packet formats, its endpoints and its video protocols.
--
-- The parts, and how they interact:
-- * Packets (kymux-types/src). Serial is the trait `Serializable` with the loop `forward`; Av, and
--   below Packets Data, Input and Metrics, are the packet kinds that implement it over the byte
--   reader of Wire. `IsFaithful` is the interface between the kinds and `forward`.
-- * Sequencer (kyproto/src/protocol/driver/util/seq.rs) counts on from numbers that wrap around.
-- * Video (kyproto/src/protocol/driver/av/video_unreliable.rs): Sender is
--   `VideoUnreliableProtocolSendDriver`, with its cut into datagrams; Segments is
--   `DatagramSegments`, Group `PendingGroup`, Groups `PendingGroups`, and Receiver the loop
--   `process` that drives them with two sequencers. Schedule says what a sender has sent, and
--   Receiver/Steps which messages it makes; a step is one message or one deadline, and
--   Receiver/Order has the runs of steps. Each module's invariant (Segments/Partial,
--   Group/Invariant, Groups/Invariant) is the one that the next uses.
-- * Fec (kyproto/src/protocol/driver/av/fec.rs) is the validation of media with forward error
--   correction: Decoder is `ObjectDecoder`, Media has `media_packet` and `read_stream_packet`.
-- * VideoFec (kyproto/src/protocol/driver/av/video_unreliable_fec.rs) is that video, on top of Fec:
--   Sender is `VideoUnreliableFecProtocolSendDriver`; for the receiver Segments, Group and Groups
--   are `DatagramSegments`, `PendingGroup` and `PendingGroups`, Choice `next_packet` and
--   `take_next_packet`, Receiver the loop `process`. Group/Invariant, Group/Symbols, Groups/Order,
--   Groups/Retirement, Groups/Admission and Groups/Budget carry the invariant to Receiver/Safety,
--   for messages of a peer's choice; Choice/View relates the choice to that of Video, and
--   Sender/Delivery the datagrams of the sender to `DatagramMsg::parse`.
-- * Audio (kyproto/src/protocol/driver/av/audio_unreliable.rs): Group is `PendingGroup`, on the
--   segments of Video, Group/Refinement relates it to that of Video, and Receiver is the loop
--   `process`. Sender is `AudioUnreliableProtocolSendDriver`, with the types of Video/Sender.
-- * Gop (kyproto/src/protocol/driver/av/video_gopstream.rs) sends each group of pictures on a
--   stream of its own: Sender is `send`, Receiver the reading of a stream and one message of
--   `recv`, Broadcast the orders in which the messages of several streams may come, with the
--   runs in Broadcast/Runs.
-- * Control (kyproto/src/control.rs) is the state of the control stream with `handle_msg`,
--   `register_endpoint` up to its await (`start_registration`) and `register_ready_notifier`.
-- * Router (kyproto/src/router.rs) is `ClientMap`, with one round of each accept loop.
-- * Connection (kyproto/src/lib.rs) allocates endpoint ids and registers and connects endpoints
--   through Control and Router. A registration is two definitions, before and after its await;
--   Handshake runs both against a peer that answers.
-- * ClockSync (kyproto/src/protocol/clock_sync.rs) is `serve` and a round of `sync`.
-- * Auth (kyproto/src/auth.rs and lib.rs) is the token that a client sends first.
--
-- Common has what the parts share: `Result` (a value, an error or a panic), tests on numbers, lists
-- and maps. An `assert!`, an `expect` or an index out of range is `panic`. A buffer is a list of
-- bytes, an integer of w bits a natural number with its wrap-around written out; times are
-- nanoseconds, and the clock is an argument. A unit of concurrency is one round of a loop under its
-- lock.
--
-- Bounds and fuel: `forward` runs on fuel, and each packet uses up a byte, so that more fuel than
-- bytes is enough. `admit` and the draining of `process` in VideoFec have a round for each of the
-- 128 objects that may be pending, and one more: each round takes an object away. `send_loop` takes
-- the length of its data as fuel, and each round takes a byte of it. The sequence numbers of the
-- video sender are u32; a run assumes that what arrives is within half that range of what came
-- before.
--
-- Parameters: RaptorQ (the records `Raptorq` of Fec and `Encoder` of VideoFec/Sender: its decoder,
-- its partition, its encoder, the layout of its transmission information; with the rounding of 30%
-- in floating point), the transport of kynet (datagram size, what it takes, how much a read
-- returns), whether a channel's receiver is still there, and what becomes of a connection during an
-- await, the encoding of a token.
--
-- Not modelled: the tasks and channels of tokio, kynet and its bindings, the MessagePack encoding
-- of control messages, the confirmation of a token, the experiment `source-first-fec`, audio
-- with forward error correction, clock offsets and averages, kycom, kymux-util, and
-- the reliable drivers. The counters of lost symbols and packets, and the size computations of Fec,
-- are unbounded, as is the u64 of a sequencer; the group and generation numbers of Gop wrap, as in a
-- release build. The writer of Serial takes all it is given and its flush succeeds, and in the runs of
-- Control/Rendezvous the local receiver of each oneshot is alive.
pub mod Common
pub mod Control
pub mod Router
pub mod Connection
pub mod ClockSync
pub mod Auth
pub mod Sequencer
pub mod Wire
pub mod Serial
pub mod Av
pub mod Packets
pub mod Fec
pub mod Video
pub mod Tests
pub mod VideoFec
pub mod Gop
pub mod Audio
