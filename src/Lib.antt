-- ===== src/Lib.antt =====
-- The Z CAM plugin for OBS: the camera control src/cameractrl, the frame queue src/VFrameQueue.cpp, the
-- discovery src/ssp-mdns.cpp, the source src/zc_source.cpp, the stream's process
-- src/ssp-client-iso.cpp with ssp_connector, the choice of the decoder src/hwdecode/hw_decode.c, and the
-- control dock src/ui/zc_control_dock.cpp.
--
-- How the parts work together. The control dock asks ZcCameraClient (zc_camera_client.cpp), which
-- negotiates the camera's origin and sends its commands over ZcHttpTransport (zc_http_transport.cpp),
-- a queue of requests with Digest authentication. Notifications come over ZcWsNotifier
-- (zc_ws_notifier.cpp), which keeps a ZcWsClient (zc_ws_client.cpp) connected and hands each event to
-- the client. ZcSettingsEngine (zc_settings_engine.cpp) caches the settings, which
-- zc_settings_schema.cpp lists. The discovery keeps the cameras that answer on the network, which the
-- dock lists. SSPClientIso starts the connector, a process that receives the stream and writes it to a
-- pipe as messages; its thread reads them and calls the source, which takes the bit depth from the
-- elementary stream to create the decoder, decodes the packets and keeps the picture that OBS draws.
-- VFrameQueue hands the frames to a decoder's thread.
--
-- The files:
-- - Prelude: names of the libraries, Boolean tests, lists, texts (lists of codes), integers, the
--   dictionary that stands for QHash and QJsonObject, and the interface of Qt's JSON classes.
-- - WsClient.Frame: handleIncoming and writeFrame on the receive buffer; Rfc has the frame layout of
--   RFC 6455, Decode and Loop the proofs about one frame and about the stream.
-- - WsClient.Socket: open, close, sendHandshake, onSocketReadyRead and the other slots, as functions
--   from the client's state to its next state and the calls and signals made; Tls and Accepted have them
--   as events of a connection.
-- - Notifier: the slots of ZcWsNotifier; Backoff, Reconnect and Observer are about their histories.
-- - Transport.Digest, Session, Queue, Origin: parseChallenge and buildAuthorization, captureSession,
--   the queue with onFinished, and negotiateOrigin; Digest.Params, Digest.Nonce, Queue.Serial and
--   Queue.Retry are about them.
-- - Schema.Tables, Wire, Trace, Naming: the tables, the query and path builders, the trace states and
--   the source names. Engine: the settings engine. Client: the camera client and its Commands.
-- - FrameQueue: VFrameQueue with its thread, one round of the thread for each event. One thread runs
--   at a time, since stop waits for the thread that start made.
-- - Decoder.Hardware: the device and the pixel format that hw_decode_ffmpeg.cpp chooses.
-- - Decoder.Bits, Sps, Nal, Backend: hw_decode.c, with the bit reader and its Exp-Golomb codes, the two
--   SPS parsers, zc_nal_bit_depth, and zc_hw_resolve with zc_hw_decoder_create. Bits.Stream and
--   Sps.Written have the syntax of the standards, Nal.Escape, Nal.Scan and Nal.Ends are about the units.
-- - Connector.Proto: the structures of ssp_connector_proto.h. Writer: main.cpp of the connector. Reader:
--   msg_recv and ReceiveThread. Lifecycle: doStart, Stop and Restart. Reader.Session joins both ends.
-- - Discovery: query_callback, the map of the cameras and its iterator, and the dock's search; Known,
--   Answers and Listing are about them.
-- - Picture: the copy, the conversion and the upload of a picture of the CPU, by the sizes of its buffers.
-- - Video: createDecoder, installDecoder, onMeta, onVideoData, outputVideo and videoRender of zc_source.cpp;
--   Owned, Current with Software, Depth and Buffers are about single operations.
-- - Source: update, start, stop, the reconnect thread and the watchdog of zc_source.cpp, which use Video;
--   Applied, Connection and Stall are about them, Pictures carries what Video keeps over every history, and
--   Resources is about the whole life of a source.
-- - Dock.Rail, Presets, Stream, Pad: ZcCameraRail with refreshCameras, ZcPresetPanel, the stream bar of
--   ZcSettingsPanel, and ZcPtzPad of zc_control_dock.cpp; Rail.Lists and Rail.Sets have the lemmas on lists of
--   addresses, Rail.Hosts, Painted and Shown, Presets.Enabled and Reload, Stream.Origin and Pad.Stops the rest.
-- - Tests: the theorems at concrete inputs.
--
-- Conventions. A slot or a handler is a function of the state, which returns the new state and the
-- calls and signals that it makes, in order; a history is a list of events that `run` goes through.
-- A request is an action, and what its reply does is a handler of its own; the URL of a request is
-- that of the moment in which it is sent. Calls of Qt that compute on texts are defined as Qt
-- documents them, on ASCII; hashes, random numbers, doubles, JSON and the conversion of a text to an
-- int are parameters. Where the source casts or wraps, the model writes it out: (int)len is
-- `to_int32`, a sum of ints comes round at 2^31 (`add_int`), and the 64-bit subtraction of VFrameQueue.cpp is taken modulo 2^64.
--
-- Fuel. The loop of handleIncoming has one round more than the buffer has bytes: a round takes the
-- header of a frame off it, unless the frame's declared length is negative as an int or overflows one with
-- the header.
-- `digestParam` has one round more than the challenge has bytes, since each round takes at least one
-- of them; `decimal n` has n + 1 rounds. zc_nal_bit_depth has two rounds more than bytes for the start
-- codes and one more for the length prefixes, since each round moves on; an Exp-Golomb code has at most
-- 32 rounds, as in the code. Reading n bytes of a pipe has n rounds, and the search one for each entry.
--
-- Not modelled: the sockets of the discovery, the arguments of the connector, the decoders themselves
-- (the rest of src/hwdecode and src/ffmpeg-decode.c), the drawing of the OBS source, and of the user
-- interface (src/ui) the layout, the painting, the rows of the settings and the debug panel, which are
-- mostly calls of other libraries. The sockets, pipes, timers and JSON documents are those of the system,
-- OBS and Qt; the mDNS library, the decoders and the SSP library are parameters. Each method of the
-- source is one step of its histories, an assumption that the locks of the code do not give: onVideoData and
-- onMeta free decoderMutex_ between a test and the new decoder. For onVideoData the fall-back of the graphics
-- thread in that moment is modelled in Video.Depth.
pub mod Prelude
pub mod WsClient
pub mod Notifier
pub mod Transport
pub mod Schema
pub mod Engine
pub mod Client
pub mod FrameQueue
pub mod Decoder
pub mod Connector
pub mod Discovery
pub mod Picture
pub mod Video
pub mod Source
pub mod Dock
pub mod Tests
