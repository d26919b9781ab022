-- ===== src/WsClient.antt =====
-- src/cameractrl/zc_ws_client.cpp: the WebSocket client of the camera's notification socket.
-- A QByteArray is the list of its bytes; what a call does to the socket and what it emits is a list
-- of effects, in order. `(int)len` is written out as the C++ narrowing to 32 bits.
pub mod Frame
pub mod Socket
