-- ===== src/Transport.antt =====
-- src/cameractrl/zc_http_transport.cpp: the HTTP transport of one camera, with its Digest
-- authentication, its session state and its request queue.
-- MD5, the random numbers, URLs and the network are Qt's: the hash and the draws are arguments, a
-- request carries its URL together with the encoded path and query, and a reply is a record of what
-- the source reads of it.
pub mod Digest
pub mod Session
pub mod Queue
pub mod Origin
