-- ===== src/Decoder.antt =====
-- src/hwdecode/hw_decode.c: the choice of the decoder, and the bit depth that the elementary stream
-- tells. A buffer is the list of its bytes; the null pointer is the empty one.
pub mod Bits
pub mod Sps
pub mod Nal
pub mod Backend
pub mod Hardware
