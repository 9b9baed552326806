-- ===== src/Netpack.antt =====
-- luaclib-src/lua-netpack.cpp: packets of a 16-bit size and data, cut out of what sockets receive. An
-- allocated buffer is the list of the bytes that have been written to it.
pub mod Queue
pub mod Filter
pub mod Frames
pub mod Tests
