-- ===== src/Cluster.antt =====
-- luaclib-src/lua-cluster.cpp: what the nodes of a cluster send each other. A message is a list of bytes,
-- a size with a pointer being one; a failed assert and an access outside a buffer are the result outside.
pub mod Wire
pub mod Request
pub mod Collect
pub mod Response
pub mod Bounds
pub mod Tests
