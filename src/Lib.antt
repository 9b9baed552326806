-- ===== src/Lib.antt =====
-- A verification of the core of the skynet node and of four of its libraries for Lua.
--
-- The node runs services that talk by messages. Each service has a private queue of messages; the
-- private queues that have work are linked into one global list, from which worker threads take them.
-- A timer thread drives a timer wheel whose timers send responses to services.
--
-- Next to the node stand libraries for the services, loaded by Lua: among them skynet.netpack, which
-- cuts packets out of what the sockets of a gate receive, the packing of Lua values into messages,
-- skynet.cluster.core, the messages between nodes, and skynet.crypt, functions on strings for logins
-- and encrypted connections.
--
-- Files and the code that they model:
-- - Base: shared names, Boolean tests, arrays as lists, masks as remainders; Base/Digits and Words are
--   laws of the operations on bits, Base/Modular of products and powers modulo n, Base/Window of rings.
-- - Mq/Message: skynet-src/mq/mq_msg.h, the struct service_message.
-- - Mq/Ring: skynet-src/mq/mq_private.h and mq_private.cpp, one service's ring buffer. A method is a
--   function that returns the new object; push also says whether it calls mq_global::push. The proofs
--   are in Ring/Invariant, Ring/Refine (against a list) and Ring/Bounds (capacity, overload).
-- - Mq/Global: skynet-src/mq/mq_global.cpp, the linked list through mq_private::next_, and the methods
--   of mq_private that use it, over a memory of queue objects in which a freed address holds nothing.
--   A failed assert or a bad access is the result none. Global/Chain, Memory and Links prove push and
--   pop of the list; Drain the loop of _drop_queue.
-- - Mq/Global/System: the calls of node::dispatch_message (skynet-src/node/node.cpp), of
--   push_service_message, of release_service and of create_service, also where a service fails to start,
--   as steps of one system, with the queues that threads hold and those of failed services. The mutexes make each call one step. What the callers guarantee is the predicate Enabled.
-- - Mq/Dispatch: the loop of node::dispatch_message over one queue, with the callback of a service as a
--   function, and skynet-src/service/service_monitor.cpp. Dispatch/Served says which messages are
--   handled, Dispatch/Watch what the checks of the monitor find.
-- - Timer: skynet-src/timer/timer.h, timer.cpp and timer_manager.cpp. Timer/Place says where a node
--   stands, Wheel what the lists hold, Update what timer_shift does, Tick and Fire what a tick
--   dispatches, Timeout the calls timeout and update_time.
-- - Service: skynet-src/service/service_manager.cpp. Service/Slots is the array svc_ctx_slot_ with
--   register_service, grab and unregister_service, contexts being addresses; Slots/Register reads
--   it modulo its size, Slots/Expand is about the expansion, Handles, Fresh and Removal about what a
--   handle finds. The caller's write of svc_handle_ is a definition of its own. Service/Name is the
--   order of std::string::compare, Service/Names the array name_ with find_by_name, _insert_name,
--   _insert_name_before and the loop of unregister_service; Names/Sorted reads it as a finite map,
--   Names/Find, Room, Insert and Forget say what the operations do to that map.
-- - Crypt: luaclib-src/lua-crypt.cpp, strings being lists of bytes and an error that Lua raises being
--   a result. Crypt/Des is the block cipher, with its tables in Des/Boxes and its key schedule in
--   Des/Keys; Des/Steps, Inverse and Cipher invert it. Crypt/Text is l_des_encode and l_des_decode
--   with the two paddings; Crypt/Codes is hex, base64, l_xor_str and l_random_key; Crypt/Dh the key
--   exchange, Dh/Arith its arithmetic modulo P; Crypt/Digest is Hash, digest_md5 and the codes hmac64,
--   hmac64_md5 and hmac_hash, of which Digest/Sum compares the second with MD5 of RFC 1321.
-- - Netpack: luaclib-src/lua-netpack.cpp, a buffer being the list of the bytes written to it, and a
--   null queue being none. Netpack/Queue is the struct msg_queue with its ring and its chains of
--   uncomplete packets, read as a list of packets in Queue/Ring and as what is kept of each socket in
--   Queue/Chains. Netpack/Filter is filter_data_, l_filter and l_pack. Netpack/Frames says how a
--   stream is parsed; Frames/Steps, Stream, Received, Filled and Resumed show it of filter_data_,
--   Frames/Session, Chunk and Gate of a history of chunks whose packets are taken after each (as
--   lualib/snax/gateserver.lua takes them), Frames/Closed of a socket that is closed.
-- - Seri: luaclib-src/lua-seri.cpp on a type of Lua values. Seri/Write is the struct write_block with
--   what is pushed for values without parts, Write/Blocks the chain of blocks against a list of bytes;
--   Seri/Pack is pack_one and luaseri_pack, Seri/Unpack is push_value and luaseri_unpack. Seri/Plain
--   says what is kept of a value, which values can be packed and what their bytes are; Pack/Accepts
--   shows it of luaseri_pack. Unpack/Numbers, Sizes, Fitting and Roundtrip read the bytes back,
--   Unpack/Calls counts the calls for any stream.
-- - Cluster: luaclib-src/lua-cluster.cpp. Cluster/Wire are its words and the header of a package, Request
--   is packrequest, l_packtrace and l_unpackrequest, Response is l_packresponse and l_unpackresponse,
--   Collect is l_append and l_concat with dispatch_request of service/cluster_agent.lua. Request/Contents,
--   Heads and Packages say what the packages of a message are, Request/Arrivals takes sessions apart,
--   Request/Roundtrip and Response/Roundtrip follow a message from end to end, with Collect/Chunks for
--   its parts; Cluster/Bounds is about broken packages.
--
-- Bounds and fuel: a uint32_t wraps by % 2 ^ 32, and an int that is passed through is its bit pattern.
-- The int fields of mq_private and the counter of the loop of update_time are unbounded numbers, which
-- are those of the code below 2 ^ 31. The int sizes of lua-crypt.cpp that overflow are a fault, the len
-- of write_block wraps, and a table of 2 ^ 31 or more items has no model. raise_threshold has as many
-- rounds as the queue is long, drain one round more than that, shift_loop the four levels of the wheel;
-- the theorems named below say that this is enough. A binary search of names has one round more than
-- there are names. The outer loop of register_service has two rounds, one before and one after an
-- expansion. mul_loop has a round and pow_mod_p a call for each bit of a uint64_t, decode_groups a round
-- for each byte of the text and one more, push_more a call for each byte of the chunk. decode_groups,
-- pow_mod_p and push_more are none where these do not suffice. luaseri_unpack has two calls for each
-- byte and two more, push_rest a round for each byte. packreq_multi and pack_parts have a round for each
-- part, of which the code computes the number.
-- An index `end` that may be -1 is written as `end + 1`.
--
-- Not modelled: payloads (an address stands for one), the allocator, locks other than by the atomicity
-- of the calls they guard, sockets, the Lua state with its strings and userdata, which buffers of
-- skynet.netpack are freed, the other libraries for Lua, SHA-1 behind skynet.crypt, and the
-- third-party libraries.
pub mod Base
pub mod Mq
pub mod Timer
pub mod Service
pub mod Crypt
pub mod Netpack
pub mod Seri
pub mod Cluster
