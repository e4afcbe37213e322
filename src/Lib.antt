-- ===== src/Lib.antt =====
-- eclib3: a library of C++ headers for servers. This development models parts of it from their
-- source and states what they guarantee.
--
-- Parts and files, with paths from the repository's root:
--   * Common.antt and its children: lists and tests over the native numbers, chains of steps that may
--     fail, bit operations at masks, shifts by seven bits, the bytes of a text.
--   * Map.antt: the class hashmap of ec_map.h. The table, its counters and the values handed to
--     _DelVal are a record; each method is a function to its answer and the new record. Chain, Table
--     and Relink hold the invariant and what a write to one chain does; Write, Erase, Emplace and
--     Clear are about the methods of those names (`set` is `set_value` here), Cursor models `next`
--     and the iterator, Visit and Walk are about `next`, Range about the iterator.
--     Poke is a write through the pointer of `get`, Move about the destructor and the move assignment.
--   * Handle.antt: the class handle of ec_handle.h, a registry of objects on a hashmap. Search is about
--     the search of a free number, Invariant about what stays true, Create, Delete, Members and Destroy
--     about the methods.
--   * Protobuf.antt: base_protobuf and size_varint of ec_protobuf.h. Bytes are numbers in lists;
--     Varint, Zigzag, Fields and Skip follow the methods of those names.
--   * Memheap.antt: memheap_ of ec_alloctor.h. Chain is about the chain through the free blocks, Init
--     about the method of that name, Heap about one heap.
--   * Blocks.antt: blk_alloctor of ec_alloctor.h. Owners is about who has which block, Walk and Take
--     about malloc_, Give about free_ and gc_.
--   * Allocator.antt: the class allocator of ec_alloctor.h, a client of Blocks. Choice is about the block
--     size, Requests about malloc_ (`request` here).
--   * Queue.antt: the class queue of ec_queue.h, on the nodes of Stack. Snoc is about a node linked behind
--     the last one, Ends about the methods (`enqueue` and `dequeue` are push and pop), Whole about the destructor
--     and swap.
--   * Stack.antt: the class stack of ec_stack.h on a heap of nodes with addresses. Linked is about the
--     list in the heap, Steps about the methods, Swap about swap. Fuel counts the tests of the destructor's loop.
--   * Stream.antt: the class stream of ec_stream.h. The block of memory is a list of bytes, and an int
--     that is thrown is a result. Patch is about a copy into the block, Words about words and blocks,
--     Text about strings; `get_le`, `put_le`, `get_be` and `put_be` are the operators.
--   * Strings.antt: UTF-8 and JSON escapes of ec_string.h. Utf8 is about strisutf8 and Unicode2Utf8, Cut
--     about utf8_sizesubstr. Escapes has jstr_toesc, jstr_fromesc and what they call; its Roundtrip is about
--     both, Codes about escapes with a code. Urls has utf82url and url2utf8.
--   * Xor.antt: xor_le of ec_string.h, which masks websocket payloads.
--   * Websocket.antt: ws_make_permsg of ec_wstips.h, and Receive, the frame parser of base_ws in
--     ec_netss_ws.h. Frame is about one frame, Sent about the sender's loop, Message about the
--     receiver's, Roundtrip about both, Split about frames that come in two parts, Partial about a header
--     that has come in part. Zlib has ws_encode_zlib and ws_decode_zlib, which are the arguments `deflate`
--     and `inflate` of the other files; Calls is about their loops, Deflated about a message with both.
--     Session has ws_make_perfrm of ec_wstips.h, and ws_send and DoReadData of base_ws, with the buffer
--     of the session. Upgrade has DoUpgradeWebSocket and DoReadData while the session speaks HTTP, on
--     Http and ParseBuffer; Requests is about requests that come whole or in part,
--     Offers about the extensions of an upgrade. Session/Reads is about a message that comes in two reads.
--   * Http.antt: the classes ctxt and req_line of ec_http.h. Package is the class of that name, where a
--     request is parsed from a text: Lines, Words and Heads are about the pieces of the text, Roundtrip
--     about the whole, Prefix about a part of it. Fields has strnext of ec_string.h and the fields of a
--     head; its Words is about strnext, Search and Lists are about the loop over the words of a
--     field. Url has urldecode and urlencode, Url/Bytes is about one byte.
--   * ParseBuffer.antt: the class parsebuffer of ec_memory.h, the received bytes of a session. Bytes is
--     about what it holds. Access has the position, read and write, and Access/Written is about what a
--     write changes.
--
-- Choices. In a result of type Option, `none` is undefined behaviour: a division by a table size of
-- zero, an index outside the table, a null pointer dereferenced. Memory is an argument `got` of the
-- operations that allocate. Numbers are unbounded where memory bounds them (a count of nodes) and
-- wrap where the source shifts or casts. Loops over chains and bytes are recursion on lists. The loop
-- of out_varint takes fuel, one for each bit of the word, and moves by seven bits a round; the walks
-- over a map take fuel, one for each call of `next` or test of the iterator, and more fuel than nodes
-- is enough. The loop over the frames of a websocket message takes one unit of fuel more than there
-- are bytes to send, and the receiver's loop one for each byte; each round uses a byte at least. So do
-- the loops over the lines of an HTTP head and over the words of a field, which take one unit for each
-- byte and one more. The loops over zlib take fuel for their rounds and tests, up to one more than the
-- calls of zlib. An int that `atoi` cannot hold is undefined behaviour.
--
-- Not modelled: sockets, TLS, threads, files and the operating system, which are input and output; the
-- copies of zlib (its calls are a parameter of the websocket model), of Milo Yip's dtoa and of the
-- base64, MD5 and SHA-1 codes of others (a parameter of the upgrade); big endian hosts; exceptions that
-- an output container throws; free_ and realloc_ of the class allocator, which read the word before a
-- block, in the memory of whichever heap or of the system: the model has a memory for each heap alone.
pub mod Allocator
pub mod Blocks
pub mod Common
pub mod Handle
pub mod Http
pub mod Map
pub mod Memheap
pub mod ParseBuffer
pub mod Protobuf
pub mod Queue
pub mod Stack
pub mod Stream
pub mod Strings
pub mod Websocket
pub mod Xor
