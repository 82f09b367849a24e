-- ===== src/Lib.antt =====
-- A model of secs_lib, a protocol stack for semiconductor equipment in C++20: SECS-II items
-- (SEMI E5), the SECS-I block transfer (SEMI E4), HSMS (SEMI E37), and the layers around them.
--
-- What the files model:
--   Common            numbers, lists, bytes, bits and results that the parts share; no code
--   Core              Error: include/secs/core/error.hpp; Event: src/core/event.cpp; Buffer:
--                     buffer.hpp and buffer.cpp there, `FixedBuffer`, with its children Shape (its
--                     well-formedness), Grow, Readable, Bytes, Moves and Queue (the queue that it
--                     implements)
--   Ii                include/secs/ii and src/ii: data items and their codec.
--                     Format: types.hpp and the error codes; Item: item.hpp; Equal: its
--                     `operator==`, of item.cpp; Writer: `SpanWriter`; Size: item_code,
--                     numeric_payload_length, encoded_size_impl; Encode: encode_header_and_length,
--                     encode_payload, encode_item, encode_to, encode; Decode: `SpanReader`,
--                     decode_item, decode_one. Wire states the encoding that E5 prescribes; Measure
--                     states what `DecodeLimits` bounds; RoundTrip and Decode.Safe: what the
--                     decoder does with written and with arbitrary bytes.
--   Secs1             include/secs/secs1/block.hpp and src/secs1/block.cpp. Block: checksum,
--                     encode_block, decode_block; Fragment: fragment_message; Reassembler: the
--                     class of that name; Transfer: a message through the three of them.
--                     Machine: state_machine.hpp, link.hpp and src/secs1/state_machine.cpp.
--                     Send and Receive: async_send, async_receive, async_transact; Restores: what
--                     a send leaves of the object, Stops and Rests: what a receipt leaves; Wire: a
--                     link with given reads; Retry: refusals on the way; Arrive, Collect, Deliver,
--                     Exchange: a message as it is received;
--                     Converse: a sender and a receiver on one line.
--   Hsms              include/secs/hsms/message.hpp and src/hsms/message.cpp. SType: the
--                     enumeration; Message: the builders, encode_frame, decode_payload and
--                     decode_frame; Frame and Builders: what they guarantee.
--                     Connection: the writing side of src/hsms/connection.cpp, with its children
--                     Invariant, Steps (its histories), Gate (the gate for data) and Accounts (its
--                     requests), Control (what becomes of a control message); Incoming: the reading side, and Chunks: frames that come in pieces.
--                     Session: include/secs/hsms/session.hpp and src/hsms/session.cpp. Reader:
--                     reader_loop_; Transactions: the control and data transactions; Calls: the
--                     public calls; Invariant, Entries, Steps, Opening: what each step keeps;
--                     Reached: the histories; Replies and Responses: requests and their answers
--   Protocol          SystemBytes: src/protocol/system_bytes.cpp, the allocator of transaction
--                     ids, its calls as a step relation in History; Router: router.hpp and
--                     src/protocol/router.cpp, the table of handlers.
--   Sml               include/secs/sml/token.hpp, lexer.hpp and src/sml/lexer.cpp: the lexer,
--                     its characters and places in Cursor.
--                     Literal: strings; Total: what a scan leaves; Tokenize: whole sources.
--                     Ast: include/secs/sml/ast.hpp; Number and Parser: src/sml/parser.cpp. Items
--                     and Statements: the rules; Post: what a rule leaves, Typed, TypedItems,
--                     Documents, Rules, Messages: what each rule gives; Ends, EndsStatements: the
--                     Eof stays ahead; Source: the tokens of the lexer have one; Returns: whole documents.
--                     Render: src/sml/render.cpp, and Closed: templates without variables.
--                     Runtime: src/sml/runtime.cpp; Found, Maps, Indexed, Lookup: the messages
--                     of a name; Preorder: the places of items; Body: bodies
--   Utils             Hex: src/utils/hex.cpp, hex_dump and parse_hex
--   Stack             an item through its codec and either transport
--
-- How the parts meet: an item's encoding is the body of a message, which HSMS sends as one frame
-- and SECS-I as a run of blocks; a message's system bytes come from the allocator.
--
-- How the code is read: a byte and an unsigned integer are numbers, with the wrap-around written
-- out where a value can pass its type; a signed integer is a ℤ and its conversion to the unsigned
-- type is modulo the number of patterns; a float is its bit pattern, since the code only takes it
-- to its bits and back. A `std::error_code` is an option (`none` for success) or the error of a
-- result. A reader keeps what is left of its input, a writer the whole span. An object is the value
-- of its fields, and a method returns the new one. A mutex makes each call of the allocator and of
-- the table one step. A coroutine is the sequence of the calls of its link, which is a parameter: a
-- state of any type, and functions that give a call's result and the state after it. The coroutines
-- of HSMS, of which several run at a time, are the functions they run through between two waits, and
-- a history takes these in any order, with any endings of the waits. The heap's
-- allocation is a parameter of the buffer.
--
-- Fuel: `decode_item` recurs on fuel, and `decode_one` gives it one more than the number of
-- bytes, which is enough, since a child's header takes two bytes at least. The loop of
-- `fragment_message` has the length of the payload as fuel, since every pass takes a byte at
-- least. The doubling in `grow` has one pass more than the capacity asked for, `tokenize` one
-- more than the source has characters, and `hex_dump` and its numbers one more than there are
-- bytes and than the number. `async_receive` takes fuel for its blocks and, for each, the bytes
-- it passes over; a block of 244 bytes needs one pass. The parser's loop over statements and its
-- rule for items have one more than there are tokens, since a statement and an item take a token
-- at least. The sends need none: their attempts are counted by the code.
--
-- Not modelled: the texts of the error categories, the log, the clocks and timers, the links and
-- streams themselves, and threads: all of these are the environment of the code.
-- src/protocol/session.cpp, the layer above the two transports, is left out: what it is made of,
-- the allocator of transaction ids, the table of handlers, the transactions of an HSMS session
-- and the calls of the SECS-I state machine, is modelled on its own. The dumps in src/utils and
-- the standard messages of include/secs/messages are text and records around the items, and
-- src/c_api.cpp hands the objects to C. `strtod`, the conversion of a double to a float and the
-- comparison of floats within a tolerance are parameters. Allocation fails only where the buffer
-- asks for it to be reported, and a vector grows to any size. Tokens among which no Eof is have no
-- result, since the code may read past their end.
pub mod Common
pub mod Core
pub mod Ii
pub mod Hsms
pub mod Protocol
pub mod Secs1
pub mod Sml
pub mod Stack
pub mod Utils
