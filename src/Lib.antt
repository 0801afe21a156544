-- ===== src/Lib.antt =====
-- Anjay Lite, an LwM2M client: verification of its CoAP layer, its client core and its formats of data.
--
-- The client talks to an LwM2M server in CoAP exchanges, one at a time. A request of either side
-- begins an exchange (src/anj/exchange.c); its payload is read from, or written to, the data model by
-- handlers that the caller gives, block by block where it does not fit one message; the exchange
-- repeats a message that is not answered, and tells the caller once, by the completion handler, how it
-- ended. Responses to the server are kept for a while (src/anj/exchange_cache.c), so that a request
-- that comes twice is answered twice but carried out once.
--
-- Base: names of the libraries, Boolean tests and lists over the native numbers, signed integers.
-- Time: durations and times (include_public/anj/time.h, src/anj/time.c). A duration is the integer
--   number of its microseconds. The source does not check overflow, and the model has none.
-- Coap: the message, its enumerations and codes (include_public/anj_internal/coap.h).
-- Coap.Options: src/anj/coap/options.c on memory that is a function from addresses to bytes. Decoding
--   (`options_decode`), adding (Options.Add, `add_data`) and reading (`get_data`, `get_u16`, `get_u32`,
--   `get_string`); the buffer of `anj_coap_options_t` begins at address 0, and a payload pointer is an
--   address. Options.Items and Options.Update carry the proofs of Options.Insertion.
-- Coap.BlockWise: src/anj/coap/block.c, `block_decode` and `block_prepare` on those options.
-- Coap.Udp: the UDP header and the token, written and read (src/anj/coap/encode.c, decode.c, common.c,
--   common.h, udp_header.h).
-- Coap.Request: the path, the observe option and the operation of a request (src/anj/coap/decode.c).
-- Utils: block sizes, numbers as text, and paths (src/anj/utils.c, include_public/anj/utils.h).
-- ExchangeCache: src/anj/exchange_cache.c, one definition for each function, and one for each loop.
--   `cache_add`, `cache_check` and `cache_get` are `_anj_exchange_cache_add`, `_check` and `_get`.
-- Io.Base64: src/anj/io/base64.c, `base64_encode` and `base64_decode`.
-- Io.Cbor: the low-level CBOR encoder (src/anj/io/cbor_encoder_ll.c), which returns the bytes it writes.
--   Io.Cbor.Decoder, Number and Nesting are src/anj/io/cbor_decoder_ll.c, in the build without half
--   floats, decimal fractions, time strings and indefinite strings; `pending` are the bytes that the
--   decoder has and has not decoded. Floating-point numbers are their bits.
-- Exchange: src/anj/exchange.c. The context `Ctx` is `_anj_exchange_ctx_t`; the handlers are
--   functions on a state `A` of the caller, which the C code reaches through `handlers.arg`, and the
--   default handlers are `none`. An operation returns the new context, the message that it leaves in
--   `in_out_msg` and the state that the C function returns. `new_server_request`, `new_client_request`,
--   `process` and `terminate` are the functions of the same names behind `_anj_exchange_`; the larger
--   functions are cut at their `goto` targets and nested blocks. A message's payload is a pointer to the
--   exchange's own payload buffer or to bytes elsewhere, so that a handler that refills the buffer also
--   changes the message that is sent again.
-- Send: the queue of LwM2M Send requests (src/anj/core/lwm2m_send.c). `Slot` is an element of `ids` with
--   that of `requests_queue`; the calls of finished handlers are returned, in their order. Send.Queue and
--   Send.Abort show that it is a queue.
-- Core: the client core. `Client` is the part of `anj_t` that its sessions work on, and this module has
--   the operations that force a transition (src/anj/core/core.c). Core.Register is
--   src/anj/core/register.c, Core.BootstrapRun src/anj/core/bootstrap.c, Core.RegSession and
--   Core.RegSession.Process src/anj/core/reg_session.c, Core.Registering
--   src/anj/core/server_register.c, Core.Bootstrapping src/anj/core/server_bootstrap.c, and Core.Run
--   the step of src/anj/core/core.c. A step of a session takes `Calls`, what it sees of the network,
--   the exchange, the data model and the clock, with the handlers that they run, and returns the client,
--   the next action and the request with which it began an exchange; proofs hold for all `Calls`.
--
-- Where an operation returns an error, what it leaves in its output parameters is not modelled, except
-- for the context and the message of an exchange.
-- Parameters: the random numbers and the time that one call sees (`Platform`; a call reads the clock
-- once), the floating-point computations of a timeout and of the lifetime of a response (`Floats`), what
-- a delay becomes where the shift of an `int` that doubles it is undefined (`undefined_delay`), and the
-- handlers. Assertions are what a caller must see to. Composite operations and the cache with more
-- than one entry are built in. Counters wrap at the width of their C types.
-- Fuel: the loop of `determine_block_buffer_size` takes eight rounds, while the size passes 1024
-- after seven; `digits_loop` takes twenty, the digits of a 64-bit number; `uri_path_loop` takes
-- five, for a path of four identifiers and its end; the loop of `options_decode` takes as many
-- rounds as the message has bytes, and each round reads a byte; `preprocess_next_value` takes one
-- round more than there are bytes pending, where all but the last round read one. Numbers as text
-- are the functions built with ANJ_WITH_CUSTOM_CONVERSION_FUNCTIONS.
--
-- Not modelled: log output, handlers of a Send that call functions of the queue, the payload of a
-- Send, doubles as text, the encoding of whole messages, the data model and the other payload
-- formats, observations, the initialization and shutdown of the client, its connection
-- (src/anj/core/srv_conn.c), the network and the ports to platforms.
pub mod Base
pub mod Time
pub mod Coap
pub mod Utils
pub mod ExchangeCache
pub mod Exchange
pub mod Io
pub mod Core
pub mod Send
