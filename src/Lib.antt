-- ===== src/Lib.antt =====
-- The parts of a Chromecast sender library, and what holds of them.
--
-- libchromecast/libchromecast/ talks to a Chromecast over a TLS connection. A connection
-- (connection.cpp) writes and reads packets: a size of four bytes and a protocol buffer message
-- (google_cast_message.cpp), which stands for a cast message (cast_message.cpp) with an address
-- and a payload of text or bytes. Each message is dispatched by its address to the channels
-- (channel.cpp) that are registered with the connection: one keeps the connection alive
-- (heartbeat_channel.cpp), one sends requests in JSON (json_message.cpp) and waits for their
-- responses (receiver_channel.cpp).
--
--   Prelude         names of the libraries, tests into Bool, lists and byte strings
--   OrderedMap      std::map with a comparator, and its laws under a strict order
--   Utils           utils.cpp: results, errors, throw_on_error
--   Action          calls that change a state and may throw
--   Cast/Address    cast_message.cpp: CastMessage::Address, operator<
--   Cast/Message    cast_message.h: CastMessage, ToString
--   Cast/Serialize  cast_message.cpp: CastMessage::Serialize, as `save` and `load`
--   Proto           google_cast_message.h and .cpp: the generated classes, each with its state,
--                   its operations, Parse and Accessors. Fields, StringField, EnumField and
--                   MessageField are what the classes do with one field, and Parser the loop that
--                   their parsers share; EnumMessage is the common code of AuthChallenge and
--                   AuthError. Proto/Runtime and Proto/Nested hold the runtime library's calls as
--                   parameters
--   Connection/Registry  connection.cpp: RegisterChannel, UnregisterChannel, over the map
--   Connection/Dispatch  connection.cpp: OnMessage and OnUnrecognizedAddress; its children are the
--                   two branches, Broadcast and Unicast
--   Connection/Framing   connection.cpp: AsyncWrite, StartReading and its callers,
--                   EnsureConnectionIsAlive
--   Channel         channel.cpp: ChromecastChannel over the virtual functions of a subclass;
--                   Channel/Delivery has AsyncWrite with the bytes written as its state
--   Json            json_message.cpp: JsonMessage; Json/Library holds rapidjson's calls as a
--                   parameter
--   Heartbeat       heartbeat_channel.cpp: HeartbeatChannel, with a clock and its two timers;
--                   Heartbeat/Pings counts the calls of its send timer
--   Media           media_messages.h: the data; its children are the parts of media_messages.cpp
--                   (Style, Tracks, Metadata, Content, Status), media_channel.cpp (Channel) and
--                   default_media_player.h (Player); Media.Libraries holds what they use of others
--   Requests        receiver_channel.cpp: RequestChannel, its requests, retries and responses
--   Receiver/Messages  receiver_messages.cpp: what is read of a status
--   Receiver/Channel   receiver_channel.cpp: ReceiverChannel, over abstract applications and
--                   callbacks, whose calls are returned in order
--   Connection/Tls  connection.cpp, client.h: a connection attempt
--   Application     sender_application.cpp, connection_channel.cpp: SenderApplication and its
--                   connection channel, over the map of channels
--   Tests           concrete instances of the parameters, and examples
--
-- A string is the list of its bytes, a byte a number. operator< on addresses tests the result of
-- std::string::compare for -1: it is written over any compare (less_by) and taken with that of
-- Microsoft's library (less), for which the code is written. A pointer to a channel is a number, a null
-- pointer `none`. An exception is a result (Utils.Result); a call that changes a state returns it
-- with the result (Action). An asynchronous operation is a pending read, and each completion a
-- step of Connection/Framing.
--
-- The runtime library of protocol buffers is not part of the repository. Its calls are the record
-- Proto.Runtime.WireFormat, with the documented wire format as hypotheses (IsWireFormat), those of
-- Proto.Nested for a message within a message (IsMessageFormat, IsMessageReader), and
-- Cast.Serialize.MessageLite, with the documented steps of SerializeToCodedStream and
-- ParseFromCodedStream (IsMessageLite) within the library's limits: a message of 2^31 bytes or more
-- is not written, and of an input that reaches the default limit of a stream, 64 megabytes, nothing
-- is assumed. A size that the generated code keeps in an `int` is its bit pattern, modulo 2^32. Nor is rapidjson: its calls are Json.Library.Rapidjson,
-- with IsRapidjson. boost::lexical_cast of a string to a byte takes a string of one character
-- (Media.Style.Laws.IsLexicalCast). The timers are those of Boost: a wait is over when its time has
-- come or when it is cancelled, and its handler is called then, before a further second goes by.
-- The counter of request ids is static: what a call on one RequestChannel acts on holds it beside
-- that channel's own requests, and a history has steps in which the other channels advance it.
--
-- Three loops run on fuel. The loop of Proto/Parser takes a round for each field and one for the
-- end, and a field takes at least one byte, so one more than the length of the input is enough. So
-- it is for the label of AuthResponse's parser that jumps to itself, which reads a tag each time.
-- The loop of Connection/Dispatch takes a round for each entry of the map of channels where the
-- channels leave the map alone, so one more than its length is enough.
--
-- Not modelled: the sockets and TLS of Boost, which the library only calls; of the generated
-- classes, the default instances and the type names; the functions of the client that pass their
-- arguments on to a channel; ReceiverResponse, which nothing uses; the sample application
-- (libchromecast/chormecast-sample/).
pub mod Prelude
pub mod OrderedMap
pub mod Utils
pub mod Action
pub mod Cast
pub mod Proto
pub mod Connection
pub mod Channel
pub mod Json
pub mod Heartbeat
pub mod Media
pub mod Requests
pub mod Receiver
pub mod Application
mod Tests
