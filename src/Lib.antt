-- ===== src/Lib.antt =====
-- A model of ThingSet++, a C++ implementation of the ThingSet protocol: an application registers its
-- values, groups and functions as nodes, and a server answers requests that read, write or call them.
--
-- The parts and their files:
-- - Prelude.antt passes on the names that all files share; Prelude/Bits.antt has the arithmetic of bit
--   fields. Outcome.antt is the result of a run, Command.antt the commands on a mutable state, Bytes.antt
--   text as lists of bytes.
-- - Can/Id.antt: CAN identifiers (src/can/CanID.cpp, include/thingset++/can/CanID.hpp). Can/Id/Layout.antt
--   and its children describe the fields independently of the masks, Can/Id/Wire.antt has the theorems.
-- - LinkedList.antt: the intrusive list of include/thingset++/internal/IntrusiveLinkedList.hpp, with the
--   `next` pointers of all nodes as one store. Flattening.antt: the iterator over several containers
--   (include/thingset++/FlatteningIterator.hpp).
-- - Node.antt: nodes and access rights (include/thingset++/ThingSetNode.hpp and
--   include/thingset++/ThingSetAccess.hpp). A node is an address; what its virtual functions return is a
--   record. Registry.antt: the registry (src/ThingSetRegistry.cpp), whose eight buckets share the nodes'
--   links; Registry/Invariant.antt says when its buckets are in order. ParentNode.antt: the search by
--   path (src/ThingSetParentNode.cpp).
-- - Coding.antt: the interfaces of encoders and decoders (include/thingset++/ThingSetEncoder.hpp,
--   include/thingset++/ThingSetDecoder.hpp). RequestContext.antt: requests, request types and status codes
--   (src/ThingSetRequestContext.cpp, include/thingset++/ThingSetStatus.hpp). RequestContext/Rewrite.antt: the
--   rewriting of a request that a gateway forwards; what ends in a write outside the buffer is `aborted`.
-- - Binary.antt: the integers of the binary decoder (src/ThingSetBinaryDecoder.cpp), over the zcbor library
--   as a parameter.
-- - Streaming.antt: the streaming encoder (include/thingset++/StreamingThingSetBinaryEncoder.hpp), which
--   sends a full chunk before it encodes the next item, over the zcbor library as a parameter, and the CAN
--   frames of a report (src/can/StreamingCanThingSetBinaryEncoder.cpp). A client's calls, one after the
--   other, are `encode_each` in Streaming/Report.antt. Streaming/Decoder.antt has the decoder that reads such a
--   report through a buffer of two frames (include/thingset++/StreamingThingSetBinaryDecoder.hpp and
--   StreamingQueuingThingSetBinaryDecoder.hpp) and the map of decoders by sender
--   (ThingSetSubscriptionTransport.hpp). Streaming/Decoder/Report.antt is about both ends together.
-- - Isotp.antt: ISO-TP (src/can/zephyr/isotp/isotp_fast.c), which carries requests and responses over CAN.
--   Isotp/Receive.antt and Isotp/Send.antt have the two state machines, Isotp/Bound.antt the bound context
--   that keeps them: frames, the work queue, timers and completion callbacks; Isotp/Calls.antt has the
--   calls that the application makes. Isotp/Segments.antt says how a message is spread over
--   frames; Isotp/Carried.antt is about both ends together, Isotp/Bound/Events.antt
--   about anything that happens, Isotp/Bound/Errors.antt and Isotp/Bound/Outstanding.antt about
--   what goes wrong. Zephyr's CAN driver is the parameter `Driver`. A step that touches a freed
--   context, or writes beyond a buffer, is a fault. While the sender's loop waits for the driver (`take_sem`),
--   the frames for its message that arrive are handled and then its frame completes; what an interrupt does to other
--   messages meanwhile is not modelled.
-- - Text/Encoder.antt: the encoder of the text protocol (src/ThingSetTextEncoder.cpp), with the arrays, lists
--   and maps of include/thingset++/ThingSetEncoder.hpp over it.
-- - Server.antt: the handling of a request (src/ThingSetServer.cpp). Server/State.antt is its state, that
--   of the coders, the application's objects and the status; Server/Calls.antt what the handlers call;
--   Server/Handlers.antt handleRequest and the handlers. Server/Safety.antt and its children are about what a
--   request can change, Server/Termination.antt about its end, Server/Branches.antt
--   about its answer.
--
-- How they interact: the server looks nodes up in the registry, by ID or by path, walks along the
-- children that the registry has linked, and calls the coders and the objects of the application through
-- the records `Encoder`, `Decoder` and `App`.
--
-- Numbers are natural numbers; a C++ integer has its wrap-around written out. Walks along pointers take
-- fuel; the theorems show that more steps than there are nodes are enough, and that a loop over a payload
-- needs no more than the decoder's measure of the payload. ISO-TP's state machine needs one level of calls in
-- these theorems, and its sending loop a step for each byte.
--
-- Not modelled: the rest of the binary coders, the streaming coders for UDP, and the text decoder; the templates of
-- properties, groups and functions; the client; the transports on sockets and CAN interfaces; and the
-- services of Zephyr.
pub mod Binary
pub mod Bytes
pub mod Can
pub mod Coding
pub mod Command
pub mod Flattening
pub mod Isotp
pub mod LinkedList
pub mod Node
pub mod Outcome
pub mod ParentNode
pub mod Prelude
pub mod Registry
pub mod RequestContext
pub mod Server
pub mod Streaming
pub mod Text
