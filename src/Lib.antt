-- ===== src/Lib.antt =====
-- A meeting system: a C++ selective forwarding unit (meeting-server/sfu) and a C++/Qt client
-- (plasma-hawking/src). The unit receives the RTP packets of publishers and forwards each to the
-- subscribers under the SSRC that they expect, keeps packets for retransmission, reads RTCP feedback,
-- and hosts the rooms that say who publishes; the signaling server, which is in Go, drives it by RPC
-- frames. The client builds and reads RTP packets, orders them in a jitter buffer, adapts its video
-- to the reported loss, and talks to the signaling server in frames of its own.
--
-- Prelude        shared names: tests, lists over native numbers, byte buffers with checked reads
--                (Bytes), unordered maps (Assoc), ordered maps (OrderedMap), sorting, integers.
-- Sfu.Rtp.Parser       meeting-server/sfu/rtp/RtpParser: Parse is `parse`.
-- Sfu.Rtp.NackBuffer   meeting-server/sfu/rtp/NackBuffer: Store, Get, Contains, Size are `store`,
--                `get`, `has`, `size`.
-- Sfu.Rtp.Router meeting-server/sfu/rtp/RtpRouter: Route is `route`; a call of a subscriber's callback
--                is a pair of the callback's number and the bytes.
-- Sfu.Rtp.Rtcp   meeting-server/sfu/rtp/RtcpHandler: ParseCompound, and in Reports and Feedback the
--                five parsers on top of it.
-- Sfu.Room       meeting-server/sfu/room/Room, Publisher, Subscriber.
-- Sfu.RoomManager      meeting-server/sfu/room/RoomManager.
-- Sfu.Bandwidth  meeting-server/sfu/bwe/BandwidthEstimator.
-- Sfu.Rpc        meeting-server/sfu/server/RpcProtocol.
-- Sfu.Endpoint   meeting-server/sfu/server/MediaIngress: ParseEndpoint, EndpointKey and their helpers.
-- Sfu.Transports meeting-server/sfu/server/IceLiteSession (Ice), ParticipantTransport (Participant) and
--                TransportRegistry (Registry).
-- Sfu.Ingress    meeting-server/sfu/server/MediaIngress: the packets it reads and builds (Stun, Packets),
--                its fields (State), the routes (Routes: RefreshPublisherRoutes is
--                `refresh_publisher_routes`), the calls of the RPC service (Members), what is sent
--                (Sending, Remb), RTCP (Control), the traffic (Traffic) and datagrams (Media:
--                HandlePacket is `handle_packet`).
-- Sfu.Requests   meeting-server/sfu/server/RpcService: the messages and the methods.
-- Sfu.Service    meeting-server/sfu/server/RpcService: Dispatch is `dispatch`, HandleX is `handle_x`.
--                Service.Runs puts requests, datagrams and the daemon's calls into one step relation.
-- Client.Rtp     plasma-hawking/src/net/media/RTPSender and RTPReceiver.
-- Client.JitterBuffer  plasma-hawking/src/net/media/JitterBuffer.
-- Client.SignalProtocol      plasma-hawking/src/net/signaling/SignalProtocol.
-- Client.Reconnector   plasma-hawking/src/net/signaling/Reconnector.
-- Client.RingBuffer    plasma-hawking/src/common/RingBuffer.
-- Client.FrameRingBuffer     plasma-hawking/src/av/session/VideoSendFrameRingBuffer.
-- Client.AppStateMachine     plasma-hawking/src/app/AppStateMachine.
-- Client.VideoBwePolicy      plasma-hawking/src/av/session/VideoBwePolicy.
-- Client.VideoSession   plasma-hawking/src/av/session/VideoSessionStateMachine, the plans for the video
--                sources, and the calls of ScreenShareSession that carry them out.
-- Client.H264Payload   plasma-hawking/src/net/media/H264RtpPayload: packetizeH264AnnexB and the access
--                unit assembler.
-- Client.Stun    plasma-hawking/src/net/ice/StunClient: buildBindingRequest and parseBindingResponse;
--                plasma-hawking/src/app/MeetingController: buildStunBindingRequest.
-- Client.RtcpActions, Client.NackFeedback
--                plasma-hawking/src/av/session/VideoRtcpActionPipeline: the retransmission cache and
--                the PLI, and the NACK.
--
-- A byte is a number below 256 and a buffer a list of them. A read outside a buffer is the answer
-- `fault`. A component that holds one mutex for the length of a method is a record, and a call is one
-- step from a record to the next; what a method returns or signals is a part of its result. Pointers
-- to results are not null. Integers are natural numbers with the wrap-around of their type written
-- out where the source can reach it; an `int` that may be negative is an integer.
--
-- The RPC service and MediaIngress share the room manager, which is a field of MediaIngress here. A
-- datagram's handling answers whether it was taken, the datagrams that are sent, in order, and the
-- state after it; the callback that a route holds is a number that stands for its endpoint. Time is in
-- nanoseconds, and the random draws of a call are its arguments. Parameters are: the DTLS transport and
-- the SRTP sessions (`Secure`), inet_pton and inet_ntop (`Platform`), and what protobuf reads and
-- writes (`Messages`).
--
-- The loop of ParseCompound runs on fuel, one round more than the datagram has bytes, since each round
-- takes four bytes at least, and so do the loops over the attributes of a STUN packet; the loop over
-- NACK blocks runs on the size of its packet. Running out of fuel is `fault`, which never happens.
-- Building a NACK runs on as much fuel as there are numbers, of which each round takes one; the loop
-- that halves the mantissa of a REMB has 63 rounds, as its own test on the exponent allows. The loop
-- over the fragments of a NAL unit has a round for each of its bytes. The other loops are structural.
--
-- Not modelled: sockets, threads and start-up; DTLS, SRTP and protobuf, which are calls of other
-- libraries; capture, codecs, rendering and signal processing; storage; the user interface; the
-- signaling server. Of the client RTCP feedback, TURN, meetings and the loops of the video threads are
-- left out. The setters of Publisher are left out, and of those of Subscriber all but the
-- endpoints'. The wait of a blocking call is not modelled: such a call acts
-- on the state in which its wait ends, and of the jitter buffer's popWait one round is modelled. What
-- is computed in floating point and not exact is a parameter: the width for 360 lines, and the loss and
-- the factors of the SFU's bandwidth estimator. The loss of a reception report stays in 256ths.
pub mod Prelude
pub mod Sfu
pub mod Client
