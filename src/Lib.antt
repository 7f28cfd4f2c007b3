-- ===== src/Lib.antt =====
-- A chat backend in three layers. The logic layer (internal/logic) keeps sessions and groups in
-- MySQL and Redis and puts messages on Kafka; the task layer (internal/task) reads Kafka and pushes
-- each message to the connect nodes that hold its recipients; a connect node (internal/connect)
-- keeps the websocket connections, the rooms of its clients, and one buffered channel for each
-- client.
--
-- Connect.Room: internal/connect/room.go. `Room` keeps `members` as the addresses of the list
-- elements and `elems` as their values; `join`, `leave` and `broadcast` are `Join`, `Leave` and
-- `Broadcast`. Room.Refine relates it to a map from users to channels; Room.Broadcast says whom a
-- broadcast reaches.
--
-- Connect.Chan: the buffered channels, of capacity 256, with the non-blocking send; 0 is the nil
-- channel.
--
-- Connect.RoomManager: internal/connect/room_manager.go. Rooms are addressed, because `LeaveRoom`
-- compares pointers. `join_room` is `JoinRoom`, which holds its lock throughout; `leave_room` is an
-- undisturbed `LeaveRoom`, and Interleaving has its three sections as the steps of any number of
-- goroutines. `farm.Hash32` is a parameter.
--
-- Connect.Client: internal/connect/ws_handler.go. `Node` is one process, with `DefaultManager`,
-- `DefaultRoomManager` and the channels; `connect` is what `ServeWS` does to it, and `read_pump` is
-- `readPump` on the sequence of what it reads, with its deferred cleanup. A `select` with two ready
-- cases takes its choice as a parameter.
--
-- Connect.Serve: the whole `ServeWS`, with the call of `Verify` in the logic layer and that of the
-- registry, and the deferred function of `readPump`, on a node together with the servers.
--
-- Connect.Client.Sections: `AddClient` and `RemoveClientIfMatch` as a section under the lock and a
-- closing after it, which interleave with those of other goroutines.
--
-- Connect.Client.WritePump: `writePump`, with the payloads on the wire; which case a `select`
-- takes, and what becomes of a payload, are parameters, and sends and closings by others happen
-- between its rounds.
--
-- Connect.GrpcServer: internal/connect/grpcserver.go. Connect.Reachable: the events of a node, from
-- its start, as whole calls one after the other; a join does not interleave there between
-- `JoinRoom` and `addRoom`. Connect.Registry: internal/connect/registry.go.
--
-- Redis: a record of commands with the laws that go-redis documents for them, and round trips that
-- may be refused or lose their answer; Redis.Memory is an instance. A script or a transaction is
-- one round trip.
--
-- Logic.Store: the sessions of internal/logic/store.go.
--
-- Logic.GroupCache: `IsGroupMember`, and `RefreshGroupMembersCache` of
-- internal/logic/groupserver.go; the query of `group_members` is a parameter.
--
-- Logic.GroupServer: `AddGroup` with its transaction and its two deletions of the cache, the second
-- of which is a step of its own, and `CreateGroup`, both of internal/logic/groupserver.go. A
-- statement or a commit fails, or loses its answer, as a list of outcomes says; a failed
-- transaction is rolled back.
--
-- Logic.MessageId and Logic.ChatServer: internal/logic/chatserver.go; the clock, `proto.Marshal`
-- and the Kafka producer are parameters, and a failed send may have appended its message.
--
-- Logic.AuthServer: internal/logic/auth.go, with bcrypt, uuid and the queries of MySQL as
-- parameters; AuthServer.SmallGroups has the query of `ListUserSmallGroups` on the rows of its
-- tables.
--
-- Task.ClientPool: internal/task/rpc_client.go and internal/common/connect_client.go. A connection
-- is an address; Leaks has the sections of the calls under the lock as steps in any order.
--
-- Task.Consumer: the state that the consumers of internal/task/consumer.go share, with the connect
-- nodes themselves behind their addresses, so that a push is the handler of Connect.GrpcServer on a
-- `Node`. Task.Chat, Task.Group, Task.Room and Task.Persist: the `ConsumeClaim` of the four
-- handlers with all they call; Task.Routing: `loadGroupOnlineMemberIDs`, `getOnlineRoutingMap` and
-- `loadGroupNodeIDs`. What the network does is given by lists of outcomes, of the round trips, of
-- the gRPC calls, of the waits for a token and of the insertions; after the last of a list all
-- succeed. The loops that try a message again take fuel, and end if it exceeds the number of
-- outcomes to come. The pushes of one message, which the code runs in goroutines, run one after the
-- other. The tables of messages keep the unique keys of sql/schema.sql, and refuse a row that their
-- columns cannot hold, which a predicate says.
--
-- Api: internal/api. A handler is a function of the request and of the logic layer, with
-- Logic.AuthServer, Logic.ChatServer and Logic.GroupServer behind calls that may be lost; the
-- decoding of a body is a parameter, and a response is its status or what its body tells.
--
-- A machine integer is a natural number below 2^64, its bit pattern; comparisons with 0 and the
-- wrap-around are written out. Content and keys are lists of bytes. User ids are below 2^63. The
-- other loops are recursions over lists; the printing of a number takes fuel, 20 digits, which is
-- enough below 2^64.
--
-- Not modelled: the other queries of MySQL; the Setup and Cleanup hooks of the consumers and
-- `getUserServerID`, which has no caller; internal/logic/producer.go, the configuration, logging
-- and connections of internal/common, and cmd, which set up third-party code; and the generated
-- protobuf code but for the fields of its messages. Locks are modelled by their critical sections
-- only, deadlines by failed outcomes, and no key expires in the middle of a call. singleflight runs
-- its function.
pub mod Prelude
pub mod Redis
pub mod Connect
pub mod Logic
pub mod Task
pub mod Api
