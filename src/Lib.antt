-- ===== src/Lib.antt =====
-- The signaling server (server/src) and the client (src) of LoLProxChat, a proximity voice chat.
--
-- A client holds one WebSocket to the server. It joins a room under a name, relays WebRTC signals
-- to named members of the room, and reports its coordinates; the server keeps what the members of
-- a room last reported. A client finds its room by the players of its game, and plays the voice of
-- each peer at the volume that the server answers. The parts are:
--
--   * Validate: server/src/validate.ts, `validateJoin`, on any JSON values. Text has the tests on
--     strings (code points, and lengths in UTF-16 units).
--   * Client, Messages: server/src/types.ts. The fields of a client message are values of Json,
--     since nothing is known of what a socket sends.
--   * Rooms: server/src/rooms.ts, `RoomManager`. A `ClientInfo` object stands both in the list of
--     its room and in the map of sockets, and is changed in place: both hold references into a
--     heap. `join` allocates, the setters change the heap. The children of Rooms state the
--     invariant of this structure and that every operation keeps it.
--   * Handshake, Handler: server/src/ws-handler.ts. Handshake has sending, takeover, the `join`
--     message and the `close` event; Handler has the other messages and the switch. A handler
--     takes the rooms and gives the rooms and a list of effects on sockets: what is sent, closed
--     or torn down later, in order. `ws.readyState` is the parameter `is_open`.
--   * Limits: the limiters of server/src/rate-limit.ts: `TokenBucket` in Limits/Bucket,
--     `ConcurrencyLimiter` in Limits/Concurrency, `RejectionCounters` in Limits/Rejections.
--   * Volumes: server/src/volumes.ts. Distance has `Math.hypot` and `closestApproach`, Curve
--     `calculateVolume`, Tiered `computeTieredVolumes` and FromRoom `computeVolumesFromRoom`, both
--     with the rooms as their source of clients.
--   * Address: the client address of server/src/rate-limit.ts. Chars has the string operations, Ip
--     `normalizeIp`, `expandV6` and `bucketKeyForIp`, Nets `ipInNet`, Origin `clientIp` by proxy list
--     and by hop count, and `playerKey`. `isIP` of node:net is a parameter, of which nothing is
--     assumed. Texts are lists of UTF-16 units; `toLowerCase` changes ASCII letters only.
--     Trust reads the trusted proxies from the environment, with `Number` as a parameter.
--   * Heartbeat: server/src/heartbeat.ts, the sweep that terminates silent sockets.
--   * Server: the sockets of server/src/index.ts and the `message` listener of ws-handler.ts, over the
--     whole state: rooms, heartbeat, connection slots, message limiters and counters. An event is a
--     connection, a frame, a pong, a close or a sweep; Server/Reachable is about all runs. The text
--     that an address is counted under comes with the event.
--   * Turn: server/src/turn.ts. A request to the provider is cut in two, before and after its answer,
--     so that requests may be interleaved; Turn/Age is about all such runs.
--   * Http: the routes of server/src/index.ts with their limiters and counters. The parsing of a body
--     is a parameter. What the oldest clients ask for is told apart, but not modelled. Http/Due says
--     for which reasons a request is refused.
--   * Signaling: src/services/signaling.ts, `SignalingService`. Wire has the messages, `as_read` what
--     the server reads of one; the operations give the new state and a list of what the service does:
--     sockets made, written to and closed, timers, calls of handlers. Sending has what the client
--     sends of itself and the step of any event. Terminal is about all runs, Rejoin about a lost
--     connection, and Served puts the client and the handler of the server together.
--   * CaptureFrame: src/core/capture-frame.ts, the decoder of the frames that the shell sends.
--   * Screen: src/core/map-calibration.ts and src/overlay/resize-helpers.ts; Screen/GameWindow is
--     src/core/game-window.ts.
--   * Players: src/core/identity.ts; RoomId is src/core/room.ts, MapDetect src/core/map-detect.ts, and
--     Roster src/core/streamer-detect.ts with src/services/game-state.ts, whose session it makes. The
--     tables of Unicode (`normalize`, `toLowerCase`) are parameters, of which nothing is assumed.
--   * Peer: src/services/peer-connection.ts. Peer itself has the volume, mute and app audio of a peer,
--     Smooth `nextSmoothedVolume`, whose exponential is a parameter, and Candidates the queue of ICE
--     candidates, whose loop is cut into turns so that calls may come between, and so that a turn
--     may fail; Peer/InStep ties what is played to the smoothed volume.
--   * Ice: the cache of ICE servers in src/core/config.ts, with requests cut in two.
--   * Prefs: src/services/audio-prefs.ts and src/services/privacy.ts over a storage that may refuse.
--   * Speakers: src/services/speakers.ts; Speakers/Listed is about who is listed by
--     what is stored, and Speakers/History over the samples taken.
--   * Tracker: the evidence in src/services/tracking-helpers.ts. WrongLock has `nextWrongLockEvidence`,
--     Verdicts `TeammateVerdicts`, Dwell `CameraDwell` and Dwell/Favourite what is read from it; Nearest
--     is the loop for the nearest point, which they share. Choice has which blob is followed or locked
--     again, with src/services/blob-types.ts, Choice/Merged icons that lie over each other, and Pick
--     the loop that keeps the best.
--   * Samples: runs of all of these, at which the theorems are applied.
--
-- Choices. A socket is a number. `Date.now()` is an argument, one for a whole event; times are
-- whole milliseconds, and since the present is later than every window subtracted from it, `now -
-- window` stops at 0 without loss. Coordinates are whole numbers of thousandths of a game unit,
-- and tokens are whole thousandths of a token, so that sums are exact. A distance is the root of
-- an exact sum of squares, rounded down to a thousandth of a unit, and a volume is a whole number
-- out of 450000 squared, which the falloff squares exactly; the rounding of JavaScript numbers is
-- not modelled.
-- Volumes that are played are in millionths, rounded down at each step. Places on the minimap are
-- in thousandths of a pixel, and distances between them are compared by their squares, which is
-- exact. A `Map` is an association list in insertion order. `JSON.parse` is the type Frame: what a
-- frame parses to. All loops are structural recursion but the root, whose fuel is
-- its argument: each step quarters that; and numerals, whose fuel is the most digits that they
-- can have (seven of base 36 for 32 bits, which more rounds would not lengthen).
--
-- Left out: of the client the orchestrator, the image processing and the states of the tracker,
-- sound and windows; the desktop shell (src-tauri); `computeVolumes`, the path of the oldest
-- clients with encrypted positions; the reading of the environment but for the trusted proxies;
-- timers; console output; the text of errors beyond which error it is (an object that cannot be put
-- into a text makes the handler answer 'Internal error' instead); the outer `try` of the message
-- handler.

pub mod Common
pub mod Json
pub mod Text
pub mod Validate
pub mod Client
pub mod Rooms
pub mod Limits
pub mod Heartbeat
pub mod Messages
pub mod Handshake
pub mod Handler
pub mod Volumes
pub mod Address
pub mod Server
pub mod Turn
pub mod Http
pub mod Signaling
pub mod CaptureFrame
pub mod Screen
pub mod Players
pub mod Peer
pub mod Ice
pub mod Prefs
pub mod Speakers
pub mod Tracker
mod Samples
