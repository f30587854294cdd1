-- ===== src/Lib.antt =====
-- kwmserver, a WebRTC signaling server: browsers connect by websocket, ring each other, join groups
-- and exchange WebRTC signals through channels, which a media server (MCU) may serve instead.
--
-- The parts and the files that model them, with paths from the root of the repository:
--
--   Api                signaling/api-v1/*.go: the auth token and the messages
--   Connection         signaling/connection/connection.go: one websocket connection
--   Mcu                signaling/mcu: Pipeline is pipeline.go, Manager is manager.go and handlers.go,
--                      Texts is events.go
--   Admin              signaling/admin/manager.go, auth.go: tokens, keys, the tokens endpoint
--   Guest              signaling/guest/manager.go, guest.go: restrictions of guests; Logon is http.go
--   Clients            clients/registry.go, models.go: the registered OpenID clients and their keys
--   Turn               turn/*.go: credentials for TURN servers
--   Rtm                signaling/rtm: World is the state of the manager with the objects behind its
--                      tables, Hash the channel hash (webrtc.go, channel.go), Group and Channel the
--                      operations of group.go and channel.go, Close a closing connection with its
--                      callbacks, Webrtc the messages of webrtc.go, Chats those of chats.go, Sessions
--                      the users, connect keys and purges of manager.go, events.go and handlers.go,
--                      Dispatch the text messages of events.go, Lifetime the reader of a connection
--                      from OnConnect to OnDisconnect, Http the auth and the handlers of http.go
--   Base               shared helpers: texts, maps, pointers, outcomes of calls
--
-- A Go function stands in the model under its name in small letters: Channel.Add is
-- Rtm.Channel.add, processWebRTCMessage is Rtm.Webrtc.process_webrtc, whose cases are process_group,
-- process_call and process_signal. Pointers are numbers, and a heap gives the object behind each. A
-- call returns a value, an error, a run-time panic, or blocks for good on a mutex that nobody will
-- release. Functions that the source starts with `go` are listed as tasks; each critical section is
-- one step, and the pipelines, where the order of goroutines and timers matters, are a step
-- relation. Times are in seconds.
--
-- The connections stand in a list of the channel under their ids; Go ranges over a map in any
-- order, and the model in the order of the list. Counters are natural numbers, but for the ping id,
-- which wraps at 2 ^ 64. Every function is total by recursion on its data; there is no fuel.
--
-- A client gets a connect key from Http, opens a websocket with it (Sessions), and its texts go through
-- Dispatch to Webrtc and Chats, which act on the channels; what it set up is undone by the callbacks
-- that Close runs.
--
-- Not modelled: metrics, routes, configuration and start-up, and the raw input and output of
-- websockets. HMAC, base64, JSON, JWT, OpenID, URL parsing, regular expressions, random texts, the
-- TURN service and the websocket upgrade are parameters.
pub mod Base
pub mod Api
pub mod Connection
pub mod Mcu
pub mod Admin
pub mod Rtm
pub mod Guest
pub mod Clients
pub mod Turn
