-- ===== src/Lib.antt =====
-- A model of centrifuge-go, the Go client of the Centrifugo real-time server, with theorems about it.
--
-- A `Client` keeps one connection to a server: it dials a transport, sends a connect command, reads
-- replies and pushes, and reconnects with a growing delay when the transport is lost. `Subscription`
-- objects are registered at the client by channel. Each is unsubscribed, subscribing or subscribed,
-- and resubscribes in every new connected session, recovering from its last stream position. The
-- two call each other: a teardown of the client moves its subscriptions to subscribing, a connect
-- resubscribes them, replies and pushes are routed to them, and a broken delta or an unauthorized
-- token ends the connection. Handlers of the application, its GetToken and GetState functions and
-- the goroutines of timers run between the lock holds of a method.
--
-- Files and code:
--   Prelude, Prelude/*         shared names, tests, Go maps as association lists
--   Errors, Codes, Protocol    errors.go, codes.go, protocol.go and the messages that are read
--   Backoff                    reconnect.go
--   State, State/*             the structs of client.go and subscription.go, what an operation leaves
--                              behind (events, goroutines, requests), and the outside world
--   Effects                    client.go: queueEvent, runHandlerSync
--   Queue, Queue/*             queue.go, and its refinement of a list
--   Requests, Requests/Table   client.go: nextCmdID, addRequest, popRequest, sendAsync, send
--   PushIds, PushIds/Routing   client.go: updateSubscriptionPushID
--   Calls, Calls/Api           client.go, subscription.go: onConnect, its futures, what calls of the API
--                              pass to it, and these calls (Send, RPC, Publish, History, Presence,
--                              PresenceStats)
--   Calls/Settled              theorems
--   Transport                  transport_websocket.go: the reader, Read, Write, Close, close frames
--   Transport/*                theorems
--   Filter                     filter.go
--   Subscription               subscription.go; its child modules model:
--     New                      newSubscription
--     Transitions              moveToUnsubscribedLocked, moveToSubscribingLocked, scheduleResubscribe,
--                              Unsubscribe
--     Resubscribe              Subscribe, resubscribe, continueResubscribe
--     Failure                  subscribeError, getStateAndResubscribe, the GetToken step
--     Delta                    applyDeltaLocked, the loop over recovered publications
--     Reply                    moveToSubscribed, the delivery of recovered publications
--     Push                     handlePublication, handleJoin, handleLeave, handleUnsubscribe,
--                              invalidateState, SetTagsFilter
--     Refresh                  refresh and the callback of the sub refresh command
--     Futures, Callbacks       onSubscribe; the functions of timers and of the subscribe request
--     Operations               the operations above as data, and runs of them
--     Soundness, Unsubscribed, Staleness, Stream, Progress, Lifecycle   theorems
--   World                      a client with the heap of its subscriptions
--   Client                     client.go; its child modules model:
--     New                      newClient, NewSubscription
--     Teardown, Transitions    clearConnectedState, moveToDisconnectedIf, moveToConnectingFrom,
--                              moveToClosed, handleTransportDisconnect, the registry
--     ServerSubs               server-side subscriptions
--     Tokens, Connect          refreshToken, sendRefresh; startConnecting, startReconnectingIf and
--                              the callback of the connect command
--     Dispatch, Replies        handlePush; handle, malformedReply and the callbacks of requests
--     Reader                   reader, readOnce, waitServerPing
--     Api, Operations          Connect, Disconnect, Close; the operations of a client and of its
--                              subscriptions as data, and runs of them
--     Core, Consistency, Reports, Complete, Connecting, Closed,
--     Start, Answers, Frames, Progress   theorems
--   Examples, Examples/*       concrete clients and subscriptions at which the theorems are applied
--
-- Conventions. A pointer is a number, and a World gives the subscription at each address. What the
-- source does in one lock hold is one function; where it releases the lock and waits (for a handler,
-- GetToken, GetState, a dial, a transport to close), the function takes an argument for all that
-- happens meanwhile, which may change anything. A function that waits more than once takes the same
-- argument for each of its waits of a kind: a program that wants other happenings in the second of
-- them is not covered. Two lock holds with nothing waited for between them run as one. Closures are
-- constructors of Callback, Task and Event with the variables they capture. A timer is its delay, the number its function captures, and whether it is armed. A Go map is an
-- association list, in any order. uint32 and uint64 counters wrap around; an int64 is its bit
-- pattern. The only fuel is that of the loop of nextCmdID: two rounds are enough, since the successor
-- of zero is one. The writing to a transport, the delay of jpillora/backoff, fdelta.Apply and
-- json.Unmarshal are the fields of Env. The client's queue is the list of what was pushed, which the
-- theorem about Queue justifies.
--
-- Not modelled: the options of the dialer, the choice among several endpoints, the wait in which the
-- queue's close blocks, the setters of handlers, logging, the wait of a caller for the result of its
-- call or the end of its context, and a push with several parts set.
pub mod Prelude
pub mod Errors
pub mod Codes
pub mod Protocol
pub mod Backoff
pub mod State
pub mod Effects
pub mod Requests
pub mod PushIds
pub mod Calls
pub mod Subscription
pub mod World
pub mod Client
pub mod Transport
pub mod Filter
pub mod Examples
pub mod Queue
