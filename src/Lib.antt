-- ===== src/Lib.antt =====
-- A model of the Bayeux client of vurs and of the code around it, media/js/cometd.js and
-- media/js/cometd/, with the properties that make it correct.
--
-- The program is a page's messaging client. A client (org.cometd.Cometd) shakes hands with a server,
-- keeps one connect request open (the long poll), sends what the page publishes and
-- subscribes to, and calls the page's listeners with what comes back. It keeps the transports it may
-- use in a registry (org.cometd.TransportRegistry), passes each message through the
-- page's extensions, and hands envelopes of messages to a transport (org.cometd.Transport), which
-- keeps the number of requests within bounds, queues the rest and gives each request a timeout. A
-- transport answers through the envelope's onSuccess and onFailure, which lead back into the client.
--
-- Files and code:
--   Prelude, Prelude/*: natural numbers, lists, maps as lists of pairs, integers, and the outcome of a
--     function that may throw.
--   Value, Value/Objects: the values of a message, and `_mixin`. Value/Copies: its deep copies.
--   Registry, Registry/*: org.cometd.TransportRegistry; its methods keep their names (add, remove,
--     find_transport_types, negotiate_transport). Registry/Priorities, Registry/Refines: the one list
--     that its array and its map stand for.
--   Listeners, Listeners/*: `_listeners` and its operations. The arrays stand in a store, since a
--     notification walks through an array while a listener may change it; a handle is a
--     channel and an index.
--   Channel: the globbing channels of `_notifyListeners`. Channel/Parts, Channel/Heard: which they are,
--     said without the loop.
--   Client/State: the variables of org.cometd.Cometd as the record Client, and the code that it calls
--     as the record Host.
--   Client/Extensions, Sending, Connection, Responses, Messages, Api: the functions of the client in
--     the order of the file, each under its own name in this library's spelling
--     (`_delayedSend` is delayed_send). A function is a state transformer that returns or throws, and
--     keeps what it changed before it threw, as the code does.
--   Client/Configure: `configure` and `init`, with the URL's host taken apart as the code's regular
--     expression does. Client/Configure/Domain, Exact: which URLs are of another domain.
--   Client/Events: what can happen to a client, a public call, an answer of a transport or a timeout.
--   Client/Keeps, Client/Keeps/*: how an invariant is carried through the functions and through any
--     sequence of events, from the changes of state that they are made of (the record Respects), and
--     what is asked of the page's own code.
--   Client/Sound, Client/Sound/Reachable: an invariant of the client.
--   Client/Joined, Client/Joined/Bounded: a client together with its transports, and an invariant of
--     both. Client/Joined/Polled, Cycle: its connects on the transport, through the interface
--     Client/Polls/Line, which says what they rely on.
--   Client/Retry: how long it waits after a failure. Client/Polls/Failed, Persists and
--     Client/Joined/Failing: connects that fail in a row.
--   Client/Notified: the rounds of a notification.
--   Client/Batches: batches that nest, `_startBatch`, `_queueSend` and `_endBatch` together.
--   Client/Announced: what the server is told of the subscriptions.
--   Client/Chain: the extensions one after the other. Client/Numbered: the messages of an envelope.
--   Client/Polls, Client/Polls/*: the rounds of a connected client, from timeout to connect to answer,
--     and the answer to a handshake that they start from. Client/Polls/Shaking: a handshake whose
--     message the extensions hold back.
--   Client/Held: messages that are held back during a handshake.
--   Client/Down, Client/Down/Incoming: answers and failures that come in after a disconnect.
--     Client/Down/Quiet: what is left to do once disconnected.
--   Transport/State, Requests, Polling: org.cometd.Transport and the two transports that extend it.
--     The methods that a transport overrides are the record Kind, which long_polling and
--     callback_polling fill. A request is known by its id.
--   Transport/Bounds, Transport/Order: how many requests are in flight, and the order of sending.
--   Transport/Drain: how it empties its queue. Transport/Kept, Transport/Failing: what becomes of the
--     queue where requests fail.
--   Transport/Domain: whether the long-polling transport reaches another domain.
--   Transport/Expiry, Transport/Expiry/Late: requests that were given up.
--   Transport/Watched, Transport/Watched/Once: the timeouts of requests that were answered.
--   Ack, Ack/Exchange: media/js/cometd/AckExtension.js.
--   TimeSync: media/js/cometd/TimeSyncExtension.js. TimeSync/Window: the window of
--     samples. TimeSync/Exchanges, Rounding, Skewed, Exact: its estimate of the server's clock.
--   Reload: media/js/cometd/ReloadExtension.js, its cookies and JSON being the record Browser.
--     Reload/Restored, Reload/Tracked: a connection that is saved, and the subscriptions.
--     Reload/Hooked, Withheld, Resumed: the extension on a client, the handshake that it holds back,
--     and the client that goes on with the old connection.
--   TimeStamp: media/js/cometd/TimeStampExtension.js.
--   Binding, Binding/Choice: media/js/jquery/jquery.cometd.js, the Network of a page that has jQuery.
--     Binding/Extensions: the files beside it that register the extensions.
--   Logging: the log and its level.
--   Inputs, Inputs/Shown: media/js/vurs.js, the hints in a page's inputs.
--   Tests, Tests/*: runs at fixed inputs.
--
-- Bounds and fuel: the loops over the extensions and over the listeners of a channel run over arrays
-- that their bodies may lengthen, so in the program they need not end. `host.rounds` bounds
-- their rounds; a run that reaches it is the outcome `unfinished`, which is no exception and which no
-- handler catches. Every other loop is over an array that stays as it is, and is structural.
--
-- Parameters: the network and the browser (the records Network, Page and Browser), the host of the
-- page's location, the date, the page's listeners, extensions and objects (the record Host), the JSON
-- reader and writer, and `encodeURI`. They answer later, by an event, never before they return; jQuery
-- 1.3.2, which calls back at once when the browser's `send` throws, does not in that case.
--
-- What differs from the code: numbers of messages are integers, and a network delay that would be
-- negative is zero, as a browser takes it. Messages are passed by value, so an extension returns the
-- message that it changed. Texts of exceptions are shortened. The reason of a failure is kept,
-- the exception that comes with it, which is only logged or shown, is not. A setting that is given is a
-- number, and one that is no number above zero gives the default; a URL that is no text
-- counts as none, and so does a name of a property. Advice that is no object is
-- left out, and an array or a text in place of a message's properties has none. The samples of the time
-- synchronisation are
-- halves of integers, and twice their value is kept; `none` is NaN, which a time stamp
-- that is no number, Boolean or null gives, a text and an array included. A cookie has an age, and its date of expiry, which says the same, is left out.
--
-- Not modelled: the calls of the log in the client's functions, which change no other state. The
-- request headers of `configure`, which are a parameter of the Network. The copies of
-- readability.js, jQuery, jQuery UI, jquery.json and env.js, which are other projects. The server in
-- Java.
pub mod Prelude
pub mod Registry
pub mod Value
pub mod Listeners
pub mod Channel
pub mod Client
pub mod Transport
pub mod Ack
pub mod TimeSync
pub mod Reload
pub mod TimeStamp
pub mod Binding
pub mod Logging
pub mod Inputs
pub mod Tests
