-- ===== src/Lib.antt =====
-- SimplyChat: chats with messages and files. The message service (messageService/) keeps chats,
-- members and messages in PostgreSQL, delivers messages to the clients that are online, and has
-- the files of a message stored by the file service (fileService/), which keeps metadata in
-- PostgreSQL and contents in an S3 store. The gateway (apiGateway/) stands before both.
--
-- Base holds what the parts share: Boolean tests and instances of equality (Base/Tests), integers
-- (Base/Int), lists (Base/Lists, Base/Sorting), stateful code that may fail (Base/State) and Go's
-- functions on texts (Base/Text). Postgres is the server as a parameter: which statements fail,
-- how many rows of a result arrive, whether a commit that ends in an error was applied, the clock,
-- and the cast to uuid.
--
-- Routes: gorilla/mux as a parameter, with the rule by which it documents to choose among routes;
-- the routers themselves are FileService/Routes (with the answers of
-- internal/transport/httpapi/responses.go), MessageService/Routes and Gateway/Routes.
--
-- Start: what the starts of the services share, a trace of the connections that are opened and
-- closed; FileService/Start, MessageService/Start and Gateway/Start are the NewApp of each
-- internal/app/app.go with what it calls.
--
-- Models: the payloads of messageService/internal/models/models.go.
--
-- MessageStorage: messageService/internal/storage/postgres/messageStorage. Tables is the schema of
-- messageService/docker/init.sql and the sending of a statement; Chats has CreateChat,
-- AddUserToChat and the queries on members; Messages has SaveMessage, withTx, CreateFileMessage
-- and UserHasAccessToFile; History has GetMessageHistory with aggregateHistoryRows and
-- reverseHistory. Proofs: Invariant and Operations (all writes), Transactions, Attachments,
-- Stored, Creation and FileMessages (messages with files and the access to them), Grouping,
-- Reversal, Paging and Scrolling (the history).
--
-- FileService: Errors is fileService/internal/domain/fileentity/errors.go and
-- internal/transport/httpapi/errors.go; Metadata is internal/repository/postgres/filemetadata;
-- ObjectStorage is the interface of internal/storage/objectstorage; S3 is
-- internal/storage/s3storage, whose operations fill the interface (S3/Objects) by the loop of
-- retries (S3/Attempts, S3/Retry); Names and Service are internal/service/fileservice, with proofs
-- in Service/Uploads, Service/Accepted and Service/Deletion; Schedule has its requests at the same
-- time, a turn for each call of a store, with proofs in Schedule/Intact, Schedule/Retired and
-- Schedule/Deletions, over Schedule/Ends, which counts turns, Schedule/Alone, which sets a request
-- alone beside its operation, Schedule/Invariant, which says what a turn may change,
-- Schedule/Steps, which goes through the turns, and Schedule/Rows, which says where rows come
-- from; Http is internal/transport/httpapi/handler.go, with proofs in Http/Deleted; Config is
-- internal/config/config.go, with proofs in Config/Usable.
--
-- Wire puts the handlers of the file service behind the client of the message service
-- (internal/transport/httpapi/responses.go); Wire/Reliable, over Wire/Hides, is about the promises
-- on which the message service relies, and Wire/Routed follows a path from the router of the
-- gateway to the router of the service behind it.
--
-- Gateway: apiGateway/internal. Auth has the calls of the auth service and the services that hand
-- them on (client/authClient.go, service/authService.go, service/gatewayService.go), Tokens the
-- validation of access tokens, Cookies and AuthHandler are handler/authHandler.go, MessageClient
-- is client/messageClient.go, ChatHandler is handler/chatHandler.go, and WsProxy the two loops of
-- service/gatewayService.go as a step relation. Proofs: Tokens/Certified, AuthHandler/SignIn,
-- AuthHandler/Session, ChatHandler/Access and ChatHandler/Sender, which follow a request into the
-- handlers of the message service.
--
-- MessageService: Config is messageService/internal/config/config.go; FileClient is
-- messageService/internal/client/fileService; Clients is
-- internal/storage/memoryStorage/clientStorage; Members is
-- internal/storage/redis/chatMembersStorage with getChatMembers; FanOut has fanOutMessage and
-- enrichMessagePayload, and FanOut/Stopped is about a delivery that stops; SendFileMessage is
-- internal/service/messageService/sendFileMessage.go, with proofs in SendFileMessage/Outcomes,
-- over SendFileMessage/Ending, SendFileMessage/Uploading, which relates files to what is uploaded,
-- and SendFileMessage/Compensation, and SendFileMessage/Sender; Http is
-- internal/transport/http/fileMessageHandler.go, with proofs in Http/Access and Http/Sender;
-- Handlers has the handlers of the events of internal/service/messageService/messageService.go,
-- with proofs in Handlers/Writes, Handlers/History, Handlers/Sending, Handlers/Chats and
-- Handlers/Stale, over Handlers/Moves, which carries a relation on states through every handler;
-- Sessions is internal/transport/websocket.go with the loops ReadMessage and WriteMessage as a
-- step relation, with proofs in Sessions/Storage and Sessions/Invariant; Statuses follows an error
-- of the file service to the sender of a message. Tests applies the theorems to concrete data.
--
-- State is passed explicitly, and comes back beside an error too. An int is an unbounded integer:
-- ids, sizes and limits stay far below 64 bits. A time is a number of microseconds. Loops over
-- slices are recursion on lists; the loop of reverseHistory runs on fuel, for which the length of
-- the page is proved enough; the loop of retries is recursion on the attempts that are left.
-- Outside FileService/Schedule the statements of one request run one after another, without those
-- of another request between them; there the body of a download is read in the turn of its
-- GetObject. The handler of an event is one step of a session.
--
-- Not modelled: log lines, the texts of errors, the JSON of requests, answers and events, serving
-- after the start (Run, main), the methods of messageService/internal/storage/postgres/postgres.go
-- that hand on to pgxpool, generated code and the browser client. PostgreSQL, Redis, the S3
-- client, mux, the auth service, the library of web tokens, net/http, net/url, mime, uuid,
-- websockets and the file system are parameters.
pub mod Base
pub mod Models
pub mod Postgres
pub mod Routes
pub mod Start
pub mod MessageStorage
pub mod FileService
pub mod MessageService
pub mod Tests
pub mod Gateway
pub mod Wire
