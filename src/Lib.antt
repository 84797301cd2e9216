-- ===== src/Lib.antt =====
-- Verification of corRest, a REST server and HTTP client library in C.
--
-- The server side: a backend hands a request over, corRestStateInit.c sets up its state, and a worker or
-- the backend's own thread dispatches it: the vectors of corRestInit.c are searched by
-- corRestServiceLookup.c, the request passes a chain of checks, and the service routine runs.
-- The models, by file:
--
--   Verb      CorRestVerb.h, corRestVerbFromString.c: the methods and their names.
--   Url       corRestUrlValueEncode.c: percent-encoding and decoding.
--   Mime      CorRestIn.h, corMimeType.c: Content-Type (Mime) and Accept (Mime/Accept).
--   Route     CorRestService.h, servicePrepare of corRestInit.c; Route/Lookup is
--             corRestServiceLookup.c, Route/Build is routesBuild: the services of each verb.
--   Params    corRestParamRegistry.c: the bits of the query parameter names.
--   Pool      corRestClientPool.c with the types of corRestClient.h: the client's idle connections.
--   Request   corRestStateInit.c, and corRestUriParamAdd, corRestUriParamsParse and
--             corRestHttpHeaderAdd of corRestInit.c: the state that a request comes in.
--   Reply     corRestBodyPolicyCheck and corRestResponseHeaderVBuild of corRestInit.c, and
--             corRestProblem.c: what an answer is given besides its body.
--   Response  corRestClientParse.c: the client's reading of a response.
--   Client    corRestClientUrlParse (Client/Address), buildRequestBuf (Client/Text) and sendFollow
--             (Client/Follow) of corRestClient.c, with the headers of a request (Client/Headers)
--             and corRestClientSendOnce (Client/Exchange); base64 (Client/Base64) and the parsing, the
--             setting, the no-proxy list and the choice of corRestClientProxy.c (Client/Proxy);
--             corRestClientMulti.c (Client/Multi, with its loop in Client/Multi/Perform). What a
--             connection does in a round or a turn is an argument; the fuel of sendFollow is one
--             more than the redirects allowed.
--
--   Dispatch  corRestProcessRequest of corRestInit.c, in the order of its parts (Gate, Payload,
--             Missing, Query, Serve), and optionsHandler (Options). A part goes on or jumps to the
--             answer. Hooks, routines and the JSON library are arguments that may change the state.
--             Dispatch/InProcess is corRestProcessInProcess, a request to the own server.
--   Workers   the worker pool of corRestInit.c: queues that are linked through the requests, the steps of
--             several threads in any order (Workers/Runs), and the loop of a worker that is alone on its
--             shard (Workers/Drain).
--   Backend   corRestBackendBuiltin.c: the event loops (Backend/Start), a request that the engine
--             hands over (Backend/Receive), and its end (Backend/Finish).
--   Cor       corRestCor.c: the frames of the cor:// transport, and their reading from a socket.
--
-- A C string is the list of its bytes before the NUL. A char is signed and an int is its 32-bit
-- pattern where sums of chars are compared. `cSumV` is an array on the stack that is partly filled:
-- what a read outside the filled part finds is the argument `stray` of the lookup. A read behind the
-- end of a path finds a NUL. A double is its bit pattern with a sign, and `strtod` is an argument.
-- Allocation can fail where the code tests for it: a flag says whether it does.
--
-- A socket is the list of what arrives at it: bytes in any pieces, nothing for now, a signal, the end.
-- In Client/Exchange it is the bytes that arrive and what each wait, read and write does; no fuel is
-- needed, since each of them uses up one item of these lists.
-- What a thread does under a lock is one step, and the order of the steps is any list of them.
--
-- The loops over chunks, header lines and query parameters take fuel, as many rounds as there are bytes:
-- each round takes at least one byte. An overflow of a signed number and a copy of negative size are
-- undefined behaviour in C, and an outcome of their own in the model. The two sizes of buffers in
-- Client/Multi wrap around instead, as the machine does: they become negative, and no space is found.
--
-- The reading of frames takes fuel for each byte and each arrival.
--
-- Not modelled: the backend of libmicrohttpd, the engine below the built-in backend and its
-- coroutines and streams, the opening of a client's connection and the tunnel through a proxy,
-- the joining of workers, the sharing of a cor:// connection between calls, TLS, name resolution,
-- and the parts that are only input and output. A hook that puts another service in the place of
-- the one found is not followed, and the URL parameters are checked in as many rounds as there were
-- parameters.
pub mod Base
pub mod Verb
pub mod Url
pub mod Mime
pub mod Route
pub mod Params
pub mod Pool
pub mod Request
pub mod Reply
pub mod Response
pub mod Client
pub mod Dispatch
pub mod Workers
pub mod Backend
pub mod Cor
