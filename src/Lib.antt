-- ===== src/Lib.antt =====
-- nbio: a non-blocking network engine with an HTTP/1.x server and websockets on top of it. Bytes
-- from a connection reach nbhttp.Parser, which cuts them into HTTP messages and calls a Processor;
-- after an upgrade they reach websocket.Conn, which cuts them into frames.
--
-- Base: shared notation, lists, integers, bits. Go: what the source uses of the standard library:
-- strings, strconv and net/http's Header.
-- Http.Table: nbhttp/table.go. Http.Parser: nbhttp/parser.go with nbhttp/state.go, the Processor
-- of nbhttp/processor.go and the errors of nbhttp/error.go. In State, Parser is the struct, with
-- `world` for what stands behind the Processor; Framing has parseAndValidateChunkSize,
-- parseTransferEncoding, parseContentLength, parseTrailer and handleMessage; StartLine, Fields and
-- Body have a function for each case of the switch in Parse (`step_path` for statePath); Loop has
-- Parse itself; Sized and Errors are about calls of Parse after one that failed. The variables start and i of
-- Parse are `tok`, the bytes data[start:i], and the bytes from i on.
-- Http.Body: BodyReader of nbhttp/body.go, with what the allocator was given to free as a list;
-- Rounds and Reads have the loop of Read, Filling has append, Stream has both together.
-- Http.Response: nbhttp/response.go: Response with WriteHeader, checkChunked, contentLength and
-- formatInt; Head has eoncodeHead, Write has Write and writeChunk, Flush has Flush, flush and
-- flushResponse of nbhttp/processor.go. The connection, http.StatusText, the time and what a
-- pooled buffer holds are the parameter Outside; `sent` records what the connection took. Chunks,
-- Chunked and Stale are about chunked bodies, Sized, Length and Delivered about those with a
-- Content-Length, Framing about checkChunked, Digits about sizes of chunks.
-- Http.Parser.Contract: what the parser asks of a Processor, as the record Serves: in which phase
-- each of its methods is called. Http.Processor: nbhttp/processor.go: Server has ServerProcessor,
-- Client has ClientProcessor and EmptyProcessor, both as instances of the record Processor; Serving
-- has that they fulfil Serves, Closing when request.Close is set.
-- Http.ClientConn: nbhttp/client_conn.go: ClientConn with onResponse, Reset and closing; Request
-- has Do (do_request), where World answers what Do asks of its surroundings, `events` records
-- what is called. Account, Ways and Sending have what one operation does with the handlers, Ordered
-- any sequence of them.
-- Websocket: nbhttp/websocket/conn.go: Mask has maskXOR, Frame has nextFrame, validFrame,
-- isMessageTooLarge and the buffer that writeFrame lays out; Conn has Parse, with what it calls as
-- the record Handlers, and WriteMessage; Handled has it with handleWsMessage behind it. Head and
-- RoundTrip read one frame back, Prefix has what nextFrame does as more bytes come, Taking and
-- Delivery a message in fragments. Control has handleWsMessage, WriteClose and the close handler of
-- upgrader.go, with what they call recorded.
-- SendQueue has the send queue of writeFrame with its goroutine and CloseAndClean as a step relation,
-- States and Steps what it looks like, Ordered what is sent.
-- Websocket.Tokens: the lists of tokens in header fields of nbhttp/websocket/upgrader.go: skipSpace,
-- nextToken, nextTokenOrQuoted, equalASCIIFold (over Go.Runes), headerContains, parseExtensions; Words
-- and Listed have headerContains against a split at the commas, Quoted, Params and Offers what parseExtensions
-- reads back. Websocket.Upgrade: commCheck with selectSubprotocol and commResponse of upgrader.go, the
-- digest and url.Parse being the parameter Outside. Websocket.Dial: DialContext of
-- nbhttp/websocket/dialer.go, the request (dial_request) and the checks of the response
-- (check_response). Asking has the request under commCheck, Answering has the fields of the response,
-- Wire and Reading read them from its bytes line by line, Receiving has them under those checks,
-- Agreed both, Protocols and Selected the subprotocol; between the two the request is taken to
-- arrive with the header that it was sent with. Websocket.Takeover: Upgrade from the check on, over
-- every kind of connection, with what fails as the parameter World; Settled has what it leaves.
-- Mempool: mempool/aligned_allocator.go: the pools are a list, an item of sync.Pool is taken by a
-- choice, and a slice beyond a capacity is `none`. Pools has Get and Put, Allocation Malloc and
-- Free, Appending Append.
-- Taskpool: taskpool/taskpool.go, Lmux: lmux/lmux.go, Timer: timer/timer.go: the goroutines of each
-- as a step relation, an atomic operation, a channel operation or a section under a lock being one
-- step; Reach is what any order of steps leads to. Base.Times has the counting that they share.
-- Net.Conn: the write path of conn_unix.go. Write has Write, Writev and what they call, Flush has
-- flush; the kernel is the parameter Kernel, which answers each system call, and `sent` and
-- `events` record what it took and what the connection called. Sound, Writing, Slices, Vectored,
-- Flushing and Ending have one operation each, Order any sequence of them; Stuck has what flush
-- does with an entry that has nothing left.
-- Net.Poller: poller_epoll.go: handle_event is the body of readWriteLoop for one event of a socket,
-- read_rounds its loop of reads, with the answers of the kernel as a list and what the handler of data
-- closes as a parameter; Opened and Hangup have what is read before the close. Http.HostConns: hostConns of nbhttp/client.go, as a step relation.
--
-- Loops run on fuel: the loop of Parse on as many rounds as there are bytes, cached ones
-- included, since a round takes at least one; the loops of maskXOR on the length of the body; the
-- loop of Read on a round for each buffer and one more; the loop of websocket.Conn.Parse on a round
-- for each byte and one more; the loops of headerContains and parseExtensions on a round for each
-- byte of a value and one more; the loop of flush on a round for each byte queued, for each
-- interruption, and one more.
-- Where the parser or a frame keeps a number in an int or an int64, overflow is written
-- out; lengths of slices do not reach it.
--
-- Not modelled: the other pollers, the table of connections and datagrams (system calls), the
-- engines, the proxies of the client, ReadFrom of Response (sendfile), the waiting of DialContext and
-- compression (compress/flate), logging, tools.
pub mod Base
pub mod Go
pub mod Http
pub mod Lmux
pub mod Mempool
pub mod Net
pub mod Taskpool
pub mod Timer
pub mod Websocket
