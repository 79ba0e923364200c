-- ===== src/Lib.antt =====
-- A model of sco: a server that holds a list of container tasks, agents that run those of their node,
-- and the binary protocol between them.
--
-- Parts, and the file that models each:
--   protocol/pkg/protocol              Protocol.antt: the structs, constants and errors
--     protocol.go                        Protocol/Encode, Protocol/Decode and Protocol/Frame; a byte
--                                        slice with its capacity is Protocol/Buffer, and the format
--                                        by itself, apart from the code, is Protocol/Layout
--     object_pool.go                     Protocol/Pool
--   protocol/pkg/protocolcommandstore  CommandStore.antt
--   protocol/pkg/protocolserver        connection.go and errors.go: ProtocolServer/Connection;
--                                      server.go: ProtocolServer/Handlers (handleMessage,
--                                      handleCommand, handleResponse, writeResponse),
--                                      ProtocolServer/RequestIds and ProtocolServer/Send (sendCmd),
--                                      ProtocolServer/Registry (the connections of a Server: ConnectTo,
--                                      Disconnect, accepting, reconnecting, SendCmd, SendCmdTo) with
--                                      its goroutines as a step relation in Registry/Goroutines, and
--                                      ProtocolServer/Sharing (the calls of sendCmd, the reader and
--                                      close on one connection, as a step relation too)
--   protocol/pkg/sharedmodels          SharedModels.antt
--   server/cmd/app                     Server/App: the four handlers and their registration;
--                                      Server/Main: main
--   server/cmd/cli                     Server/Cli
--   server/internal/config             Server/Config
--   server/internal/gateway            Server/Gateway, with the accept loop in Gateway/Serving
--   server/internal/cluster            Server/Cluster and Server/ClusterStore
--   server/internal/node               Server/NodeStore: model.go and nodestore; Server/Node: node.go
--   agent/internal/runtime             Agent/Runtime: runtime.go; Agent/Docker: docker.go, over the
--                                      client in Agent/DockerClient; Agent/Containerd: containerd.go
--   agent/internal/agent               Agent/Reconcile, Agent/Commands and Agent/Start (NewAgent)
--   agent/internal/config              Agent/Config
--   agent/cmd/app                      Agent/Main
-- The modules below a file hold its theorems. Common has what the parts share, and Tests the
-- concrete runs. Definitions have the source's names in snake case: handleMessage is
-- handle_message, and a method's receiver is an argument that comes back changed.
--
-- A peer reads frames (Frame), decodes them (Decode), and answers a response to whoever waits for
-- it (Handlers) or runs a command through the command store (CommandStore), where the server's
-- handlers stand (App). Its connections are listed, replaced and renewed by goroutines that share
-- them (Registry). The agent sends its commands (Send, Commands) and brings its container
-- runtime, which is Docker (Docker), to the tasks it got (Reconcile). Where the agent meets the server's
-- handlers, SendCmd is the network of Agent/Commands/Network: a call gets its response, or an error
-- before or after the server has handled it, and the connection may be replaced between two calls. A
-- command that is still on its way when a later one is handled is left out there.
--
-- How the program is modelled:
--   * Code that can panic is in the monad Run of Common/Run; an error is a value, and where Go
--     leaves something written beside an error, the model returns both.
--   * A byte is a number below 256 and an int is that of a 64-bit machine; uint16 and uint32 wrap
--     (Common/Words). A string is its bytes, a map an association list whose order stands for that
--     of an iteration, and a float32 a type parameter.
--   * A call that holds a lock is one step. Contexts and clocks show as inputs of a call: what
--     ctx.Err() says, and whether a deadline has passed. Logging is left out.
--   * Two loops have fuel. WriteFrame's is the length of its frame, since every round writes a byte
--     or ends the loop; the search for a request id has one round more than commands are pending.
--     Both are proved to be enough, the second for fewer than 2^32 pending commands.
--   * Connections are numbers of a heap and contexts numbers with a flag, so that goroutines can share
--     them. A goroutine takes one step for each section that holds connectionsMu, and for each call
--     between them; which goroutine goes next, and what a dial gives, is left open. The same holds
--     on one connection for pendingCmdsMu; there a channel of capacity one is an optional response,
--     and close is its two sections, cancel and clear, which may come at any time. After the 2^32nd
--     command of a connection an id can be given out again while an older call with it has not
--     returned, whose deferred delete then takes the newer entry; so what depends on the ids being
--     different is stated up to there.
--   * Parameters stand for code outside the repository: net.Conn's Write (Frame.Writer), the
--     container runtime (Runtime, with Reconcile/Laws as what is relied on), the Docker client
--     (DockerClient, with Docker/ClientLaws as what Docker documents), the containerd client
--     (Containerd.Client, with Containerd/ClientLaws), json.Marshal and
--     json.Unmarshal, the file system (Common/Files), http.DefaultClient.Do, the ICMP
--     socket, the ids of idgen.GenerateID, which are taken to be distinct, and what rand.Int, the
--     pools and an iteration over a map choose.
--
-- Not modelled: the logging, which no result depends on; the sockets of the gateway and the copying of
-- bytes between them, which are library calls; and the server's reconciler, which is empty. Each
-- goroutine of the gateway is modelled for itself, with its call of PickEndpoint as one step: their
-- interleavings within it, which have no lock, are left out. The goroutines of containerd's StartTask
-- and StopTask run one after the other.
pub mod Common
pub mod Protocol
pub mod CommandStore
pub mod SharedModels
pub mod Server
pub mod ProtocolServer
pub mod Agent
mod Tests
