-- ===== src/Lib.antt =====
-- lars: a load-balancing and remote-service system, and the reactor library under it. Bytes come in
-- on a socket, wait in a buffer from a pool, are cut into messages and given to handlers; a
-- handler's answer is appended to an output buffer, which the event loop empties into the socket
-- when the socket is writable. Other threads hand work to a loop through its task queue. On this
-- stand lars_dns, which tells its clients which hosts serve a module and when that changes, and
-- lars_agent, which chooses one of the hosts for a caller.
--
-- Parts:
-- - Prelude: the tests, lists, machine integers and results the other modules share. An `int` is a
--   value of ℤ between -2^31 and 2^31 - 1, a `size_t` is a natural number, with the wrap-around of
--   conversions and of sums and differences written out. `Outcome` is a call's end: it returns, or
--   it calls exit, fails an assertion, does something undefined, or has used up the fuel of a loop.
-- - Buffer.Memory: the bytes behind a `char*`, a function from offsets.
-- - Buffer.IoBuf (lars_reactor/src/io_buf.cc): one block, its capacity, head and length.
-- - Buffer.Pool (lars_reactor/src/buf_pool.cc): free blocks by size class. The pool of the process
--   is passed from call to call; its mutex makes a call one step.
-- - Buffer.ReactorBuf, Buffer.InputBuf, Buffer.OutputBuf (lars_reactor/src/reactor_buf.cc): the
--   buffers of a connection. What ioctl, read and write answer is an argument.
-- - Net.Message (lars_reactor/include/message.h): the header of a message and its bytes.
-- - Net.Frames: the loop of handle_read in lars_reactor/src/tcp_conn.cc and
--   lars_reactor/src/tcp_client.cc, which differ in where a round reads its header.
-- - Net.Handlers (lars_reactor/include/handler.h): the handlers of a process.
-- - Net.Socket (lars_reactor/src/socket.cc): create_socket, bind, listen, accept with its errors,
--   the options of a socket, and the destructor.
-- - Net.EventLoop (lars_reactor/src/event_loop.cc): what is registered for each descriptor, and the
--   callbacks for what epoll reports. Net.EventLoop.Starting is the constructor.
-- - Net.TcpConn (lars_reactor/src/tcp_conn.cc): the constructor, listen_read, close, send, handle_read
--   and handle_write.
-- - Net.TcpClient (lars_reactor/src/tcp_client.cc): do_connect, handle_connect, clean_conn, send,
--   handle_read, handle_write.
-- - Net.Link: a connection of the server with the client's end, and TCP between them, which hands the
--   client the bytes that the server's socket took, in order, cut in any way.
-- - Net.TaskQueue (lars_reactor/src/task_queue.cc): tasks handed from thread to thread, as steps
--   between which other threads may act.
-- - Net.LoopThread (lars_reactor/src/event_loop_thread.cc): start and thread_func, as the steps of
--   two threads.
-- - Net.ThreadPool (lars_reactor/src/event_loop_thread_pool.cc): start and get_next_loop.
-- - Net.TcpServer (lars_reactor/src/tcp_server.cc): accepting connections up to a limit, and their
--   deletion in the main loop. Net.TcpServer.Settings is the server that the constructors of
--   dns_server (lars_dns/src/dns_server.cc) and reporter_server
--   (lars_reporter/src/reporter_server.cc) make.
-- - Net.Udp (lars_reactor/src/udp_server.cc, lars_reactor/src/udp_client.cc): one message in each
--   datagram, and the peer that the next one goes to. Net.Udp.Client is udp_client with a server at
--   the other end.
-- - Config.Trim, Config.Load, Config.Values (lars_reactor/src/config_file.cc): a configuration file,
--   as the bytes of the file, and the settings that it gives. Characters are their codes. A stream
--   that reads an integer is written out: the digits, up to the range of `long long`.
-- - Dns.Key: the 64-bit keys of modules, as lars_dns and lars_agent pack and unpack them.
-- - Dns.Subscribe (lars_dns/src/subscribe.cc): the two maps of a thread. A set is a list without an
--   order that matters; a map is a function with an Option for a missing key.
-- - Dns.Route (lars_dns/src/dns_route.cc): the map that is served and the one that is filled, behind
--   shared pointers, which are addresses in a store; MySQL's answers are arguments.
-- - Dns.Changes: a round of check_route_changes, after which each loop runs the task of publishing
--   that tcp_server::send_task hands it, before the next round.
-- - Dns.Changes.Table: the statements that load_changes and remove_changes send, and the table
--   RouteChange under them. A database is any type, with what MySQL answers and leaves as functions.
-- - Config.Database, Dns.Database, Reporter.Database: the connections of lars_dns/src/dns_route.cc
--   and lars_reporter/src/store_report.cc to MySQL.
-- - Dns.Server (lars_dns/src/dns_server.cc): get_route, its registration and its answer on the
--   connection, and on_build, over protobuf. Dns.Server.Main is the service from main on, and
--   Dns.Server.Asking the way of a reply over a Net.Link to the client that asked.
-- - Agent.LoadBalance (lars_agent/src/load_balance.cc): choice_one_host on the two lists.
-- - Agent.RouteLb (lars_agent/src/route_lb.cc): get_host and update_host.
-- - Agent.UdpServer (lars_agent/src/agent_udp_server.cc): get_host_handler, over protobuf.
-- - Agent.Servers (lars_agent/src/agent_udp_server.cc, lars_agent/src/agent_server.cc): the three
--   servers, which register their handlers in one handler_map, and the sockets that they open.
-- - Agent.DnsClient (lars_agent/include/agent_dns_client.h, lars_agent/include/agent_report_client.h,
--   lars_agent/src/load_balance.cc): the start of both clients, and the request of pull. Agent.Main
--   (lars_agent/src/agent_server.cc) is the agent from main on.
-- - Reporter.Store (lars_reporter/src/store_report.cc): the statements that a report is written by,
--   as the text that snprintf makes.
-- - Reporter.Pool (lars_reporter/src/store_thread_pool.cc, lars_reporter/src/reporter_server.cc): a
--   report on its way to one of the storing threads. Reporter.Server is the service from main on.
-- - Api (api/cpp/lars_api/lars_api.cc): the sockets of a client, and get_host, the call of a program
--   that looks for a host, with the answers that the kernel gives it. The client opens stream sockets,
--   which no server of the agent serves; the two are not put together.
--
-- A handler is a function of the message, the pool and the connection as a net_connection; the
-- theorems about reading take any handlers that meet Net.Frames.Handling: a relation that they keep
-- between the messages handled so far and the connection, what they ask of a message, and how many
-- free blocks they need. A theorem about a loop says that the loop returns: the frame
-- loop has fuel for one round more than the bytes that wait, and each round but the last takes at
-- least a header's eight. A write loop ends with the list of the kernel's answers.
--
-- Modules named Examples apply the theorems at concrete inputs.
--
-- Two predicates say that a call ends well. `Yields m P`: it returns, and P holds of the result.
-- `Returns m P`: the same, or the process calls exit, as the pool does for want of a block. Neither
-- admits a failed assertion, undefined behaviour, or a loop that runs out of fuel. The modules named
-- Stock and Stocked count the free blocks of the pool, and turn the one into the other where there
-- are enough.
--
-- Not modelled: system calls and epoll themselves, the scheduling of threads, the destructors but
-- those of csocket, tcp_conn and the UDP ends, the generated protocol classes, examples and tests;
-- and, of the program's own logic, GetFloat, which reads floating-point numbers, and deal_recv_route in
-- lars_agent/include/agent_dns_client.h, which does not compile.
pub mod Prelude
pub mod Buffer
pub mod Net
pub mod Dns
pub mod Agent
pub mod Api
pub mod Config
pub mod Reporter
