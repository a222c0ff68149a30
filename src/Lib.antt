-- ===== src/Lib.antt =====
-- cbccd, the central management daemon of a fleet of gateways, and its utility library.
--
-- Parts and files. Agents send commands over TCP as messages cut into frames of 1024 bytes.
--   Base         numbers, lists and C strings that all parts share
--   Memory       ints in byte arrays, size_t arithmetic, heap blocks
--   Buffer       cbcc-util/cbcc_buffer.c: the receive buffers, one for each socket
--                (parse_buffer, cbcc_buffer_add, cbcc_buffer_free, cbcc_buffer_list_free)
--   Inbound      cbccd/cbccd_cmd.c: the branch of cbccd_cmd_io that receives a frame
--   Outbound     cbcc-util/cbcc_buffer.c and cbcc-util/cbcc_sock.c: cbcc_tlv_buffer_build and the
--                send loops
--   Cache        cbccd/cbccd_pgsql.c: the cached tables and the change log
--   Clients      cbccd/cbccd_cmd.c and cbcc-util/cbcc_sock.c: accepting and freeing client sockets,
--                the descriptor set and get_max_fd
--   Device       cbccd/cbccd_device.c: the list of devices, login, denying and deleting, keepalive,
--                and the start, which reads the devices from the cached tables (Device.Start)
--   Commands     cbccd/cbccd_cmd.c: command codes, cbccd_process_cmd, and a client that is gone
--   Config       cbccd/cbccd_config.c: OUs, configuration objects, who refers to an object, the
--                lists that are deployed and their status
--   Monitor      cbccd/cbccd_mon.c: monitoring data of agents
--   Report       cbccd/cbccd_report.c: reports of agents
--   Store        cbccd/cbccd_pgsql.c: storing and removing by SQL statements, with what follows in
--                the cache, the change log and the list of devices
--   Admin        cbccd/cbccd_admin.c: backups, automatic backups, actions
--   Wapi         cbccd/cbccd_wapi.c: the requests of the web interface, their dispatch and handlers,
--                which call Store, Config, Device and Admin, and the I/O loop (Wapi.Io)
--   ObjectNames  cbcc-util/cbcc_util.c: object names and table names
--   Digests      cbcc-util/cbcc_util.c: digests, guids, files in base64
--   Json         cbcc-util/cbcc_json.c: parsing, building and editing JSON texts
--   Examples     the theorems at concrete inputs
-- A function of the C code keeps its name; a pointer argument that is written is a result.
--
-- How it is modelled. An int is a 32-bit little-endian word, a size_t has 64 bits. `none` is
-- undefined behaviour: an access out of bounds, an int sum that overflows, a double free. A linked
-- list is the sequence of its nodes, with its count beside it. In parse_buffer `malloc` is taken to
-- succeed; in cbcc_tlv_buffer_build its success is an argument. The round trips take one recv to
-- read one frame. In Cache, texts fit the arrays that strcpy copies them to, and the server's
-- answers to SELECT are the function `fetch`. In Json, a tree of json-c is data and
-- json-c's functions are the parameter JsonC. The device manager takes the JSON layer, the clock,
-- the cached tables and what unwritten stack arrays hold as an argument (Device.Json.Env); its
-- calls of other components are a list, in the code's order. Socket -1 is `none`. The locks are
-- left out: each operation runs alone. Revisions and counts are taken not to overflow; start times
-- of automatic backups are ints, whose sum is undefined where it overflows. Commands says which
-- manager is given a command's data, and the managers what they do with it. All loops are
-- structural: over lists, over the number of rounds left, and over the answers of the socket; no
-- fuel is needed.
--
-- In Config a pointer to an object is its address and a pointer to an OU the OU's guid; calls of the
-- database and of sockets are lists. In Report what is done to files is a list of effects. OpenSSL
-- is the parameter Digests.OpenSsl, the database server the parameter Store.Server, a state with
-- what PQexec answers. Only Store states what storing does to the list of devices; elsewhere that is
-- behind the calls. In Admin regular files are a function, and what is sent a list of events.
--
-- In Wapi a request acts on the whole daemon: the database manager, the devices, the files and the
-- configuration. What the configuration and the device manager call is performed once they return,
-- which is another order than the code's only where a call adds a device. What accept and recv
-- answer is given in order, and a loop that has used its answers up is waiting.
--
-- Not modelled: creating sockets, connecting to the server, logging, SSL set-up, threads and the
-- start of the daemon, which are input and output; the memory that is given back.
pub mod Admin
pub mod Base
pub mod Buffer
pub mod Cache
pub mod Clients
pub mod Commands
pub mod Config
pub mod Device
pub mod Digests
pub mod Examples
pub mod Inbound
pub mod Json
pub mod Memory
pub mod Monitor
pub mod ObjectNames
pub mod Outbound
pub mod Report
pub mod Store
pub mod Wapi
