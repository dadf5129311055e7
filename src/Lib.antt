-- ===== src/Lib.antt =====
-- Verification of the CAmkES global components: servers that share one device between clients.
--
-- Each server keeps a table or a set of queues for its clients, answers their calls, which carry the
-- badge of the sender, and reacts to the device. The calls of a server exclude each other by a lock,
-- so each is one step here. A server sees another only through its calls: the serial server's
-- timer is a client of the time server, and the network stack is a client of the Ethernet driver.
--
-- The files, and the sources that they model:
--
-- Ethdriver: components/Ethdriver/src/ethdriver.c.
--   State has the pools, the clients and the memory. Filter has eth_get_client, detect_client,
--   is_broadcast and is_multicast; Rx has eth_allocate_rx_buf, eth_rx_complete and client_rx; Tx has
--   eth_tx_complete, client_tx and client_mac; Init has server_init. Steps has the histories
--   of calls and callbacks. Queue, Buffers, Lookup, Receiving, Collecting, Initial, Ready, Fifo,
--   Waking, Sending and Reach are proofs.
-- EthInterface: components/PicoServer/src/eth_interface.c, which calls the model of the driver. Device has
--   pico_eth_send and pico_eth_poll, Receiving the proofs.
-- SerialServer: components/SerialServer/src/serial.c.
--   State has the globals. Output has flush_buffer, flush_buffer_line and try_coalesce_output; Putchar
--   has internal_putchar, the calls that reach it and timer_callback; Input has internal_raw_putchar,
--   give_client_char and handle_char. Transcript, Flushing, Storing, Shrinking, Writing, Lines,
--   Overflow, Timer, Typing, Giving and Delivering are proofs.
-- ClockServer: components/ClockServer/src/clock_server.c. Server has the table and the calls,
--   Ownership the proofs.
-- Gpio: components/GPIOMUXServer/src/gpio.c. Server has the table and the calls, Ownership the proofs.
-- TimeServer: components/TimeServer/src/time_server.c. Server has the clients' words and the calls;
--   Tokens, Completion and Calls are proofs.
-- Picoserver: remote-drivers/picotcp-socket-sync/server/picoserver_client.c. Table has the hash tables
--   that it uses, Clients the state, the look-ups and find_free_id, Sockets client_put_socket and
--   client_delete_socket, Events the events of sockets; Finding, Ids, Putting, Deleting and Reporting
--   are proofs.
-- SocketServer: remote-drivers/picotcp-socket-sync/server/server.c.
--   State has the libraries, the globals and the checks that the calls share; Control the calls
--   pico_control_open to pico_control_event_poll, Transfer those that send and receive, Async
--   tx_socket, rx_socket, tx_complete and rx_complete, Incoming tx_queue_handle, rx_queue_handle and
--   tx_queue_handle_irq, Closing cleanup_async_socket, pico_control_close, pico_control_set_async,
--   socket_cb and notify_client. The two directions have the same loops, which are written once, for
--   a direction. Pending has the lists of messages that wait; Linking, Serving, Cleanup, Accepting,
--   Draining, Checking and Lifetime are proofs.
-- EthernetAsync: remote-drivers/picotcp-ethernet-async/client.c and server.c, over one state, since they
--   share the rings and the memory. State has both sides' structures, Client pico_eth_send,
--   pico_eth_poll, pico_free_buf and the buffers at the set-up, Server the callbacks of the driver,
--   virt_queue_handle_irq and notify_client; Queueing, Polling, Transmitting and Delivery are proofs.
-- Virtqueue: the rings of shared buffers that the library virtqueue.h gives, as an interface.
-- FileServer: components/FileServer/src/server.c and libFileServer-client/fsclient.c. Server has the calls,
--   Client the system calls of a client; Ownership and Reading are proofs.
-- PciConfig: components/PCIConfigIO/src/pci.c. Config has the reads and writes, Narrow a proof.
-- Prelude: names of the libraries, and lists, counting, integers and rings over the native naturals.
-- Errno: the error codes. Tests: runs and instances.
--
-- How state corresponds. Memory is a function from addresses to bytes, a pointer to an object of a
-- pool is its index, and an array with its number of entries in use is a list: num_clients is the
-- length of clients, and an output buffer is the list of its used bytes. A bit mask is the list of its
-- bits, as many as its type has, so a bit beyond them is lost as in C. What a call prints or signals
-- is appended to a list in the state. Reads outside an array give a null object and writes outside it
-- do nothing; the theorems that depend on it have the bound among their hypotheses. The one write that
-- can go outside, that of a byte to a full output buffer, lands in the arrays of the streams behind
-- it. An int that is made of 32 bits is negative from 2 ^ 31 on.
--
-- Other libraries are parameters: the hardware driver's raw_tx is a function that may call back before
-- it returns; the clock, GPIO and time manager libraries are records of functions over a state of
-- their own, and so are the hash tables, the network stack, the virtqueues, the C library, the
-- functions of the file server and the I/O ports; the allocator of DMA memory is a function from the
-- number of an allocation to its buffer.
--
-- Fuel. The loop that flushes lines runs on one more round than there are bytes that wait, which is
-- enough since every round but the last prints one; that is proved. The loop that drains a ring of
-- 4088 bytes runs on 4088 rounds, since the distance of the indices is smaller. The search for a
-- descriptor runs on 2 ^ 32 rounds, one for each value of its counter. A loop over a ring of buffers
-- runs on one more round than there are buffers in the ring, the loop of a read on one more than
-- there are bytes to read, and the loops over the messages of a socket on a number of rounds that
-- must be greater than the number of the messages; all three are proved enough. The loops of a poll
-- run on its score.
--
-- The network stack may call socket_cb while it serves a call of the socket server. Such a callback
-- is modelled as a step of its own, before or after the call.
--
-- Not modelled: the set-up of devices and of interfaces to other libraries, the waiting for
-- notifications, log messages, the other client libraries, and the components that only pass calls on.
pub mod Prelude
pub mod Errno
pub mod Ethdriver
pub mod SerialServer
pub mod ClockServer
pub mod Gpio
pub mod TimeServer
pub mod EthInterface
pub mod EthernetAsync
pub mod FileServer
pub mod PciConfig
pub mod Picoserver
pub mod SocketServer
pub mod Virtqueue
pub mod Tests
