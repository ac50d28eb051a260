-- ===== src/Lib.antt =====
-- LinuxProgramPractice: the packet filter of chapter 20 (LinuxCode/20/sipfw/module), a Linux
-- kernel module, the protocol stack of chapter 19 (LinuxCodeBak/Code/19), the web server of
-- chapter 18 (SHTTPD_18, LinuxCodeBak/Code/18), and ping of chapter 13 (LinuxCode/13/13.6.10).
-- The filter keeps three chains of rules. A user-space program changes and lists them by netlink
-- requests; netfilter calls the module's hooks on each packet, which search a chain for the first
-- rule that applies, log and count the hit, and give its action, or the default action of the
-- configuration file.
-- The files, with the code that each of them models:
--   Sipfw/Types: sipfw.h and sipfw_para.h, the structures, constants and tables of names.
--   Sipfw/Memory: which addresses are allocated, and how often the tables hold one.
--   Sipfw/Match: SIPFW_IsMatch and its two tests (sipfw_k_common.c).
--   Sipfw/Tables: the handlers SIPFW_NLAction_Rule* that change the tables (sipfw_k_nl.c), and
--     SIPFW_ListDestroy (sipfw_k_common.c). Their children are named for the handler, or for what
--     they show: Good is the invariant, Exact the counts, Safety whether a handler returns.
--   Sipfw/Netlink: SIPFW_NLSendToUser, SIPFW_NLAction_RuleList, SIPFW_NLDoAction and
--     SIPFW_NLInput (sipfw_k_nl.c); Netlink/Dispatch is the step relation of a request,
--     Netlink/History that of a sequence of requests.
--   Sipfw/Hooks: the hooks and their table (sipfw_k.c).
--   Sipfw/Clock: SIPFW_Localtime (sipfw_k_common.c).
--   Sipfw/LogFile, Sipfw/ConfFile: the log and the configuration file (sipfw_k_file.c).
--   Sipfw/Proc: the handlers of the files under /proc/net/sipfw (sipfw_k_proc.c).
--   Sipfw/Loading: SIPFW_Init and SIPFW_Exit with what they call (sipfw_k.c, sipfw_k_nl.c,
--     sipfw_k_proc.c).
--   Sip/Arp: the ARP table of the protocol stack of chapter 19 and the handling of ARP packets
--     (LinuxCodeBak/Code/19/sip_arp.c); Arp/Table is about the table, Arp/Input about the
--     packets.
--   Sip/Checksum, Sip/Ip, Sip/Icmp, Sip/Ether: the checksum, the headers, the answers to echo
--     requests and the frames of that stack (sip_skbuff.c, sip_ip.c, sip_icmp.c, sip_ether.c);
--     Checksum/Sums and Checksum/Verify are about the sum, Ip/Delivery is the whole of ip_input,
--     Ip/Receive and Ip/Send are about both directions, Icmp/Echo about the reply, Ether/Frames
--     and Ether/Resolve about what comes in and where a datagram goes.
--   Sip/Frag: the fragments that ip_frag cuts a packet into (sip_ip.c, sip_skbuff.c).
--   Sip/Reassembly: sip_reassemble (sip_ip.c), over a store of the structs that malloc gave. All
--     its loops run on the same fuel, and Reassembly/Never holds for any.
--   Sip/Pseudo: SIP_ChksumPseudo (sip_skbuff.c), over Sip/Checksum.
--   Sip/Socket: the table of sockets of that stack (sip_socket.c, sip_sock.c), with sip_socket
--     and sip_close; Socket/Descriptors is about the descriptors.
--   Sip/Udp: the UDP control blocks of that stack (sip_udp.c): Udp/Chains is about their lists,
--     Udp/Listen about binding, Udp/Input about datagrams that come in, Udp/Remove about
--     removing. The fuel of a loop over a list is one more than its length.
--   Sip/Calls: the other calls on sockets (sip_socket.c, sip_sock.c), over both: Calls/Inert is
--     about binding, connecting and sending, Calls/Receive about receiving.
--   Shttpd/Uri: the URIs of the web server (SHTTPD_18/shttpd_uri.c): Uri/Codec the decoding,
--     Uri/Dots the removal of double dots.
--   Sipfw/App: the user-space program (LinuxCode/20/sipfw/app/sipfw_u.c): the command line and
--     its check; App/Session is main and the receiving of a list, App/Options and App/Judge are
--     about the two steps before, App/Display and App/Effect about both programs together.
--   Shttpd/Parameters: the command line and the file of parameters of the web server
--     (LinuxCodeBak/Code/18/shttpd_parameters.c); Parameters/Lines is about a line,
--     Parameters/Settings about a whole file, Parameters/Compact about lines without blanks. The
--     fuel of the loop over the lines is one more than the bytes of the file.
--   Shttpd/Response: the answers of the web server (LinuxCodeBak/Code/18/shttpd_mine.c,
--     shttpd_method.c, shttpd_request.c): Response/Types is about the search for a type,
--     Response/Body about the loop that sends a file, Response/Ranges about parts of a file.
--   Shttpd/Request: Request_Parse (LinuxCodeBak/Code/18/shttpd_request.c), over Shttpd/Headers.
--   Shttpd/Headers: the parser of the header lines of a request
--     (LinuxCodeBak/Code/18/shttpd_request.c); Headers/Names and Headers/Inside are about the
--     lines and the values. The fuel of its loop is one more than the bytes of the buffer, and it
--     takes at least one a round.
--   Shttpd/Worker: the pool of worker threads and its scheduler
--     (LinuxCodeBak/Code/18/shttpd_worker.c) as a step relation, interleaved in any order;
--     Worker/Single, Worker/Lost, Worker/Served and Worker/Stop are about its reachable states.
--   Ping: ping of chapter 13 (LinuxCode/13/13.6.10/ping.c): Ping/Message is about what is sent,
--     Ping/Table and Ping/Replies about the table of packets in a run, Ping/Answered about
--     replies, Ping/Numbers about times and numbers.
--   Tests: the theorems at concrete inputs.
-- A function that may follow a null or freed pointer, leave an array or overrun a buffer returns
-- an Option, and `none` is that fault. Numbers of type `int` are integers over the native numbers
-- (Base/Int); unsigned words keep their wrap-around. Counts of rules and loop indices are taken
-- not to overflow an `int`. Where no fuel is named above, a loop is structural, but that of
-- SIPFW_HandleConf, whose fuel is one more than the length of the file, and which takes a byte a
-- round.
-- The kernel is a parameter: the address that kmalloc or malloc gives and whether a message fits
-- its buffer are arguments, and so are the time, the files, sscanf, and what is made when the
-- module is loaded. The code of the filter takes no lock.
-- Not modelled: the rest of the stack of chapter 19 (sending by UDP), the main function and the
-- CGI programs of the web server, the set-up and the output of ping, and the examples of the
-- other chapters, which call the system library and keep no state of their own.
pub mod Base
pub mod Sipfw
pub mod Shttpd
pub mod Sip
pub mod Ping
pub mod Tests
