-- ===== src/Sipfw.antt =====
-- The packet filter LinuxCode/20/sipfw/module. Types holds its structures, Match the test of a packet
-- against rules, Tables the commands that change the rule tables, Netlink their dispatch, Hooks the
-- netfilter hooks, Clock, LogFile and ConfFile the times and files, Proc the files under /proc, and
-- Loading the start and the end of the module. App is the program of
-- LinuxCode/20/sipfw/app that sends the requests.
pub mod Types
pub mod Memory
pub mod Match
pub mod Tables
pub mod Netlink
pub mod Clock
pub mod ConfFile
pub mod LogFile
pub mod Hooks
pub mod Proc
pub mod Loading
pub mod App
