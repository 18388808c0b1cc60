-- ===== src/Net.antt =====
-- The package nbio itself: the connections of conn_unix.go, and the events of poller_epoll.go.
pub mod Conn
pub mod Poller
