-- ===== src/Feed.antt =====
-- [FEED]/feed.c: commands that come over a socket.
pub mod Words
pub mod Commands
pub mod Sockets
