-- ===== src/Server.antt =====
-- mcp_server.py: the sessions that an agent drives, and the reading of their trajectories.
pub mod Branch
pub mod Tools
pub mod Registry
pub mod Requests
pub mod Resume
