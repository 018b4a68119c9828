-- ===== src/Programs.antt =====
-- main.cpp and examples/echo/echo_server.cpp: what the programs give the servers to call.
pub mod Echo
pub mod Room
pub mod Hello
pub mod Client
mod Examples
