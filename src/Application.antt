-- ===== src/Application.antt =====
-- The application of the A7: main.c, and the timers of epoll_timerfd_utilities.c.
pub mod Arguments
pub mod CommandLine
pub mod Timers
pub mod Handlers
pub mod Connections
pub mod Start
