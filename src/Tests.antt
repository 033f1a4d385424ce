-- ===== src/Tests.antt =====
-- The theorems at concrete inputs, with concrete functions for the third-party code.
mod BootRuns
mod ChatRuns
mod ConnRuns
mod HostRuns
mod JwtRuns
mod Doubles
mod GatewayRuns
mod HttpRuns
mod IdentityRuns
mod LoginDoubles
mod LoginRuns
mod PageRuns
mod RelayRuns
mod StartupRuns
mod SwarmRuns
