-- ===== src/Security.antt =====
-- src/security/: the layers that the server puts in front of every tool call.
pub mod RateLimiter
pub mod CircuitBreaker
pub mod AuditLog
pub mod KillSwitch
pub mod LoopDetector
pub mod TabOwnership
pub mod WallCap
pub mod DomainPolicy
pub mod HumanApproval
