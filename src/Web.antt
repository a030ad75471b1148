-- ===== src/Web.antt =====
-- pkg/web: what handlers are made of. Paging and request addresses, answers and the handler wrapper,
-- rate limits, authentication, validation.
pub mod Validator
pub mod Pager
pub mod Auth
pub mod Sse
pub mod Logging
pub mod EntityTag
pub mod Response
pub mod Address
pub mod Limiter
