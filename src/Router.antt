-- ===== src/Router.antt =====
-- router.go: routes from method and path pattern to handlers, with CORS headers.
pub mod Path
pub mod Matching
pub mod Dispatch
pub mod Laws
pub mod Split
