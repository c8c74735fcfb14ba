-- ===== src/Navigation.antt =====
-- Where the app goes, and what it shows there: web/src/lib/routes.ts, web/src/lib/navigation.ts and
-- web/src/hooks/useRouteState.ts.
pub mod Routes
pub mod Build
pub mod RouteState
pub mod Laws
mod Tests
