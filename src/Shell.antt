-- ===== src/Shell.antt =====
-- plugins/interactive: an interactive shell over a websocket, with the handler at the worker and the
-- client at the user.
pub mod Messages
pub mod RoundTrip
pub mod Streams
pub mod Handler
pub mod Client
pub mod Session
pub mod Wire
pub mod Output
pub mod Moves
pub mod Frozen
pub mod Delivery
pub mod Reception
pub mod Arrival
pub mod Resolving
pub mod Settling
pub mod Levels
pub mod Ends
pub mod Spending
pub mod SpendingMoves
pub mod Granting
pub mod GrantingMoves
pub mod Intake
pub mod Budget
mod Tests
