-- ===== src/Messages.antt =====
-- The messages that the components exchange: include/exchange/client_request.hpp,
-- client_response.hpp and market_data.hpp.
pub mod Printing
mod Request
mod Response
mod Update
pub use Request.*
pub use Response.*
pub use Update.*
