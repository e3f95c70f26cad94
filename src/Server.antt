-- ===== src/Server.antt =====
-- The sessions of the message broker (mbroker/mbroker.c): the handlers of requests.
pub mod State
pub mod Session
pub mod Listing
pub mod Publisher
pub mod Subscriber
pub mod Requests
pub mod Loop
pub mod Finish
pub mod Store
pub mod Publishing
pub mod CatchUp
pub mod Earlier
pub mod Delivery
pub mod Failures
pub mod Register
pub mod Exhausted
pub mod Returning
pub mod Answers
pub mod Creation
pub mod Removal
pub mod Sending
pub mod ListAnswer
pub mod Tests
