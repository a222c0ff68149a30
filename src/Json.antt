-- ===== src/Json.antt =====
-- cbcc-util/cbcc_json.c over json-c. A tree of json-c is data; json-c's own functions are the
-- parameter `JsonC`. `none` is undefined behaviour: a walk over a root that is no object, a member
-- put into something that is no object, or a text that does not fit its array.
pub mod Tree
pub mod Search
pub mod Found
pub mod Parse
pub mod Edit
pub mod RoundTrip
pub mod Edits
