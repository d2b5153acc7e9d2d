-- ===== src/Client.antt =====
-- The connections of src/gvar/geostreamd/client.c: one request at a time is read, answered and
-- closed or kept. `Reason` has the texts of the answers, `Serve` the choice of the answer, `Send`
-- the transfer of a file, `Read` the reading of a request, `Whole` all of it for a well-formed
-- request, `Handlers` the handlers, `Headers` the text of the answer, and `Continues` and `Thread`
-- how a connection goes on.
pub mod Reason
pub mod Serve
pub mod Send
pub mod Read
pub mod Whole
pub mod Handlers
pub mod Headers
pub mod Continues
pub mod Thread
