-- ===== src/Request.antt =====
-- The request of src/gvar/geostreamd/request.c: its states, its fields, and the operations on them.
-- `Scan` has request_scan, `HeaderList` header_list_next, and `Parse` request_parse.
pub mod Scan
pub mod Grammar
pub mod HeaderList
pub mod Parse
use qjhart_geostreams.Prelude.{ℕ, Bool, true, false, Option, none, some, List, []}

-- `enum request_state`.
pub data State : Type 0 where
  start method uri version header header_r header_rn last_r err req : State

-- `enum request_method`.
pub data Method : Type 0 where
  get post head options put delete trace connect not_set : Method

-- `struct request`, less its client. A text is the list of its bytes without the NUL; `none` is
-- NULL. `status_line_z` is the size of the block at `status_line`. `uri` is the text last handed to
-- the uri library.
pub record Request : Type 0 where
  pub state : State
  pub method : Method
  pub uri : List ℕ
  pub version : Option (List ℕ)
  pub version_major : ℕ
  pub version_minor : ℕ
  pub status_line : Option (List ℕ)
  pub status_line_z : ℕ
  pub keep_alive : Bool
  pub from : List ℕ
  pub host : List ℕ
  pub user_agent : List ℕ

-- `request_new`, where the allocations do not fail.
unfoldable pub request_new : Request
request_new = record {
  state = State.start;
  method = Method.not_set;
  uri = [];
  version = none;
  version_major = 0;
  version_minor = 0;
  status_line = none;
  status_line_z = 0;
  keep_alive = false;
  from = [];
  host = [];
  user_agent = [];
}

unfoldable pub request_close : Request → Request
request_close r = record r { keep_alive = false; state = State.start; method = Method.not_set }
