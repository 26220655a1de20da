-- ===== src/Types.antt =====
-- types/index.ts: the records that the components pass to one another.
use clean_node_server.Common.{ℕ, String, Bool, Option, List}

-- `bodyBytes` is left out: no modelled operation reads it.
pub record RequestContext : Type 0 where
  pub method : String
  pub path : String
  pub params : List (String × String)
  pub query : List (String × String)
  pub headers : List (String × String)
  pub body : String
  pub cookies : List (String × String)
  pub session_id : Option String

pub record CookieOptions : Type 0 where
  pub max_age : Option ℕ
  pub http_only : Option Bool
  pub secure : Option Bool
  pub same_site : Option String
  pub path : Option String

pub record Cookie : Type 0 where
  pub name : String
  pub value : String
  pub options : Option CookieOptions

pub record WasmResponse : Type 0 where
  pub status : ℕ
  pub headers : List (String × String)
  pub body : String
  pub cookies : List Cookie
