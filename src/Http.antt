-- ===== src/Http.antt =====
-- internal/httpserver: a handler takes the request and the database, and gives the response and the
-- database that it leaves. Writing the response to the connection is not modelled, nor the answer
-- 500 to a failure of the driver.
pub mod Address
pub mod Quote
pub mod Enroll
pub mod Pull
use certhold.Base.{ℕ, Text, Bool, Option, List}
use certhold.Db.{Db}
use certhold.Db.Hosts.{ReachableHost}

-- What the handlers read of `http.Request`: the path value, the query value `user`, the address of
-- the other side, and what decides the base URL.
pub record Request : Type 0 where
  pub token : Text
  pub user : Text
  pub remote_addr : Text
  pub tls : Bool
  pub forwarded_proto : Text
  pub host : Text

-- The arguments of `v2Script`, which makes the text of the install script.
pub record Script : Type 0 where
  pub base_url : Text
  pub token : Text
  pub instance_key : Text
  pub peer_name : Text
  pub preset_user : Text

-- The arguments of `peerfiles.BuildRefreshBundle`, less the script and version of the client.
pub record Bundle : Type 0 where
  pub instance_key : Text
  pub peer_name : Text
  pub cert_pub : Text
  pub hosts : List ReachableHost
  pub fleet_rev : ℕ
  pub cert_serial : ℕ

pub data Body : Type 0 where
  message : Text → Body
  tarball : Text → Body
  script : Script → Body
  bundle : Bundle → Body
  rev : ℕ → Body
  health : ℕ → ℕ → Body

pub record Response : Type 0 where
  pub status : ℕ
  pub body : Body

abbrev pub Handler : Type 0
Handler = Db → Response × Db

-- `writeErr`
abbrev pub write_err : ℕ → Text → Handler
write_err code msg db = (record { status = code; body = message msg }, db)

abbrev pub reply : Body → Handler
reply b db = (record { status = 200; body = b }, db)
