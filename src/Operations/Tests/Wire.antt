-- ===== src/Operations/Tests/Wire.antt =====
-- The request of a lookup on its way to the server.
use uvfs.Base.{◌≤◌, ◌≡◌, refl, false, arith, length, get32, copy_at, take}
use uvfs.Protocol.{Request}
use uvfs.Protocol.Wire.{request_bytes}
use uvfs.Protocol.Offsets.{HoldsWords, HoldsTexts, members, texts}
use uvfs.Driver.State.{Driver, modify, init}
use uvfs.Driver.Daemon.{request_size, read_result}
use uvfs.Operations.Sample.{handle, name}
use uvfs.Operations.Wire.{request_reaches_server}

abbrev lookup_request : Request
lookup_request = Request.lookup (record {
  type = 4;
  serial = 8;
  size = 57;
  uid = 100;
  gid = 100;
  fh = handle 40;
  namelen = 1;
  name = name;
})

abbrev stored : Driver
stored = modify 7 (λ t. record t { u = copy_at t.u 0 (request_bytes (λ o. 0) lookup_request) }) init

request_reaches_server_example :
    (read_result false 7 stored ≡ length (request_bytes (λ o. 0) lookup_request))
    × (read_result false 7 stored ≤ request_size)
    × (take (read_result false 7 stored) (stored.heap 7).u ≡ request_bytes (λ o. 0) lookup_request)
    × (get32 (request_bytes (λ o. 0) lookup_request) 0 ≡ 4)
    × (get32 (request_bytes (λ o. 0) lookup_request) 4 ≡ 8)
    × (get32 (request_bytes (λ o. 0) lookup_request) 8 ≡ 57)
    × HoldsWords (request_bytes (λ o. 0) lookup_request) (members lookup_request)
    × HoldsTexts (request_bytes (λ o. 0) lookup_request) (texts lookup_request)
request_reaches_server_example =
    request_reaches_server (λ o. 0) lookup_request 7 init (refl, refl, (refl, omega arith))
      (omega arith)
