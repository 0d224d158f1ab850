-- ===== src/Ipc/Registry.antt =====
-- `IpcRegistry` of src/ipc.rs: a vector of endpoints, searched by identifier. What
-- `get_endpoint_mut` is used for is to read the first endpoint that has the identifier, and to put
-- a changed one in its place.
use jericho_os.Base.{
  ℕ, ◌≡◌, Option, none, some, List, [], ◌∷◌, ◌++◌, is_some, ◌==◌, if◌then◌else◌, arith,
}
use jericho_os.Ipc.Endpoint.{IpcEndpoint}
use jericho_os.Ipc.Endpoint

pub record IpcRegistry : Type 0 where
  pub endpoints : List IpcEndpoint

unfoldable pub new : IpcRegistry
new = record { endpoints = [] }

unfoldable pub create_endpoint : IpcRegistry → ℕ → IpcRegistry × ℕ
create_endpoint r cap_id = (record { endpoints = r.endpoints ++ Endpoint.new cap_id ∷ [] }, cap_id)

unfoldable pub find : ℕ → List IpcEndpoint → Option IpcEndpoint
find id [] = none
find id (e ∷ es) = if e.id == id then some e else find id es

unfoldable pub replace : ℕ → IpcEndpoint → List IpcEndpoint → List IpcEndpoint
replace id e' [] = []
replace id e' (e ∷ es) = if e.id == id then e' ∷ es else e ∷ replace id e' es

unfoldable pub get_endpoint : IpcRegistry → ℕ → Option IpcEndpoint
unfolding find
get_endpoint r cap_id = find cap_id r.endpoints

unfoldable pub put : IpcRegistry → ℕ → IpcEndpoint → IpcRegistry
unfolding replace
put r cap_id e = record { endpoints = replace cap_id e r.endpoints }

find_id : (k : ℕ) (es : List IpcEndpoint) (e : IpcEndpoint) → find k es ≡ some e → e.id ≡ k
unfolding find
find_id k [] e h = ground arith
find_id k (x ∷ es) e h = ground (arith, find_id k es e)

find-replace :
    (id k : ℕ) (e' : IpcEndpoint) (es : List IpcEndpoint)
    → e'.id ≡ id
    → find k (replace id e' es)
      ≡ (if id == k then (if is_some (find id es) then some e' else none) else find k es)
unfolding find replace
find-replace id k e' [] h = ground arith
find-replace id k e' (x ∷ es) h = ground (arith, find-replace id k e' es h)

pub get_endpoint_id :
    (r : IpcRegistry) (k : ℕ) (e : IpcEndpoint) → get_endpoint r k ≡ some e → e.id ≡ k
unfolding get_endpoint
get_endpoint_id r k e h = find_id k r.endpoints e h

-- A changed endpoint is found under its identifier, and the others are as they were.
pub get_endpoint-put :
    (r : IpcRegistry) (id k : ℕ) (e e' : IpcEndpoint)
    → get_endpoint r id ≡ some e
    → e'.id ≡ id
    → get_endpoint (put r id e') k ≡ (if id == k then some e' else get_endpoint r k)
unfolding get_endpoint put
get_endpoint-put r id k e e' there same = ground (arith, find-replace id k e' r.endpoints same)

find-append :
    (k : ℕ) (es : List IpcEndpoint) (e : IpcEndpoint)
    → find k (es ++ e ∷ [])
      ≡ (if is_some (find k es) then find k es else if e.id == k then some e else none)
unfolding find
find-append k [] e = ground arith
find-append k (x ∷ es) e = ground (arith, find-append k es e)

-- An endpoint that is created under an identifier in use is never found.
pub get_endpoint-create :
    (r : IpcRegistry) (id k : ℕ)
    → get_endpoint (create_endpoint r id).0 k ≡ (
        if is_some (get_endpoint r k)
        then get_endpoint r k
        else if id == k
        then some (Endpoint.new id)
        else none)
unfolding get_endpoint create_endpoint Endpoint.new
get_endpoint-create r id k = ground (arith, find-append k r.endpoints (Endpoint.new id))
