-- ===== src/WebhookServer/Review.antt =====
-- internal/webhookserver/server.go: handleConvert, from a request to the ConversionReview that goes
-- back, with the lossy conversions that it counts.
pub mod Delivery
use Prim.Native.Char.{code}
use declarative_conversion_o.Prelude.{
  ℕ, zero, suc, ◌+◌, String, Bool, true, false, ◌&&◌, ◌||◌, not, Option, none, some, List, [], ◌∷◌,
  ◌++◌, ◌==◌, nat_eq, if◌then◌else◌, and_then,
}
use declarative_conversion_o.Prelude.Assoc.{Map, lookup, insert}
use declarative_conversion_o.Prelude.Result.{Result, ok, err, ◌>>=◌, ◌>>◌, map_err}
use declarative_conversion_o.Engine.Json.{Json, null, str, obj, Object, object, as_object}
use declarative_conversion_o.Engine.Failure.{Failure}
use declarative_conversion_o.Engine.Runtime.{Runtime}
use declarative_conversion_o.Engine.Op.{Direction}
use declarative_conversion_o.Engine.Convert.{Router, router_convert}
use declarative_conversion_o.Engine.Diagnostics.{LosslessVerdict}
use declarative_conversion_o.WebhookServer.Registry.{Registry, CompiledEntry, get}

-- The messages of a failed review, one constructor each.
pub data ReviewError : Type 0 where
  too_large : ReviewError
  -- a panic
  internal_error : ReviewError
  not_registered : String → ReviewError
  -- objects converted so far
  timed_out : ℕ → ReviewError
  decoding_object marshaling_object : ReviewError
  converting : (from to : String) → Failure → ReviewError

pub record Request : Type 0 where
  pub uid : String
  pub desired_api_version : String
  pub objects : List String

-- What json.Decode makes of the body, past the limit on its size: `sniffed` is the UID that the
-- leading bytes hold, and a review can have no request.
pub data Body : Type 0 where
  oversized : (sniffed : String) → Body
  malformed : Body
  review : Option Request → Body

-- A plain HTTP error, or a ConversionReview: a failure has no objects.
pub data Reply : Type 0 where
  http_error : ℕ → Reply
  delivered : (uid : String) → List String → Reply
  refused : (uid : String) → ReviewError → Reply

-- lossyHop: a hop of one object between the hub and the spoke.
abbrev pub Hop : Type 0
Hop = Direction × String

-- What follows the first '/', and the whole text where there is none.
abbrev after_slash : String → Option String
after_slash String.[] = none
after_slash (String.◌∷◌ c s) = if nat_eq (code c) b'/' then some s else after_slash s

abbrev or_whole : String → Option String → String
or_whole s none = s
or_whole s (some rest) = rest

unfoldable pub version_of : String → String
version_of api_version = or_whole api_version (after_slash api_version)

abbrev string_of : Option Json → String
string_of (some (str s)) = s
string_of _ = ""

unfoldable pub string_field : Object → String → String
string_field m key = string_of (lookup key m)

abbrev is_null : Json → Bool
is_null null = true
is_null _ = false

abbrev pub present : Option Json → Option Json
present none = none
present (some v) = if is_null v then none else some v

abbrev metadata_from : Object → Option Json → Option Json → Object
metadata_from out (some md) original = out
metadata_from out none (some md) = insert "metadata" md out
metadata_from out none none = insert "metadata" (object []) out

unfoldable pub ensure_converted_metadata : Object → Object → Object
ensure_converted_metadata out original =
    metadata_from out (present (lookup "metadata" out)) (present (lookup "metadata" original))

pub data Route : Type 0 where
  identity hub_to_spoke spoke_to_hub spoke_to_spoke : Route

unfoldable pub route_label : String → String → String → Route
route_label hub from to =
    if from == to
    then Route.identity
    else if from == hub
    then Route.hub_to_spoke
    else if to == hub
    then Route.spoke_to_hub
    else Route.spoke_to_spoke

-- The hops that a route takes.
unfoldable pub hops_of : Route → String → String → List Hop
hops_of Route.identity from to = []
hops_of Route.hub_to_spoke from to = (Direction.hub_to_spoke, to) ∷ []
hops_of Route.spoke_to_hub from to = (Direction.spoke_to_hub, from) ∷ []
hops_of Route.spoke_to_spoke from to =
    (Direction.spoke_to_hub, from) ∷ (Direction.hub_to_spoke, to) ∷ []

abbrev loses : Direction → Option LosslessVerdict → Bool
loses dir none = false
loses Direction.hub_to_spoke (some v) = not v.hub_to_spoke
loses Direction.spoke_to_hub (some v) = not v.spoke_to_hub

-- recordLossy: whether the counter of the direction goes up.
unfoldable pub record_lossy : Map LosslessVerdict → Hop → Bool
record_lossy lossless (dir, spoke) = loses dir (lookup spoke lossless)

-- json.Unmarshal into a map; null leaves the map nil, which reads as an empty one.
abbrev as_map : Json → Option Object
as_map null = some []
as_map v = as_object v

-- A write into a map that is nil panics.
abbrev guard_nil : Bool → Result ReviewError Unit
guard_nil true = err internal_error
guard_nil false = ok tt

abbrev or_fail : {A : Type 0} → ReviewError → Option A → Result ReviewError A
or_fail e none = err e
or_fail e (some a) = ok a

-- How one object fares, with the hops that it took.
abbrev Converted : Type 0
Converted = String × List Hop

module _ (rt : Runtime) where
  -- The body of the loop over the objects of a review. The identity conversion of a nil map is nil.
  unfoldable pub convert_object : Router → String → String → Result ReviewError (String × List Hop)
  unfolding version_of string_field route_label hops_of
  convert_object router desired raw = do
    value ← or_fail decoding_object (rt.unmarshal raw)
    original ← or_fail decoding_object (as_map value)
    let from = version_of (string_field original "apiVersion")
    let to = version_of desired
    out ← map_err (converting from to) (router_convert rt router original from to)
    guard_nil (is_null value && (from == to))
    converted ← or_fail marshaling_object (
        rt.marshal
          (object (ensure_converted_metadata (insert "apiVersion" (str desired) out) original)))
    ok (converted, hops_of (route_label router.hub from to) from to)

  -- The loop. `expired n` is whether the request's budget is used up at the check after n objects.
  unfoldable pub convert_objects :
      Router → String → (ℕ → Bool) → ℕ → List String → Result ReviewError (List String × List Hop)
  unfolding convert_object
  convert_objects router desired expired n [] = if expired n then err (timed_out n) else ok ([], [])
  convert_objects router desired expired n (raw ∷ raws) =
      if expired n then err (timed_out n) else (do
        (converted, hops) ← convert_object router desired raw
        (rest, more) ← convert_objects router desired expired (n + 1) raws
        ok (converted ∷ rest, hops ++ more))

  abbrev pub answer : Request → Result ReviewError (List String × List Hop) → Reply × List Hop
  answer req (ok (converted, hops)) = (delivered req.uid converted, hops)
  answer req (err e) = (refused req.uid e, [])

  abbrev pub with_router : String → Request → (ℕ → Bool) → Option Router → Reply × List Hop
  with_router target req expired none = (refused req.uid (not_registered target), [])
  with_router target req expired (some router) =
      answer req (convert_objects router req.desired_api_version expired 0 req.objects)

  -- A nil entry has no router to ask for: that panics, and the handler recovers.
  abbrev with_entry :
      String → Request → (ℕ → Bool) → Option (Option CompiledEntry) → Reply × List Hop
  with_entry target req expired none = (refused req.uid (not_registered target), [])
  with_entry target req expired (some none) = (refused req.uid internal_error, [])
  with_entry target req expired (some (some entry)) = with_router target req expired entry.router

  abbrev with_body : Registry → String → (ℕ → Bool) → Body → Reply × List Hop
  with_body registry target expired (oversized sniffed) = (refused sniffed too_large, [])
  with_body registry target expired malformed = (http_error 400, [])
  with_body registry target expired (review none) = (http_error 400, [])
  with_body registry target expired (review (some req)) =
      with_entry target req expired (get registry target)

  -- (*Server).handleConvert for a target: the reply, and the hops of the objects delivered.
  unfoldable pub handle_convert :
      Registry → String → (is_post : Bool) → (ℕ → Bool) → Body → Reply × List Hop
  unfolding convert_objects
  handle_convert registry target is_post expired body =
      if is_post then with_body registry target expired body else (http_error 405, [])
