-- ===== src/RoomStore/Turn.antt =====
-- The ICE servers that `setupWebRTCPeer` of frontend/src/stores/roomStore.ts takes from the answer of the
-- backend's TURN route, and `getApiBase`.
use Prim.Native.Char.{code}
use text.Mathlib.Text.{starts_with, find?}
use shadowchat.Common.{
  ℕ, List, [], ◌∷◌, Option, none, some, String, Bool, true, false, ◌&&◌, ◌||◌, not, leb, ◌==◌,
  if◌then◌else◌, is_some,
}
use shadowchat.RoomStore.State.{IceServer}
use shadowchat.RoomStore.Basics.{given, ◌+s◌}

-- The answer: `fetch` rejected or was aborted, or the status was not ok; or the JSON of the body, with
-- the values of `urls` that are no texts as `none`.
pub data TurnAnswer : Type 0 where
  no_answer : TurnAnswer
  refused : ℕ → TurnAnswer
  credentials :
      Option (List (Option String)) → Option String → Option String → Option String → TurnAnswer

abbrev pub public_stun : IceServer
public_stun = record {
  urls = "stun:stun.l.google.com:19302" ∷ [];
  username = none;
  credential = none;
}

-- `s.includes(t)`
abbrev pub includes : String → String → Bool
includes s t = is_some (find? s t)

-- The white space that `trim` takes away.
abbrev pub is_space : ℕ → Bool
is_space c =
    (leb 9 c && leb c 13)
    || (c == 32)
    || (c == 160)
    || (c == 5760)
    || (leb 8192 c && leb c 8202)
    || (c == 8232)
    || (c == 8233)
    || (c == 8239)
    || (c == 8287)
    || (c == 12288)
    || (c == 65279)

-- `s.trim().length === 0`
unfoldable pub is_blank : String → Bool
is_blank String.[] = true
is_blank (String.◌∷◌ c s) = let rest = is_blank s in if is_space (code c) then rest else false

unfoldable pub is_valid_url : String → Bool
unfolding is_blank
is_valid_url u =
    not (is_blank u)
    && (starts_with u "stun:" || starts_with u "turn:" || starts_with u "turns:")
    && not (includes u "localhost")
    && not (includes u "127.0.0.1")

-- The filter, whose test is false for what is no text.
unfoldable pub valid_urls : List (Option String) → List String
unfolding is_valid_url
valid_urls [] = []
valid_urls (none ∷ us) = valid_urls us
valid_urls (some u ∷ us) = let rest = valid_urls us in if is_valid_url u then u ∷ rest else rest

-- `turnData.urls || []`
abbrev pub or_no_urls : Option (List (Option String)) → List (Option String)
or_no_urls none = []
or_no_urls (some us) = us

-- `turnData.credential || turnData.password`
abbrev pub or_password : Option String → Option String → Option String
or_password none password = password
or_password (some credential) password = some credential

abbrev pub with_turn : List String → Option String → Option String → List IceServer
with_turn [] username credential = public_stun ∷ []
with_turn (u ∷ us) username credential =
    public_stun ∷ record { urls = u ∷ us; username = username; credential = credential } ∷ []

unfoldable pub ice_servers : TurnAnswer → List IceServer
unfolding valid_urls
ice_servers no_answer = public_stun ∷ []
ice_servers (refused status) = public_stun ∷ []
ice_servers (credentials urls username credential password) =
    with_turn (valid_urls (or_no_urls urls)) username (or_password (given credential) password)

-- `getApiBase`: the location of the window, if there is one, and the variables of the build.
pub record Location : Type 0 where
  pub protocol : String
  pub host : String
  pub hostname : String

abbrev pub or_port : Option String → String
or_port none = "8081"
or_port (some port) = port

abbrev pub or_local_url : Option String → String
or_local_url none = "http://localhost:8081/api/v1"
or_local_url (some url) = url

unfoldable pub get_api_base : Option Location → Option String → Option String → String
get_api_base none api_port api_url = or_local_url (given api_url)
get_api_base (some l) api_port api_url =
    if includes l.host "localhost" || includes l.host "127.0.0.1"
    then l.protocol +s "//" +s l.hostname +s ":" +s or_port api_port +s "/api/v1"
    else l.protocol +s "//" +s l.host +s "/api/v1"
