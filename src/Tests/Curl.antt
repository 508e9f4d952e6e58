-- ===== src/Tests/Curl.antt =====
-- curl at a command line with a user, two data options and a header in small letters.
use plt.Base.{◌≡◌, refl, false, some, [], ◌∷◌, codes}
use plt.Curl.Strings.{base64, canonical_key, trim, split_colon, join_amp}
use plt.Curl.Headers.{find}
use plt.Nethttp.State.{Flags}
use plt.Curl.Action.{Capture, Ignored, body_of, content_type, build}
use plt.Nethttp.State.{get_header}
use plt.Nethttp.Setup.{user_agent, default_agent}
use plt.Curl.Agent.{agent_sent}
use plt.Curl.Request.{build_lem}

abbrev pub typed : Capture
typed = record {
  header = codes "content-type: text/plain" ∷ codes "broken" ∷ [];
  payload = codes "a=1" ∷ codes "b=2" ∷ [];
  compressed = false;
  user = codes "me:pw";
  output = [];
  head = false;
}

abbrev pub plain : Flags
plain = record {
  header_map = [];
  url = codes "example.org";
  body = [];
  method = [];
  no_keepalive = false;
  compressed = false;
  fast = false;
  ignore_response_body = false;
  http2 = false;
  http3 = false;
}

abbrev nothing_ignored : Ignored
nothing_ignored = record { strings = []; bools = [] }

canonical : canonical_key (codes "content-tYPE") ≡ codes "Content-Type"
unfolding canonical_key
canonical = refl

encoded : base64 (codes "me:pw") ≡ codes "bWU6cHc="
unfolding base64
encoded = refl

build_lem_example :
    ((build typed plain).body ≡ codes "a=1&b=2")
    × ((build typed plain).method ≡ codes "POST")
    × (find content_type (build typed plain).header_map ≡ some (codes "text/plain"))
unfolding canonical_key trim split_colon body_of join_amp
build_lem_example = build_lem typed plain content_type

abbrev disguised : Capture
disguised = record typed { header = codes "user-AGENT: spider " ∷ codes "x: y" ∷ [] }

agent_sent_example :
    get_header user_agent (default_agent (build disguised plain).header_map) ≡ codes "spider"
unfolding canonical_key trim split_colon
agent_sent_example = agent_sent disguised plain
