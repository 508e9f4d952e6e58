-- ===== src/Curl/Agent.antt =====
-- curl/cmd.go and nethttp/job.go: the agent that a command line sends, from its -H lines through the
-- request's header map to the producer's default.
use plt.Base.{◌≡◌, refl, ◌∙◌, ap, Option, none, some, [], ◌∷◌, arith, Text, codes}
use plt.Curl.Headers.{find, last_value}
use plt.Curl.Action.{Capture, body_of, build}
use plt.Curl.Request.{default_header, build_lem}
use plt.Nethttp.State.{Headers, get_header, Flags}
use plt.Nethttp.Setup.{user_agent, has_header, default_agent}

abbrev pub or_else : Text → Option Text → Text
or_else default none = default
or_else default (some v) = v

get_header-find : (key : Text) (h : Headers) → get_header key h ≡ or_else [] (find key h)
unfolding get_header find
get_header-find key [] = refl
get_header-find key (entry ∷ rest) = ground (arith, get_header-find key rest)

agent-find :
    (h : Headers)
    → get_header user_agent (default_agent h) ≡ or_else (codes "plt") (find user_agent h)
unfolding get_header find has_header default_agent
agent-find [] = refl
agent-find (entry ∷ rest) = ground (arith, agent-find rest, get_header-find user_agent rest)

no_default_agent : (c : Capture) (body : Text) → default_header user_agent c body ≡ none
no_default_agent c body = ground arith

-- The agent that a request carries is the last one that the command line's -H lines name, in any
-- spelling of the header's letters, and `plt` if none does.
pub agent_sent :
    (c : Capture) (flags : Flags)
    → get_header user_agent (default_agent (build c flags).header_map)
      ≡ or_else (codes "plt") (last_value user_agent c.header none)
agent_sent c flags =
    let body = body_of c.payload flags.body in
    agent-find (build c flags).header_map
    ∙ ap (or_else (codes "plt")) (build_lem c flags user_agent).2
    ∙ ap (λ v. or_else (codes "plt") (last_value user_agent c.header v)) (no_default_agent c body)
