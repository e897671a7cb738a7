-- ===== src/Tests/Asked.antt =====
-- A client that asks for a page, and one that prints an answer.
use mathlib.Core.Option.{some-injective}
use operating_systems_wet.Base.{ℕ, ◌<◌, ◌^◌, ◌≡◌, refl, subst, List, [], ◌∷◌, ◌++◌, some, arith}
use operating_systems_wet.Base.Bytes.{codes, c_string}
use operating_systems_wet.Rio.Read.{Rio, Event, chunk, interrupted, rio_readinitb}
use operating_systems_wet.Rio.Read.Stream.{at_end, stream}
use operating_systems_wet.Rio.Line.{line, rio_readlineb}
use operating_systems_wet.Request.Headers.{maxline, request_readhdrs, skipped, enough_lines}
use operating_systems_wet.Request.Handle.{scan_request, count_total, request_handle}
use operating_systems_wet.Request.Stats.{crlf}
use operating_systems_wet.Client.{host_lines, Printed, client_print}
use operating_systems_wet.Client.Roundtrip.{client_request_lem}
use operating_systems_wet.Client.Total.{client_print_total}
use operating_systems_wet.Client.Fits.{IsAsked, Fits, IsAsked-Fits}
use operating_systems_wet.Client.Fetch.{request_handle-Fulfils, request_handle-Stops}
use operating_systems_wet.Request.Session.{FileStat, Env, errs}
use operating_systems_wet.Request.Headers.Spec.{request_readhdrs_lem}
use operating_systems_wet.Request.Uri.{request_parse_uri}
use operating_systems_wet.Request.Handle.Reaction.{reaction}
use operating_systems_wet.Request.Handle.Reacts.{IsBenign, Fulfils}
use operating_systems_wet.Request.Handle.Cut.{TakesNothing, Stops}
use operating_systems_wet.Request.Handle.Ends.{CanHandle}
use operating_systems_wet.Tests.Log.{zeros-AllocatesExactly}
use operating_systems_wet.Tests.Requests.{
  stack, env, session, session-CanHandle, session_in-CanHandle, readable, noon, soon, two_lines,
}

abbrev pub get : List ℕ
get = codes "GET"

abbrev pub page : List ℕ
page = codes "/home.html"

abbrev pub host : List ℕ
host = codes "csl3"

abbrev arriving : Rio
arriving = record {
  fd =
      interrupted
      ∷ chunk (codes "T /home.html HTTP/1.1" ++ (b'\n' ∷ (codes "host: csl3" ++ (b'\n' ∷ crlf))))
      ∷ [];
  unread = codes "GE";
}

client_request_lem_example :
    (text : List ℕ) × (n : ℕ) × (rp' : Rio) × (rio_readlineb arriving maxline ≡ (line text n, rp'))
    × (scan_request stack (c_string text) ≡ (get, page))
    × (stream rp' ≡ record { coming = host_lines host; stop = at_end })
client_request_lem_example =
    client_request_lem get page host stack arriving at_end refl refl (omega arith) (omega arith)
      (omega arith) refl

abbrev answer : List Event
answer = chunk (codes "Content-Length: 2" ++ (crlf ++ (crlf ++ codes "hi"))) ∷ []

client_print_total_example : (r : Printed) × (client_print answer ≡ some r)
client_print_total_example = client_print_total answer

-- The same request, in two pieces, to a server whose file `/home.html` holds "hi".
abbrev pub asked : List Event
asked =
    chunk (codes "GE")
    ∷ interrupted
    ∷ chunk (codes "T /home.html HTTP/1.1" ++ (b'\n' ∷ (codes "host: csl3" ++ (b'\n' ∷ crlf))))
    ∷ []

pub env-IsBenign : IsBenign env
env-IsBenign = record {
  writes = λ _ _. refl;
  opens = λ _ _ _. refl;
  sizes = λ f sbuf e.
      subst (λ (st : FileStat). st.st_size < 2 ^ 31) (some-injective readable sbuf e) (omega arith);
  maps = λ _ _ _ _ _. (104 ∷ 105 ∷ [], refl);
  closes = refl;
  unmaps = refl;
  forks = refl;
  waits = refl;
}

pub get-page-IsAsked : IsAsked get page host
get-page-IsAsked = record {
  plain_method = refl;
  plain_filename = refl;
  lined_host = refl;
  some_method = omega arith;
  some_filename = omega arith;
  short = omega arith;
  short_request = omega arith;
}

request_handle-Fulfils_example :
    Fulfils session
      (reaction env noon soon
        (count_total session.stats)
        session.log
        get
        (request_parse_uri stack.below_uri page stack.cgiargs))
      (request_handle env noon soon stack asked session)
request_handle-Fulfils_example =
    request_handle-Fulfils env noon soon stack asked get page host at_end get-page-IsAsked refl
      session env-IsBenign session-CanHandle

request_readhdrs_lem_example :
    (rp' : Rio) × (request_readhdrs (enough_lines two_lines) [] two_lines ≡ some (skipped rp'))
    × (stream rp' ≡ record { coming = []; stop = at_end })
unfolding rio_readinitb
request_readhdrs_lem_example =
    request_readhdrs_lem ((97 ∷ []) ∷ []) [] [] two_lines at_end refl refl

-- A client that goes away.
abbrev cut_env : Env
cut_env = record env { write_result = λ _ _. errs }

cut_env-TakesNothing : TakesNothing cut_env
cut_env-TakesNothing = record {
  refuses = λ _ _. refl;
  opens = env-IsBenign.opens;
  sizes = env-IsBenign.sizes;
  maps = env-IsBenign.maps;
  closes = refl;
}

cut_env-CanHandle : CanHandle cut_env noon soon session
cut_env-CanHandle = session_in-CanHandle cut_env zeros-AllocatesExactly

request_handle-Stops_example : Stops session (request_handle cut_env noon soon stack asked session)
request_handle-Stops_example =
    request_handle-Stops cut_env noon soon stack asked get page host at_end get-page-IsAsked refl
      session cut_env-TakesNothing cut_env-CanHandle

IsAsked-Fits_example : Fits get page host [] 0
IsAsked-Fits_example = IsAsked-Fits get page host [] 0 get-page-IsAsked (omega arith)
