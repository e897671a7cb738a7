-- ===== src/Tests/Fetched.antt =====
-- A client that gets a page, the output of a program, and the log.
use mathlib.Core.Option.{some-injective}
use operating_systems_wet.Base.{
  ℕ, subst, ◌<◌, ◌^◌, ◌≡◌, refl, true, List, [], ◌∷◌, ◌++◌, append-nil, some, arith,
}
use operating_systems_wet.Base.Int.{pos}
use operating_systems_wet.Base.Bytes.{codes}
use operating_systems_wet.Base.Format.{print_nat}
use operating_systems_wet.Request.Handle.Ends.{CanHandle}
use operating_systems_wet.Request.Handle.Reacts.{IsBenign}
use operating_systems_wet.Client.Fits.{IsAsked}
use operating_systems_wet.Rio.Read.{Rio, Event, chunk, interrupted}
use operating_systems_wet.Rio.Read.Stream.{at_end, flow}
use operating_systems_wet.Rio.Line.Closed.{is_closed}
use operating_systems_wet.Segel.{open_clientfd}
use operating_systems_wet.Request.Stats.{crlf}
use operating_systems_wet.Request.Uri.{request_parse_uri}
use operating_systems_wet.Request.Session.{FileStat, Env}
use operating_systems_wet.Request.Answer.Pages.{static_headers, dynamic_headers, log_headers}
use operating_systems_wet.Request.Handle.{
  count_total, count_static, count_dynamic, count_post, request_handle,
}
use operating_systems_wet.Client.{request_text, printed_all, client_print}
use operating_systems_wet.Client.Shows.Length.{gives_length, client_print_headers}
use operating_systems_wet.Client.Start.{ClientCalls}
use operating_systems_wet.Client.Start.Page.{Connects, FindsPage, FindsProgram}
use operating_systems_wet.Client.Start.Fetched.{
  Delivers, Shown, client_gets_page, client_gets_output, client_gets_log,
}
use operating_systems_wet.Request.Handle.Same.{request_handle-same}
use operating_systems_wet.Tests.Log.{zeros-AllocatesExactly}
use operating_systems_wet.Tests.Requests.{
  stack, env, session, session-CanHandle, session_in-CanHandle, readable, noon, soon,
}
use operating_systems_wet.Tests.Asked.{get, page, host, asked, env-IsBenign, get-page-IsAsked}

-- A connection that delivers everything at once.
abbrev at_once : List ℕ → List Event
at_once [] = []
at_once (b ∷ bs) = chunk (b ∷ bs) ∷ []

at_once-Delivers : Delivers at_once
at_once-Delivers = record { closed = closes; whole = keeps }
  where
    closes : (text : List ℕ) → is_closed (at_once text) ≡ true
    closes [] = refl
    closes (b ∷ bs) = refl

    keeps : (text : List ℕ) → (flow (at_once text)).coming ≡ text
    keeps [] = refl
    keeps (b ∷ bs) = append-nil (b ∷ bs)

abbrev calls : ClientCalls
calls = record {
  socket_rc = pos 3;
  host_found = true;
  connect_rc = pos 0;
  hostname_rc = pos 0;
  hostname = host;
  write_ok = true;
  fd = [];
  close_rc = pos 0;
}

calls-Connects : Connects calls 3 0 0
unfolding open_clientfd
calls-Connects = record { connects = refl; names = refl; writes = refl; closes = refl }

finds_page :
    FindsPage env (request_parse_uri stack.below_uri page stack.cgiargs) readable 1 (104 ∷ 105 ∷ [])
unfolding request_parse_uri
finds_page = record {
  is_static = refl;
  found = refl;
  regular = refl;
  readable = refl;
  size = refl;
  mapped = refl;
  exact = refl;
}

client_gets_page_example :
    Shown at_once calls 3
      (codes "./client")
      (codes "csl3")
      (codes "8003")
      page
      get
      (request_handle env noon soon stack asked session)
      (static_headers env noon soon
        (count_static (count_total session.stats))
        (request_parse_uri stack.below_uri page stack.cgiargs).filename
        2)
      (104 ∷ 105 ∷ [])
client_gets_page_example =
    client_gets_page at_once calls 3 (codes "./client") (codes "csl3") (codes "8003") page get env
      noon soon stack asked at_end session 0 0 at_once-Delivers calls-Connects get-page-IsAsked refl
      env-IsBenign session-CanHandle refl readable 1 (104 ∷ 105 ∷ []) refl finds_page refl

-- A program that prints a header of its own, as output.c does.
abbrev program_output : List ℕ
program_output = codes "Content-length: 1" ++ (crlf ++ (crlf ++ (120 ∷ [])))

abbrev with_program : Env
with_program = record env {
  stat = λ _. some (record readable { may_execute = true });
  run_cgi = λ _ _. program_output;
}

abbrev cgi_page : List ℕ
cgi_page = codes "/output.cgi?1"

abbrev asked_cgi : List Event
asked_cgi = at_once (request_text get cgi_page host)

cgi_page-IsAsked : IsAsked get cgi_page host
cgi_page-IsAsked = record {
  plain_method = refl;
  plain_filename = refl;
  lined_host = refl;
  some_method = omega arith;
  some_filename = omega arith;
  short = omega arith;
  short_request = omega arith;
}

with_program-IsBenign : IsBenign with_program
with_program-IsBenign = record {
  writes = λ _ _. refl;
  opens = λ _ _ _. refl;
  sizes = λ f sbuf e.
      subst (λ (st : FileStat). st.st_size < 2 ^ 31)
        (some-injective (record readable { may_execute = true }) sbuf e) (omega arith);
  maps = λ _ _ _ _ _. (104 ∷ 105 ∷ [], refl);
  closes = refl;
  unmaps = refl;
  forks = refl;
  waits = refl;
}

with_program-CanHandle : CanHandle with_program noon soon session
with_program-CanHandle = session_in-CanHandle with_program zeros-AllocatesExactly

finds_program :
    FindsProgram with_program
      (request_parse_uri stack.below_uri cgi_page stack.cgiargs)
      (record readable { may_execute = true })
unfolding request_parse_uri
finds_program = record { is_dynamic = refl; found = refl; regular = refl; runs = refl }

client_gets_output_example :
    Shown at_once calls 3
      (codes "./client")
      (codes "csl3")
      (codes "8003")
      cgi_page
      get
      (request_handle with_program noon soon stack asked_cgi session)
      (dynamic_headers with_program noon soon (count_dynamic (count_total session.stats)))
      program_output
client_gets_output_example =
    client_gets_output at_once calls 3 (codes "./client") (codes "csl3") (codes "8003") cgi_page get
      with_program noon soon stack asked_cgi at_end session 0 0 at_once-Delivers calls-Connects
      cgi_page-IsAsked refl with_program-IsBenign with_program-CanHandle refl
      (record readable { may_execute = true }) refl finds_program refl

-- The same request in two ways.
request_handle-same_example :
    request_handle env noon soon stack asked session
    ≡ request_handle env noon soon stack (at_once (request_text get page host)) session
request_handle-same_example =
    request_handle-same env noon soon stack asked (at_once (request_text get page host)) session
      refl refl refl

abbrev answer : List Event
answer = chunk (codes "Content-Length: 2") ∷ interrupted ∷ chunk (crlf ++ (crlf ++ codes "hi")) ∷ []

client_print_headers_example :
    (rp' : Rio) × (client_print answer
      ≡ some (
          printed_all
            (codes "Header: Content-Length: 2"
              ++ (13 ∷ b'\n' ∷ (codes "Length = 2" ++ (b'\n' ∷ codes "hi"))))
            rp'))
unfolding print_nat
client_print_headers_example =
    client_print_headers answer (gives_length 2 ∷ []) (codes "hi") refl refl refl refl

-- A POST, answered with a log of one byte.
abbrev post : List ℕ
post = codes "POST"

abbrev asked_post : List Event
asked_post = at_once (request_text post page host)

post-page-IsAsked : IsAsked post page host
post-page-IsAsked = record {
  plain_method = refl;
  plain_filename = refl;
  lined_host = refl;
  some_method = omega arith;
  some_filename = omega arith;
  short = omega arith;
  short_request = omega arith;
}

client_gets_log_example :
    Shown at_once calls 3
      (codes "./client")
      (codes "csl3")
      (codes "8003")
      page
      post
      (request_handle env noon soon stack asked_post session)
      (log_headers env noon soon (count_post (count_total session.stats)) session.log)
      (97 ∷ [])
client_gets_log_example =
    client_gets_log at_once calls 3 (codes "./client") (codes "csl3") (codes "8003") page post env
      noon soon stack asked_post at_end session 0 0 at_once-Delivers calls-Connects
      post-page-IsAsked refl env-IsBenign session-CanHandle refl refl refl refl
