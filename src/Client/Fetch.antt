-- ===== src/Client/Fetch.antt =====
-- From the client's request to the server's reaction.
use operating_systems_wet.Base.{ℕ, ◌<◌, ◌≡◌, true, some, List, [], ◌∷◌, ◌++◌, length, arith}
use operating_systems_wet.Base.Bytes.{codes}
use operating_systems_wet.Base.Time.{Timeval}
use operating_systems_wet.Rio.Read.{Rio, Event, rio_readinitb}
use operating_systems_wet.Rio.Read.Stream.{Stop, flow}
use operating_systems_wet.Rio.Line.Text.{in_line}
use operating_systems_wet.Request.Headers.Spec.{all_headers, request_readhdrs_lem}
use operating_systems_wet.Request.Uri.{request_parse_uri}
use operating_systems_wet.Request.Session.{Env, Session}
use operating_systems_wet.Request.Handle.{
  Stack, count_total, handle_line, handle_method, request_handle,
}
use operating_systems_wet.Request.Handle.Ends.{CanHandle, count_total-CanHandle}
use operating_systems_wet.Request.Handle.Cut.{TakesNothing, Stops, method-Stops}
use operating_systems_wet.Request.Headers.{skipped, request_readhdrs, enough_lines}
use operating_systems_wet.Request.Handle.Reaction.{reaction}
use operating_systems_wet.Request.Handle.Reacts.{IsBenign, Fulfils, method-Fulfils}
use operating_systems_wet.Client.{request_text}
use operating_systems_wet.Client.Fits.{IsAsked}
use operating_systems_wet.Client.Roundtrip.{client_request_lem}

host_is_header :
    (hostname : List ℕ)
    → in_line hostname ≡ true
    → length hostname < 8185
    → all_headers ((codes "host: " ++ hostname) ∷ []) ≡ true
host_is_header hostname lined short = ground arith

-- The request reaches `requestHandle` line by line, and its header ends in the blank line.
module _ (env : Env) (arrival dispatch : Timeval) (stack : Stack) (fd : List Event)
    (method filename hostname : List ℕ) (stop : Stop) (asked : IsAsked method filename hostname)
    (same : flow fd ≡ record { coming = request_text method filename hostname; stop = stop }) where
  request_arrives :
      (s : Session)
      → (rp : Rio) × (rp' : Rio) × (request_handle env arrival dispatch stack fd s
          ≡ handle_method env arrival dispatch stack
              (method, filename)
              rp
              (record s { stats = count_total s.stats }))
        × (request_readhdrs (enough_lines rp) stack.header rp ≡ some (skipped rp'))
  unfolding request_handle handle_line rio_readinitb
  request_arrives s =
      let (text, n, rp, got, scanned, left) =
        client_request_lem method filename hostname stack (rio_readinitb fd) stop asked.plain_method
          asked.plain_filename asked.some_method asked.some_filename (omega (arith, asked.short))
          same in
      let (rp', skips, rest) =
        request_readhdrs_lem ((codes "host: " ++ hostname) ∷ []) [] stack.header rp stop
          (host_is_header hostname asked.lined_host (omega (arith, asked.short_request))) left in
      (rp, rp', rw (got, scanned), skips)

  -- What `clientSend` sends, in any pieces and with any interruptions, makes `requestHandle` return, answer,
  -- count and log as the specification of the server says for that method and the file that the name stands
  -- for, and leaves the log valid and unused. The names are words so short that no buffer of the client or
  -- the server overflows, not even with the page of an error, the operating system does what it is asked, and the log is valid, unused and has room.
  pub request_handle-Fulfils :
      (s : Session)
      → IsBenign env
      → CanHandle env arrival dispatch s
      → Fulfils s
          (reaction env arrival dispatch
            (count_total s.stats)
            s.log
            method
            (request_parse_uri stack.below_uri filename stack.cgiargs))
          (request_handle env arrival dispatch stack fd s)
  request_handle-Fulfils s benign c =
      let (rp, rp', calls, skips) = request_arrives s in
      rw calls (
        method-Fulfils env arrival dispatch benign stack method filename rp rp'
          (record s { stats = count_total s.stats })
          (count_total-CanHandle env arrival dispatch s c) skips)

  -- A client that sends its request, made of words so short that no buffer of
  -- the two overflows, and takes nothing of the answer ends
  -- the whole server: `requestHandle` does not return but exits with the message of `Rio_writen`, whatever the
  -- method and whatever the name stands for, and nothing has been sent. Files that are found can be opened,
  -- mapped and closed, and the log is valid, unused and has room.
  pub request_handle-Stops :
      (s : Session)
      → TakesNothing env
      → CanHandle env arrival dispatch s
      → Stops s (request_handle env arrival dispatch stack fd s)
  request_handle-Stops s cut c =
      let (rp, rp', calls, skips) = request_arrives s in
      rw calls (
        method-Stops env arrival dispatch cut stack method filename rp rp'
          (record s { stats = count_total s.stats })
          (count_total-CanHandle env arrival dispatch s c) skips)
