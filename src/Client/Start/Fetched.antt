-- ===== src/Client/Start/Fetched.antt =====
-- The client and the server together: what is shown of a file, of a program's output and of the log.
use operating_systems_wet.Base.{
  ℕ, suc, ◌<◌, ◌^◌, ◌≡◌, subst, ap, ◌∙◌, true, false, List, [], ◌∷◌, ◌++◌, some, arith,
}
use operating_systems_wet.Base.Bytes.{codes, same_letters}
use operating_systems_wet.Base.Time.{Timeval}
use operating_systems_wet.Log.Buffer.Bounds.{content}
use operating_systems_wet.Rio.Read.{Event}
use operating_systems_wet.Rio.Read.Stream.{Stop, flow}
use operating_systems_wet.Rio.Line.Closed.{is_closed}
use operating_systems_wet.Request.Stats.{ThreadsStats}
use operating_systems_wet.Request.Uri.{Target, request_parse_uri}
use operating_systems_wet.Request.Headers.Spec.{all_headers, header_text}
use operating_systems_wet.Request.Session.{FileStat, Env, Session, Outcome, returns}
use operating_systems_wet.Request.Answer.Pages.{
  static_headers, static_headers-all_headers, log_headers, log_headers-all_headers, dynamic_headers,
  dynamic_headers-all_headers,
}
use operating_systems_wet.Request.Handle.{
  Stack, count_total, count_static, count_dynamic, count_post, request_handle,
}
use operating_systems_wet.Request.Handle.Ends.{CanHandle}
use operating_systems_wet.Request.Handle.Reaction.{reaction}
use operating_systems_wet.Request.Handle.Reacts.{IsBenign}
use operating_systems_wet.Client.{request_text}
use operating_systems_wet.Client.Fits.{IsAsked}
use operating_systems_wet.Client.Fetch.{request_handle-Fulfils}
use operating_systems_wet.Client.Shows.{shown_headers, no_zero, client_print_lem}
use operating_systems_wet.Client.Start.{ClientCalls, ends, client_main}
use operating_systems_wet.Client.Start.Page.{
  Connects, before_answer, client_main_prints, FindsPage, FindsProgram, page_answer, output_answer,
  log_answer,
}

-- A connection that delivers what was sent in some pieces and then stays at its end.
pub record Delivers (deliver : List ℕ → List Event) : Type 0 where
  pub closed : (text : List ℕ) → is_closed (deliver text) ≡ true
  pub whole : (text : List ℕ) → (flow (deliver text)).coming ≡ text

-- The server's call returns; the client, when the answer is delivered to it, ends well, has sent its
-- request, and shows these header lines and this body.
module _ (deliver : List ℕ → List Event) (calls : ClientCalls) (clientfd : ℕ)
    (name host port filename method : List ℕ) where
  abbrev pub Shown : Outcome (Unit {0}) → List (List ℕ) → List ℕ → Type 0
  Shown o ws body =
      (s' : Session) × (o ≡ returns tt s')
      × (client_main (record calls { fd = deliver s'.sent })
            (name ∷ host ∷ port ∷ filename ∷ method ∷ [])
          ≡ some (
              ends 0 []
                (before_answer clientfd (request_text method filename calls.hostname)
                  ++ (shown_headers ws ++ body))
                (request_text method filename calls.hostname)))

  module _ (env : Env) (arrival dispatch : Timeval) (stack : Stack) (fd : List Event) (stop : Stop)
      (s : Session) (name_rc closed_rc : ℕ) (delivers : Delivers deliver)
      (connects : Connects calls clientfd name_rc closed_rc)
      (asked : IsAsked method filename calls.hostname)
      (arrives : flow fd
        ≡ record { coming = request_text method filename calls.hostname; stop = stop })
      (benign : IsBenign env) (can : CanHandle env arrival dispatch s) (fresh : s.sent ≡ []) where
    abbrev target : Target
    target = request_parse_uri stack.below_uri filename stack.cgiargs

    abbrev stats : ThreadsStats
    stats = count_total s.stats

    answer-Shown :
        (ws : List (List ℕ)) (body : List ℕ)
        → (reaction env arrival dispatch stats s.log method target).answer ≡ header_text ws body
        → all_headers ws ≡ true
        → no_zero body ≡ true
        → Shown (request_handle env arrival dispatch stack fd s) ws body
    answer-Shown ws body parts h zeros =
        let (s', back, counts, sent, logged, valid, quiet) =
          request_handle-Fulfils env arrival dispatch stack fd method filename calls.hostname stop
            asked arrives s benign can in
        let text : s'.sent ≡ header_text ws body =
          sent
          ∙ ap (λ l. l ++ (reaction env arrival dispatch stats s.log method target).answer) fresh
          ∙ parts in
        let (rp, shows) =
          client_print_lem (deliver s'.sent) ws body (delivers.closed s'.sent) h zeros
            (delivers.whole s'.sent ∙ text) in
        (
          s',
          back,
          client_main_prints (record calls { fd = deliver s'.sent }) clientfd name_rc closed_rc name
              host port filename method (shown_headers ws ++ body) rp
              (record {
                connects = connects.connects;
                names = connects.names;
                writes = connects.writes;
                closes = connects.closes;
              })
              shows,
        )

    -- The server returns from the client's GET for a file without zero bytes, which it finds, may read and
    -- maps whole; and the client, when the answer is delivered to it in any pieces, ends well, having printed its
    -- request, the lines of the server's header and exactly the bytes of the file. The request is made of
    -- words so short that no buffer overflows, the calls of both sides go well, and the log is valid, unused and has room.
    pub client_gets_page :
        (sbuf : FileStat) (k : ℕ) (body : List ℕ)
        → same_letters method (codes "GET") ≡ true
        → FindsPage env target sbuf k body
        → no_zero body ≡ true
        → Shown
            (request_handle env arrival dispatch stack fd s)
            (static_headers env arrival dispatch (count_static stats) target.filename (suc k))
            body
    client_gets_page sbuf k body get finds zeros =
        answer-Shown
          (static_headers env arrival dispatch (count_static stats) target.filename (suc k)) body
          (page_answer env arrival dispatch stats s.log method target sbuf k body get finds)
          (static_headers-all_headers env arrival dispatch (count_static stats) target.filename
            (suc k)
            (subst (λ n. n < 2 ^ 31) finds.size (benign.sizes target.filename sbuf finds.found))
            (omega (arith, can.counters)) can.arrival_time can.dispatch_time)
          zeros

    -- The server returns from the client's GET for a program that may be run and writes no zero bytes; and the
    -- client, when the answer is delivered to it in any pieces, ends well, having printed its request, the lines
    -- of the server's header and then, as the body of the answer, all that the program has written, its own
    -- header lines included: the server's header ends before them. The request is made of words so short that no buffer
    -- overflows, the calls of both sides go well, and the log is valid, unused and has room.
    pub client_gets_output :
        (sbuf : FileStat)
        → same_letters method (codes "GET") ≡ true
        → FindsProgram env target sbuf
        → no_zero (env.run_cgi target.filename target.cgiargs) ≡ true
        → Shown
            (request_handle env arrival dispatch stack fd s)
            (dynamic_headers env arrival dispatch (count_dynamic stats))
            (env.run_cgi target.filename target.cgiargs)
    client_gets_output sbuf get finds zeros =
        answer-Shown (dynamic_headers env arrival dispatch (count_dynamic stats))
          (env.run_cgi target.filename target.cgiargs)
          (output_answer env arrival dispatch stats s.log method target sbuf get finds)
          (dynamic_headers-all_headers env arrival dispatch (count_dynamic stats)
            (omega (arith, can.counters)) can.arrival_time can.dispatch_time)
          zeros

    -- The server returns from the client's POST, and the client, when the answer is delivered to it in any
    -- pieces, ends well, having printed its request, the lines of the server's header and exactly the text of
    -- the log. The request is made of words so short that no buffer overflows, the calls of both sides go well, and the log
    -- is valid, unused, has room and has no zero bytes in it.
    pub client_gets_log :
        same_letters method (codes "GET") ≡ false
        → same_letters method (codes "POST") ≡ true
        → no_zero (content s.log) ≡ true
        → Shown
            (request_handle env arrival dispatch stack fd s)
            (log_headers env arrival dispatch (count_post stats) s.log)
            (content s.log)
    client_gets_log other post zeros =
        answer-Shown (log_headers env arrival dispatch (count_post stats) s.log) (content s.log)
          (log_answer env arrival dispatch stats s.log method target other post)
          (log_headers-all_headers env arrival dispatch (count_post stats) s.log can.small
            (omega (arith, can.counters)) can.arrival_time can.dispatch_time)
          zeros
